-- ===== src/Backend/Powi.antt =====
-- `powi` of src/math/libm.rs: exponentiation by squaring.
use native.Mathlib.Nat.{div-div-eq-div-mul}
use oddio.Base.{
  ◌*◌, false, ℕ, zero, suc, ◌+◌, ◌-◌, ◌/◌, ◌%◌, ◌^◌, ◌<◌, ◌≡◌, refl, ap, sym, subst, ◌∙◌, true,
  Bool-cases, inl, inr, some, arith, ◌==◌, if◌then◌else◌, ◌>>=◌,
}
use oddio.Base.Int.{pos, negsuc}
use oddio.Float.{Float, one_f}
use oddio.Backend.{negate_i32, halve_i32, is_odd_i32, is_zero_i32, is_negative_i32, powi_loop, powi}

half-digits : (n i : ℕ) → n / 2 ^ i / 2 ≡ n / 2 ^ suc i
half-digits n i =
    let double : 2 ^ i * 2 ≡ 2 ^ suc i = grind arith in
    div-div-eq-div-mul n (2 ^ i) 2 ∙ ap (λ m. n / m) double

module _ {F : Type 0} ⦃fl : Float F⦄ where
  open fl use {mul}

  -- `x`, squared `i` times
  unfoldable pub squares : F → ℕ → F
  squares x zero = x
  squares x (suc i) = mul (squares x i) (squares x i)

  -- `r`, multiplied in turn by `x` squared `i` times, for those of the `k` binary digits `i` of `n` from
  -- `start` on that are set.
  unfoldable pub by_digits : F → ℕ → F → ℕ → ℕ → F
  by_digits x n r start zero = r
  by_digits x n r start (suc k) =
      by_digits x n (if n / 2 ^ start % 2 == 1 then mul r (squares x start) else r) (suc start) k

  by_digits-zero : (x : F) (n : ℕ) (r : F) (i k : ℕ) → n / 2 ^ i ≡ 0 → by_digits x n r i k ≡ r
  unfolding by_digits
  by_digits-zero x n r i zero e = refl
  by_digits-zero x n r i (suc k) e =
      let unset : (n / 2 ^ i % 2 == 1) ≡ false = ground arith in
      let rest : n / 2 ^ suc i ≡ 0 = omega (arith, half-digits n i) in
      rw unset (by_digits-zero x n r (suc i) k rest)

  powi_loop-digits :
      (k : ℕ) (x : F) (n i : ℕ) (r : F)
      → n / 2 ^ i < 2 ^ k
      → powi_loop (suc k) (squares x i) (pos (n / 2 ^ i)) r ≡ some (by_digits x n r i (suc k))
  unfolding powi_loop is_odd_i32 is_zero_i32 halve_i32 by_digits squares
  powi_loop-digits zero x n i r h =
      let done : (n / 2 ^ i / 2 == 0) ≡ true = ground arith in rw done refl
  powi_loop-digits (suc k) x n i r h =
      let r' = if n / 2 ^ i % 2 == 1 then mul r (squares x i) else r in
      elim (Bool-cases (n / 2 ^ i / 2 == 0)) [
        | inl e ↦
            let last : n / 2 ^ suc i ≡ 0 = ground (arith, half-digits n i) in
            rw e (ap some (sym (by_digits-zero x n r' (suc i) (suc k) last)))
        | inr e ↦
            let smaller : n / 2 ^ i / 2 < 2 ^ k = grind arith in
            let next = half-digits n i in
            rw e (
              subst
                (λ m.
                  powi_loop (suc k) (squares x (suc i)) (pos m) r'
                  ≡ some (by_digits x n r' (suc i) (suc k)))
                (sym next)
                (powi_loop-digits k x n (suc i) r' (subst (λ m. m < 2 ^ k) next smaller)))
      ]

  -- The least i32 is its own negative, and never leaves the remainder 1.
  powi_loop-least : (x : F) → powi_loop 32 x (negsuc (2 ^ 31 - 1)) one_f ≡ some one_f
  unfolding powi_loop is_odd_i32 is_zero_i32 halve_i32
  powi_loop-least x = refl

  -- For every i32 exponent, whatever the arithmetic: from zero on `powi` returns one, multiplied in turn,
  -- the lowest first, by the base squared `i` times for each binary digit `i` of the exponent that is
  -- set; below zero one divided by this for the opposite exponent, except for the least i32, where it
  -- returns one divided by one for every base (overflow is not checked).
  pub powi_lem :
      (x : F) (n : ℕ)
      → n < 2 ^ 31
      → (powi x (pos n) ≡ some (by_digits x n one_f 0 32))
        × (powi x (negsuc n)
            ≡ some
                (fl.div one_f (if n == 2 ^ 31 - 1 then one_f else by_digits x (n + 1) one_f 0 32)))
  unfolding powi is_negative_i32 negate_i32 squares
  powi_lem x n h =
      let run = λ (m : ℕ) (small : m < 2 ^ 31).
        let whole : m / 2 ^ 0 ≡ m = omega arith in
        subst (λ z. powi_loop 32 x (pos z) one_f ≡ some (by_digits x m one_f 0 32)) whole
          (powi_loop-digits 31 x m 0 one_f (omega (arith, small))) in
      (
        rw (run n h, ◌>>=◌) refl,
        elim (Bool-cases (n == 2 ^ 31 - 1)) [
          | inl e ↦
              let least : n ≡ 2 ^ 31 - 1 = ground arith in
              rw (e, least) (ap (λ r. r >>= λ y. some (fl.div one_f y)) (powi_loop-least x))
          | inr e ↦
              let small : n + 1 < 2 ^ 31 = ground arith in rw (e, run (n + 1) small, ◌>>=◌) refl
        ],
      )
