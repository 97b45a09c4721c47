-- ===== src/Ring/Wrap.antt =====
-- Reading the delay ring: every pair of samples is taken round the ring.
use native.Mathlib.Nat.{mod-lt}
use oddio.Base.{
  ℕ, Option, zero, suc, none, subst, get_elem?, get_elem?-values, ◌+◌, ◌-◌, ◌%◌, ◌<◌, ◌≤◌, ◌≡◌,
  refl, ap, Bool-cases, inl, inr, Option-cases, true, false, some, List, [], ◌∷◌, arith, length,
  get_elem?-get_or, get_or, ltb, ◌==◌, if◌then◌else◌, sub_usize, add_usize, mod_once, max_len,
  ◌>>=◌,
}
use oddio.Float.{Float, zero_f}
use oddio.Frame.{lerp, sample_frame}
use oddio.Cycle.{pair_of, wrapped_pair}
use oddio.Ring.{Ring, reaches, locate_at, locate, sample_from, sample}

pair_of_lem :
    {A : Type 0} (xs : List A) (i j : ℕ) (d : A)
    → i < length xs
    → j < length xs
    → pair_of xs i j ≡ some (get_or xs i d, get_or xs j d)
unfolding pair_of
pair_of_lem xs i j d p q = rw (get_elem?-get_or xs i d p, get_elem?-get_or xs j d q) refl

wrapped_pair_lem :
    {A : Type 0} (xs : List A) (x : ℕ) (d : A)
    → length xs ≤ max_len
    → x < length xs
    → wrapped_pair xs x ≡ some (get_or xs x d, get_or xs ((x + 1) % length xs) d)
unfolding wrapped_pair
wrapped_pair_lem xs x d small p =
    let n = length xs in
    let last : sub_usize n 1 ≡ n - 1 = omega arith in
    elim (Bool-cases (ltb x (n - 1))) [
      | inl e ↦
          let inside : x + 1 < n = ground arith in
          let next : add_usize x 1 ≡ x + 1 = omega arith in
          let same : (x + 1) % n ≡ x + 1 = omega (arith, mod_once (x + 1) n) in
          rw (last, e, next, same) (pair_of_lem xs x (x + 1) d p inside)
      | inr e ↦
          let end : x + 1 ≡ n = ground arith in
          let same : (x + 1) % n ≡ 0 = omega (arith, mod_once (x + 1) n) in
          rw (last, e, same) (pair_of_lem xs x 0 d p (omega arith))
    ]

module _ {F : Type 0} ⦃fl : Float F⦄ where
  open fl use {add, sub, of_nat, to_nat_unchecked}

  -- The offset that the loop keeps for an offset whose whole part is `x`.
  abbrev pub kept : List F → F → ℕ → F
  kept buffer offset x =
      let n = length buffer in
      if ltb x n then offset else add (of_nat (x % n)) (sub offset (of_nat x))

  locate_at_lem :
      (buffer : List F) (offset : F) (x : ℕ)
      → 0 < length buffer
      → length buffer ≤ max_len
      → let n = length buffer in
        locate_at buffer offset x
        ≡ some (
          (get_or buffer (x % n) zero_f, get_or buffer ((x % n + 1) % n) zero_f),
          sub offset (of_nat x),
          kept buffer offset x,
        )
  unfolding locate_at
  locate_at_lem buffer offset x some_left small =
      let n = length buffer in
      let last : sub_usize n 1 ≡ n - 1 = omega arith in
      elim (Bool-cases (ltb x n)) [
        | inl e ↦
            let inside : x < n = ground arith in
            let same : x % n ≡ x = omega (arith, mod_once x n) in
            elim (Bool-cases (ltb x (n - 1))) [
              | inl e2 ↦
                  let next_in : x + 1 < n = ground arith in
                  let next : (x + 1) % n ≡ x + 1 = omega (arith, mod_once (x + 1) n) in
                  rw (last, e2, e, same, next, pair_of_lem buffer x (x + 1) zero_f inside next_in)
                    refl
              | inr e2 ↦
                  let end : x + 1 ≡ n = ground arith in
                  let next : (x + 1) % n ≡ 0 = omega (arith, mod_once (x + 1) n) in
                  rw (last, e2, e, same, next, pair_of_lem buffer x 0 zero_f inside some_left) refl
            ]
        | inr e ↦
            let beyond : ltb x (n - 1) ≡ false = ground arith in
            let full : (n == 0) ≡ false = ground arith in
            let below = mod-lt x some_left in
            rw (last, beyond, e, full, wrapped_pair_lem buffer (x % n) zero_f small below) refl
      ]

  -- On a ring with at least one sample, for an offset whose whole part is `x`, the body of the loop
  -- reads the samples at `x` and at the one after it, both counted round the ring, and brings an
  -- offset past the end back into the ring. It has no result exactly where the unchecked conversion
  -- of the offset has none.
  pub ring_locate_lem :
      (buffer : List F) (offset : F)
      → 0 < length buffer
      → length buffer ≤ max_len
      → let n = length buffer in
        locate buffer offset ≡ (
          to_nat_unchecked offset >>= λ x.
          let fract = sub offset (of_nat x) in
          some (
            (get_or buffer (x % n) zero_f, get_or buffer ((x % n + 1) % n) zero_f),
            fract,
            if ltb x n then offset else add (of_nat (x % n)) fract,
          ))
  unfolding locate
  ring_locate_lem buffer offset some_left small = elim (Option-cases (to_nat_unchecked offset)) [
    | inl e ↦ rw (e, ◌>>=◌) refl
    | inr (x, e) ↦ rw (e, ◌>>=◌, locate_at_lem buffer offset x some_left small) refl
  ]

  -- the offset at the index `i`, one step further at each and brought back into the ring past its end;
  -- `none` once a conversion is undefined
  unfoldable pub offset_at : List F → F → F → ℕ → Option F
  offset_at buffer ds offset zero = some offset
  offset_at buffer ds offset (suc i) =
      to_nat_unchecked offset >>= λ x. offset_at buffer ds (add (kept buffer offset x) ds) i

  -- what is read at an offset: between the sample at its whole part and the next one, both counted
  -- round the ring
  unfoldable pub read_at : List F → F → Option F
  read_at buffer offset = do
    x ← to_nat_unchecked offset
    let n = length buffer
    let before = get_or buffer (x % n) zero_f
    let after = get_or buffer ((x % n + 1) % n) zero_f
    some (lerp sample_frame before after (sub offset (of_nat x)))

  -- The conversion is defined at the first `n` offsets.
  unfoldable pub Converts : List F → F → F → ℕ → Type 0
  Converts buffer ds offset n =
      (i : ℕ) → i < n → (x : ℕ) × ((offset_at buffer ds offset i >>= to_nat_unchecked) ≡ some x)

  sample_from_lem :
      (buffer : List F) (ds offset : F) (out : List F)
      → Converts buffer ds offset (length out)
      → 0 < length buffer
      → length buffer ≤ max_len
      → (frames : List F) × (sample_from buffer ds offset out ≡ some frames)
        × (length frames ≡ length out)
        × ((i : ℕ)
            → get_elem? frames i ≡ (
                if ltb i (length out)
                then (offset_at buffer ds offset i >>= read_at buffer)
                else none))
  unfolding sample_from Converts locate offset_at read_at
  sample_from_lem buffer ds offset [] c p small =
      ([], refl, refl, λ j. let e : ltb j 0 ≡ false = ground arith in rw e refl)
  sample_from_lem buffer ds offset (o ∷ out) c p small =
      let n = length buffer in
      let (x, e) = c 0 (omega arith) in
      let there = locate_at_lem buffer offset x p small in
      let next = add (kept buffer offset x) ds in
      let (rest, got, count, at) =
        sample_from_lem buffer ds next out
          (λ i q.
            subst
              (λ z.
                (y : ℕ) × ((z >>= λ w. offset_at buffer ds (add (kept buffer offset w) ds) i)
                    >>= to_nat_unchecked)
                  ≡ some y)
              e (c (suc i) (omega arith)))
          p small in
      let fract = sub offset (of_nat x) in
      let value =
        lerp sample_frame (get_or buffer (x % n) zero_f) (get_or buffer ((x % n + 1) % n) zero_f)
          fract in
      (
        value ∷ rest,
        rw (e, ◌>>=◌, there, got) refl,
        ap suc count,
        get_elem?-values value rest (length out)
            (λ i. offset_at buffer ds offset i >>= read_at buffer) (rw (e, ◌>>=◌) refl)
            (λ i. rw (e, ◌>>=◌) (at i)),
      )

  -- A ring with at least one sample can be read at a time that its two assertions allow, negative and
  -- less than the ring's length ago: if the unchecked conversion is defined at every offset that the
  -- loop comes to, `sample` does not panic and fills the whole slice. At the index `i` it leaves what is
  -- read at the offset that has grown by one step `i` times from the given time, counted round the
  -- ring.
  pub ring_sample_lem :
      (r : Ring F) (rate : ℕ) (t interval : F) (out : List F)
      → 0 < length r.buffer
      → length r.buffer ≤ max_len
      → reaches r rate t ≡ true
      → let start =
          fl.rem_euclid (add r.write (fl.mul t (of_nat rate))) (of_nat (length r.buffer)) in
        let ds = fl.mul interval (of_nat rate) in
        Converts r.buffer ds start (length out)
        → (frames : List F) × (sample r rate t interval out ≡ some frames)
          × (length frames ≡ length out)
          × ((i : ℕ)
              → get_elem? frames i ≡ (
                  if ltb i (length out)
                  then (offset_at r.buffer ds start i >>= read_at r.buffer)
                  else none))
  unfolding sample
  ring_sample_lem r rate t interval out p small allowed converts = rw allowed (
      sample_from_lem r.buffer (fl.mul interval (of_nat rate))
        (fl.rem_euclid (add r.write (fl.mul t (of_nat rate))) (of_nat (length r.buffer))) out
        converts p small)
