-- ===== src/Backend.antt =====
-- The two back ends of the float functions of src/math/mod.rs: src/math/std.rs, over the inherent
-- methods of the standard library, and src/math/libm.rs, over the crate `libm`. Both serve f32 and
-- f64, so that `F` stands for either.
pub mod Powi
mod Tests
use oddio.Base.{
  ℕ, zero, suc, ◌+◌, ◌-◌, ◌/◌, ◌%◌, ◌^◌, Bool, true, false, Option, none, some, ◌==◌, if◌then◌else◌,
  ◌>>=◌,
}
use oddio.Base.Int.{ℤ, pos, negsuc}
use oddio.Float.{Float, MathFunctions, zero_f, one_f}

-- The functions of the crate `libm` that the code calls, at one width.
pub record Libm (F : Type 0) : Type 0 where
  pub fabs : F → F
  pub sqrt : F → F
  pub exp : F → F
  pub ceil : F → F
  pub trunc : F → F
  pub log10 : F → F
  pub pow : F → F → F
  pub sin : F → F
  pub tanh : F → F

-- The inherent methods of f32 or f64 in the standard library.
pub record Std (F : Type 0) : Type 0 where
  pub abs : F → F
  pub sqrt : F → F
  pub exp : F → F
  pub ceil : F → F
  pub trunc : F → F
  pub fract : F → F
  pub log10 : F → F
  pub powf : F → F → F
  pub powi : F → ℤ → F
  pub sin : F → F
  pub rem_euclid : F → F → F
  pub tanh : F → F

-- `rhs *= -1` on an i32; the least value stays itself where overflow is not checked.
unfoldable pub negate_i32 : ℤ → ℤ
negate_i32 (pos zero) = pos zero
negate_i32 (pos (suc n)) = negsuc n
negate_i32 (negsuc n) = if n == 2 ^ 31 - 1 then negsuc n else pos (n + 1)

-- `rhs / 2` on an i32 rounds towards zero.
unfoldable pub halve_i32 : ℤ → ℤ
halve_i32 (pos n) = pos (n / 2)
halve_i32 (negsuc n) = if n == 0 then pos 0 else negsuc ((n + 1) / 2 - 1)

-- `rhs % 2 == 1`; a negative number leaves 0 or -1.
unfoldable pub is_odd_i32 : ℤ → Bool
is_odd_i32 (pos n) = n % 2 == 1
is_odd_i32 (negsuc n) = false

unfoldable pub is_zero_i32 : ℤ → Bool
is_zero_i32 (pos n) = n == 0
is_zero_i32 (negsuc n) = false

unfoldable pub is_negative_i32 : ℤ → Bool
is_negative_i32 (pos n) = false
is_negative_i32 (negsuc n) = true

module _ {F : Type 0} ⦃fl : Float F⦄ where
  open fl use {add, sub, mul, div, rem, lt}

  -- The loop of `powi`, on fuel; `none` when it runs out.
  unfoldable pub powi_loop : ℕ → F → ℤ → F → Option F
  powi_loop zero x rhs r = none
  powi_loop (suc fuel) x rhs r =
      let r' = if is_odd_i32 rhs then mul r x else r in
      let rest = powi_loop fuel (mul x x) (halve_i32 rhs) r' in
      if is_zero_i32 (halve_i32 rhs) then some r' else rest

  -- An i32 has 32 bits, and each round halves it.
  unfoldable pub powi : F → ℤ → Option F
  powi x rhs = do
    let invert = is_negative_i32 rhs
    r ← powi_loop 32 x (if invert then negate_i32 rhs else rhs) one_f
    some (if invert then div one_f r else r)

  unfoldable pub fract : Libm F → F → F
  fract lib x = sub x (lib.trunc x)

  unfoldable pub rem_euclid : Libm F → F → F → F
  rem_euclid lib x rhs = let r = rem x rhs in if lt r zero_f then add r (lib.fabs rhs) else r

  -- a number that does not occur, since `powi` returns
  abbrev or_zero : Option F → F
  or_zero none = zero_f
  or_zero (some r) = r

  -- `impl Float` of src/math/libm.rs
  unfoldable pub libm_functions : Libm F → MathFunctions F
  libm_functions lib = record {
    abs = lib.fabs;
    sqrt = lib.sqrt;
    exp = lib.exp;
    ceil = lib.ceil;
    trunc = lib.trunc;
    fract = fract lib;
    log10 = lib.log10;
    powf = lib.pow;
    powi = λ x n. or_zero (powi x n);
    sin = lib.sin;
    rem_euclid = rem_euclid lib;
    tanh = lib.tanh;
  }

-- `impl Float` of src/math/std.rs
unfoldable pub std_functions : {F : Type 0} → Std F → MathFunctions F
std_functions lib = record {
  abs = lib.abs;
  sqrt = lib.sqrt;
  exp = lib.exp;
  ceil = lib.ceil;
  trunc = lib.trunc;
  fract = lib.fract;
  log10 = lib.log10;
  powf = lib.powf;
  powi = lib.powi;
  sin = lib.sin;
  rem_euclid = lib.rem_euclid;
  tanh = lib.tanh;
}
