-- ===== src/Float.antt =====
-- The floating-point arithmetic of the crate: the operators and conversions of `f32` and `f64`, and
-- the trait of src/math/mod.rs. Both are parameters of the model: a proof knows of them only what its
-- hypotheses say.
pub mod Natural
pub mod Integer
use oddio.Base.{ℕ, Bool, Option}
use oddio.Base.Int.{ℤ}

-- `trait Float`
pub record MathFunctions (F : Type 0) : Type 0 where
  pub abs : F → F
  pub sqrt : F → F
  pub exp : F → F
  pub ceil : F → F
  pub trunc : F → F
  pub fract : F → F
  pub log10 : F → F
  pub powf : F → F → F
  pub powi : F → ℤ → F
  pub sin : F → F
  pub rem_euclid : F → F → F
  pub tanh : F → F

-- The operators and conversions of a float type. `literal n d` is the literal n / d. `to_nat` and
-- `to_int` are the saturating `as usize` and `as isize`; `to_nat_unchecked` and `to_int_unchecked` are
-- `to_int_unchecked` at usize and isize, `none` where that is undefined.
pub record Float (F : Type 0) : Type 0 where
  pub literal : ℕ → ℕ → F
  pub neg : F → F
  pub add : F → F → F
  pub sub : F → F → F
  pub mul : F → F → F
  pub div : F → F → F
  pub rem : F → F → F
  pub lt : F → F → Bool
  pub le : F → F → Bool
  pub eq : F → F → Bool
  pub of_nat : ℕ → F
  pub to_nat : F → ℕ
  pub of_int : ℤ → F
  pub to_int : F → ℤ
  pub to_nat_unchecked : F → Option ℕ
  pub to_int_unchecked : F → Option ℤ
  pub min_of : F → F → F
  pub max_of : F → F → F
  pub math : MathFunctions F
  pub open math use {abs, sqrt, exp, ceil, trunc, fract, log10, powf, powi, sin, rem_euclid, tanh}

-- `f64::from` and `as f32`, between a narrow and a wide float type
pub record Widen (F : Type 0) (D : Type 0) : Type 0 where
  pub widen : F → D
  pub narrow : D → F

module _ {F : Type 0} ⦃fl : Float F⦄ where
  abbrev pub zero_f : F
  zero_f = fl.literal 0 1

  abbrev pub one_f : F
  one_f = fl.literal 1 1
