-- ===== src/Float/Integer.antt =====
-- The integers as a float type, to run the model on where numbers are negative.
use oddio.Base.{ℕ, ◌+◌, ◌-◌, ◌/◌, ◌%◌, Bool, true, false, Option, none, some, ◌==◌, if◌then◌else◌}
use oddio.Base.Int.{ℤ, pos, negsuc, pos_part, neg_part, ◌+ℤ◌, ◌-ℤ◌, ◌*ℤ◌, ltb_ℤ}
use oddio.Float.{Float, MathFunctions}

abbrev eq_ℤ : ℤ → ℤ → Bool
eq_ℤ (pos a) (pos b) = a == b
eq_ℤ (pos a) (negsuc b) = false
eq_ℤ (negsuc a) (pos b) = false
eq_ℤ (negsuc a) (negsuc b) = a == b

abbrev le_ℤ : ℤ → ℤ → Bool
le_ℤ a b = if ltb_ℤ b a then false else true

-- the remainder that is not negative
abbrev rem_ℤ : ℤ → ℤ → ℤ
rem_ℤ (pos a) b = pos (a % (pos_part b + neg_part b))
rem_ℤ (negsuc a) b = let n = pos_part b + neg_part b in pos (n - 1 - a % n)

abbrev index_of : ℤ → Option ℕ
index_of (pos n) = some n
index_of (negsuc n) = none

abbrev functions : MathFunctions ℤ
functions = record {
  abs = λ a. pos (pos_part a + neg_part a);
  sqrt = λ a. a;
  exp = λ a. pos 1;
  ceil = λ a. a;
  trunc = λ a. a;
  fract = λ a. pos 0;
  log10 = λ a. pos 0;
  powf = λ a b. a;
  powi = λ a b. a;
  sin = λ a. pos 0;
  rem_euclid = rem_ℤ;
  tanh = λ a. a;
}

instance abbrev pub integer : Float ℤ
integer = record {
  literal = λ n d. pos (n / d);
  neg = λ a. pos 0 -ℤ a;
  add = λ a b. a +ℤ b;
  sub = λ a b. a -ℤ b;
  mul = λ a b. a *ℤ b;
  div = λ a b. pos (pos_part a / pos_part b);
  rem = rem_ℤ;
  lt = ltb_ℤ;
  le = le_ℤ;
  eq = eq_ℤ;
  of_nat = pos;
  to_nat = pos_part;
  of_int = λ a. a;
  to_int = λ a. a;
  to_nat_unchecked = index_of;
  to_int_unchecked = some;
  min_of = λ a b. if ltb_ℤ b a then b else a;
  max_of = λ a b. if ltb_ℤ a b then b else a;
  math = functions;
}
