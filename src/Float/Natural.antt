-- ===== src/Float/Natural.antt =====
-- The natural numbers as a float type, to run the model on.
use oddio.Base.{ℕ, some, ◌+◌, ◌-◌, ◌*◌, ◌/◌, ◌%◌, ◌^◌, min, ltb, leb, ◌==◌, if◌then◌else◌}
use oddio.Base.Int.{ℤ, pos, negsuc}
use oddio.Float.{Float, MathFunctions}

abbrev nat_of_int : ℤ → ℕ
nat_of_int (pos n) = n
nat_of_int (negsuc n) = 0

abbrev functions : MathFunctions ℕ
functions = record {
  abs = λ a. a;
  sqrt = λ a. a;
  exp = λ a. 1;
  ceil = λ a. a;
  trunc = λ a. a;
  fract = λ a. 0;
  log10 = λ a. 0;
  powf = λ a b. a;
  powi = λ a b. a;
  sin = λ a. 0;
  rem_euclid = λ a b. a % b;
  tanh = λ a. a;
}

instance abbrev pub natural : Float ℕ
natural = record {
  literal = λ n d. n / d;
  neg = λ a. 0;
  add = λ a b. a + b;
  sub = λ a b. a - b;
  mul = λ a b. a * b;
  div = λ a b. a / b;
  rem = λ a b. a % b;
  lt = ltb;
  le = leb;
  eq = λ a b. a == b;
  of_nat = λ n. n;
  to_nat = λ a. a;
  of_int = nat_of_int;
  to_int = λ a. pos (min a (2 ^ 63 - 1));
  to_nat_unchecked = some;
  to_int_unchecked = λ a. some (pos a);
  min_of = min;
  max_of = λ a b. if ltb a b then b else a;
  math = functions;
}
