-- ===== src/Base/Values.antt =====
-- Lists of the values of a function.
use Prim.Native.Nat.{ℕ, zero, suc}
use mathlib.Core.Path.{◌≡◌, sym}
use mathlib.Core.Bool.{true}
use mathlib.Core.List.{List, ◌∷◌}
use mathlib.Core.Option.{Option, none, some}
use native.Mathlib.Omega.{arith}
use oddio.Base.Tests.{ltb, if◌then◌else◌}
use oddio.Base.Lists.{get_elem?}

-- A list of `suc n` values of a function, from the list of its values from 1 on.
pub get_elem?-values {ℓ} :
    {A : Type ℓ} (x : A) (xs : List A) (n : ℕ) (f : ℕ → Option A)
    → f 0 ≡ some x
    → ((j : ℕ) → get_elem? xs j ≡ (if ltb j n then f (suc j) else none))
    → (j : ℕ) → get_elem? (x ∷ xs) j ≡ (if ltb j (suc n) then f j else none)
get_elem?-values x xs n f e h zero = let e' : ltb 0 (suc n) ≡ true = ground arith in rw e' (sym e)
get_elem?-values x xs n f e h (suc j) =
    let e' : ltb (suc j) (suc n) ≡ ltb j n = ground arith in rw e' (h j)
