-- ===== src/Signal/Counting.antt =====
-- The signal of the unit test of src/signal.rs, which counts its frames.
use oddio.Base.{ℕ, suc, ◌+◌, ◌≡◌, refl, ap, List, [], ◌∷◌, ◌++◌, arith, length, false}
use oddio.Signal.{Signal, KeepsLength}

-- `CountingSignal`
abbrev pub count_from : ℕ → List ℕ → List ℕ
count_from n [] = []
count_from n (x ∷ xs) = n ∷ count_from (suc n) xs

abbrev pub counting : Signal ℕ ℕ ℕ
counting = record {
  sample = λ n interval out. (count_from n out, n + length out);
  is_finished = λ n. false;
}

length-count_from : (n : ℕ) (xs : List ℕ) → length (count_from n xs) ≡ length xs
length-count_from n [] = refl
length-count_from n (x ∷ xs) = ap suc (length-count_from (suc n) xs)

pub counting-KeepsLength : KeepsLength counting
counting-KeepsLength n interval out = length-count_from n out

pub count_from-overwrites :
    (n : ℕ) (xs ys : List ℕ) → length xs ≡ length ys → count_from n xs ≡ count_from n ys
count_from-overwrites n [] [] e = refl
count_from-overwrites n [] (y ∷ ys) e = absurd (omega arith)
count_from-overwrites n (x ∷ xs) [] e = absurd (omega arith)
count_from-overwrites n (x ∷ xs) (y ∷ ys) e =
    ap (◌∷◌ n) (count_from-overwrites (suc n) xs ys (omega arith))

pub count_from-append :
    (n : ℕ) (xs ys : List ℕ)
    → count_from n (xs ++ ys) ≡ count_from n xs ++ count_from (n + length xs) ys
count_from-append n [] ys = let same : n + 0 ≡ n = omega arith in rw same refl
count_from-append n (x ∷ xs) ys =
    let next : n + suc (length xs) ≡ suc n + length xs = omega arith in
    rw next (ap (◌∷◌ n) (count_from-append (suc n) xs ys))
