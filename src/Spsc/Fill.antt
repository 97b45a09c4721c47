-- ===== src/Spsc/Fill.antt =====
-- The copies of `send_from_slice`, seen as writing items one after another round the ring.
use oddio.Base.{
  ℕ, suc, ◌+◌, ◌%◌, ◌≤◌, ◌<◌, ◌≡◌, refl, ap, sym, ◌∙◌, Option, some, List, [], ◌∷◌, ◌++◌,
  append-nil, append_assoc, arith, length, length-set, length-append, set, mod_once,
}
use oddio.Spsc.{copy_to}
use oddio.Spsc.Window.{Window, Window-set, step_index, mod-lt}

module _ {ℓ} {A : Type ℓ} where
  -- Items written one after another from `w` on, going round at `n`.
  pub fill : ℕ → List (Option A) → ℕ → List A → List (Option A)
  fill n slots w [] = slots
  fill n slots w (x ∷ xs) = fill n (set slots w (some x)) ((w + 1) % n) xs

  -- A copy that stays below `n` goes as if round the ring.
  pub copy_to-eq-fill :
      (n : ℕ) (slots : List (Option A)) (w : ℕ) (xs : List A)
      → w + length xs ≤ n
      → copy_to slots w xs ≡ fill n slots (w % n) xs
  unfolding copy_to fill
  copy_to-eq-fill n slots w [] p = refl
  copy_to-eq-fill n slots w (x ∷ xs) p =
      let at : w % n ≡ w = omega (arith, mod_once w n) in
      let next : (w % n + 1) % n ≡ suc w % n = ap (λ i. i % n) (omega arith) in
      rw (next, at) (copy_to-eq-fill n (set slots w (some x)) (suc w) xs (omega arith))

  pub fill-append :
      (n : ℕ) (slots : List (Option A)) (w : ℕ) (xs ys : List A)
      → w < n
      → length xs < n
      → fill n slots w (xs ++ ys) ≡ fill n (fill n slots w xs) ((w + length xs) % n) ys
  unfolding fill
  fill-append n slots w [] ys p q = ap (λ i. fill n slots i ys) (omega (arith, mod_once (w + 0) n))
  fill-append n slots w (x ∷ xs) ys p q =
      fill-append n (set slots w (some x)) ((w + 1) % n) xs ys (mod-lt n w p) (omega arith)
      ∙ ap (λ i. fill n (fill n (set slots w (some x)) ((w + 1) % n) xs) i ys)
          (sym (step_index n w (length xs) p (omega arith)))

  pub length-fill :
      (n : ℕ) (slots : List (Option A)) (w : ℕ) (xs : List A)
      → length (fill n slots w xs) ≡ length slots
  unfolding fill
  length-fill n slots w [] = refl
  length-fill n slots w (x ∷ xs) =
      length-fill n (set slots w (some x)) ((w + 1) % n) xs ∙ length-set slots w (some x)

  -- Filling just past a window extends it by those items.
  pub Window-fill :
      (n : ℕ) (slots : List (Option A)) (h w : ℕ) (xs ys : List A)
      → n ≤ length slots
      → h < n
      → length xs + length ys < n
      → w ≡ (h + length xs) % n
      → Window n slots h xs
      → Window n (fill n slots w ys) h (xs ++ ys)
  unfolding fill
  Window-fill n slots h w xs [] s p q e v = rw append-nil v
  Window-fill n slots h w xs (y ∷ ys) s p q e v =
      let more = length-append xs (y ∷ []) in
      let more_at : (w + 1) % n ≡ (h + length (xs ++ y ∷ [])) % n = omega (
        arith,
        more,
        mod_once (h + length xs) n,
        mod_once (h + length (xs ++ y ∷ [])) n,
        mod_once (w + 1) n,
      ) in
      rw (← append_assoc xs (y ∷ []) ys) (
        Window-fill n (set slots w (some y)) h ((w + 1) % n) (xs ++ y ∷ []) ys
          (omega (arith, length-set slots w (some y))) p (omega (arith, more)) more_at
          (Window-set n slots h w xs y s p (omega arith) e v))
