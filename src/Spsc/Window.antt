-- ===== src/Spsc/Window.antt =====
-- The items of a channel: the initialised slots from its read index on, going round the ring.
use oddio.Base.{
  ℕ, zero, suc, ◌+◌, ◌%◌, ◌≤◌, ◌<◌, ◌≡◌, ap, sym, subst, get_elem?, ◌∙◌, ◌≢◌, Option, none, some,
  List, [], ◌∷◌, ◌++◌, arith, length, get_or, get_or-set_self, get_or-set_ne, set, drop, mod_once,
  max_len,
}
use oddio.Spsc.{Channel, size}

module _ {ℓ} {A : Type ℓ} where
  -- The slots from `h` on, going round at `n`, hold `xs`.
  abbrev pub Window : ℕ → List (Option A) → ℕ → List A → Type ℓ
  Window n slots h [] = Unit
  Window n slots h (x ∷ xs) = (get_or slots h none ≡ some x) × Window n slots ((h + 1) % n) xs

  -- The channel is well formed, and `xs` are the items sent and not yet taken, oldest first.
  pub record Holds (c : Channel A) (xs : List A) : Type ℓ where
    pub small : size c ≤ max_len
    pub read_in : c.read < size c
    pub room : length xs < size c
    pub write_at : c.write ≡ (c.read + length xs) % size c
    pub seen : c.len ≤ length xs
    pub held : Window (size c) c.slots c.read xs

-- Fewer than `n` steps round a ring of `n` slots do not come back to the start.
add-mod-ne : (n h k : ℕ) → h < n → suc k < n → (h + suc k) % n ≢ h
add-mod-ne n h k p q = omega (arith, mod_once (h + suc k) n)

pub step_index : (n h k : ℕ) → h < n → k < n → (h + suc k) % n ≡ ((h + 1) % n + k) % n
step_index n h k p q =
    omega (arith, mod_once (h + suc k) n, mod_once (h + 1) n, mod_once ((h + 1) % n + k) n)

pub mod-lt : (n h : ℕ) → h < n → (h + 1) % n < n
mod-lt n h p = omega (arith, mod_once (h + 1) n)

module _ {ℓ} {A : Type ℓ} where
  -- Writing just past a window extends it by that item.
  pub Window-set :
      (n : ℕ) (slots : List (Option A)) (h w : ℕ) (xs : List A) (x : A)
      → n ≤ length slots
      → h < n
      → length xs < n
      → w ≡ (h + length xs) % n
      → Window n slots h xs
      → Window n (set slots w (some x)) h (xs ++ x ∷ [])
  Window-set n slots h w [] x s p q e v =
      let at : w ≡ h = omega (arith, mod_once (h + 0) n) in
      (
        ap (λ i. get_or (set slots i (some x)) h none) at
            ∙ get_or-set_self slots h (some x) none (omega arith),
        tt,
      )
  Window-set n slots h w (y ∷ ys) x s p q e (v, vs) = (
    get_or-set_ne slots w h (some x) none (λ same. add-mod-ne n h (length ys) p q (sym e ∙ same))
        ∙ v,
    Window-set n slots ((h + 1) % n) w ys x s (mod-lt n h p) (omega arith)
        (e ∙ step_index n h (length ys) p (omega arith)) vs,
  )

  -- Taking the oldest item leaves the window of the others.
  pub Window-drop :
      (n : ℕ) (slots : List (Option A)) (h k : ℕ) (xs : List A)
      → h < n
      → length xs < n
      → k ≤ length xs
      → Window n slots h xs
      → Window n slots ((h + k) % n) (drop k xs)
  Window-drop n slots h zero xs p q r v =
      subst (λ i. Window n slots i xs) (sym (omega (arith, mod_once (h + 0) n))) v
  Window-drop n slots h (suc k) [] p q r v = absurd (omega arith)
  Window-drop n slots h (suc k) (x ∷ xs) p q r (v, vs) =
      subst (λ i. Window n slots i (drop k xs)) (sym (step_index n h k p (omega arith)))
        (Window-drop n slots ((h + 1) % n) k xs (mod-lt n h p) (omega arith) (omega arith) vs)

  -- The item at index `i` of a window stands at slot `(h + i) % n`.
  pub Window-get :
      (n : ℕ) (slots : List (Option A)) (h i : ℕ) (xs : List A)
      → h < n
      → length xs < n
      → i < length xs
      → Window n slots h xs
      → get_or slots ((h + i) % n) none ≡ get_elem? xs i
  Window-get n slots h i [] p q r v = absurd (omega arith)
  Window-get n slots h zero (x ∷ xs) p q r (v, vs) =
      ap (λ j. get_or slots j none) (omega (arith, mod_once (h + 0) n)) ∙ v
  Window-get n slots h (suc i) (x ∷ xs) p q r (v, vs) =
      ap (λ j. get_or slots j none) (step_index n h i p (omega arith))
      ∙ Window-get n slots ((h + 1) % n) i xs (mod-lt n h p) (omega arith) (omega arith) vs

  pub Window-prefix :
      (n : ℕ) (slots : List (Option A)) (h : ℕ) (xs ys : List A)
      → Window n slots h (xs ++ ys)
      → Window n slots h xs
  Window-prefix n slots h [] ys v = tt
  Window-prefix n slots h (x ∷ xs) ys (v, vs) = (v, Window-prefix n slots ((h + 1) % n) xs ys vs)

  pub Window-snoc :
      (n : ℕ) (slots : List (Option A)) (h : ℕ) (xs : List A) (x : A)
      → h < n
      → length xs < n
      → Window n slots h xs
      → get_or slots ((h + length xs) % n) none ≡ some x
      → Window n slots h (xs ++ x ∷ [])
  Window-snoc n slots h [] x p q v e =
      (ap (λ i. get_or slots i none) (omega (arith, mod_once (h + 0) n)) ∙ e, tt)
  Window-snoc n slots h (y ∷ ys) x p q (v, vs) e = (
    v,
    Window-snoc n slots ((h + 1) % n) ys x (mod-lt n h p) (omega arith) vs
        (ap (λ i. get_or slots i none) (sym (step_index n h (length ys) p (omega arith))) ∙ e),
  )
