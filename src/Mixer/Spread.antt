-- ===== src/Mixer/Spread.antt =====
-- No two signals of a mixer share a stop flag.
use mathlib.Core.HLevel.{¬_prop, ×_prop}
use mathlib.Core.Logic.{∥∥₁_elim}
use mathlib.Core.List.{Perm, Permᴰ}
use oddio.Base.{
  ℕ, ◌<◌, ◌≡◌, ◌≢◌, refl, ap, sym, subst, ◌∙◌, Bool, Bool-cases, inl, inr, List, [], ◌∷◌, ◌++◌, map,
  arith,
}
use oddio.Signal.{Signal}
use oddio.Mixer.{MixedSignal}
use oddio.Mixer.Live.{Apart, Flags, keep_if, played}
use oddio.Set.Sweep.Safe.{Every}

module _ {ℓ} {S : Type ℓ} where
  abbrev pub Spread : List (MixedSignal S) → Type 0
  Spread [] = Unit
  Spread (x ∷ xs) = Apart x xs × Spread xs

  Apart-prop : (x : MixedSignal S) (xs : List (MixedSignal S)) → IsProp (Apart x xs)
  Apart-prop x [] = λ a b. refl
  Apart-prop x (y ∷ ys) = ×_prop ¬_prop (Apart-prop x ys)

  Spread-prop : (xs : List (MixedSignal S)) → IsProp (Spread xs)
  Spread-prop [] = λ a b. refl
  Spread-prop (x ∷ xs) = ×_prop (Apart-prop x xs) (Spread-prop xs)

  Apart-Perm :
      {xs ys : List (MixedSignal S)} (x : MixedSignal S) → Permᴰ xs ys → Apart x xs → Apart x ys
  Apart-Perm x Permᴰ.nil a = a
  Apart-Perm x (Permᴰ.cons e d) (ne, a) = (subst (λ z. x.stop ≢ z.stop) e ne, Apart-Perm x d a)
  Apart-Perm x (Permᴰ.swap e f) (ne, (me, a)) =
      (subst (λ z. x.stop ≢ z.stop) f me, (subst (λ z. x.stop ≢ z.stop) e ne, a))
  Apart-Perm x (Permᴰ.trans d e) a = Apart-Perm x e (Apart-Perm x d a)

  Spread-Permᴰ : {xs ys : List (MixedSignal S)} → Permᴰ xs ys → Spread xs → Spread ys
  Spread-Permᴰ Permᴰ.nil s = s
  Spread-Permᴰ (Permᴰ.cons {a = x} {l₂ = ys} e d) (a, s) =
      (subst (λ z. Apart z ys) e (Apart-Perm x d a), Spread-Permᴰ d s)
  Spread-Permᴰ (Permᴰ.swap {l = l} e f) ((ne, a), (b, s)) = (
    (λ q. ne (ap (λ z. z.stop) e ∙ sym q ∙ ap (λ z. z.stop) (sym f)), subst (λ z. Apart z l) f b),
    (subst (λ z. Apart z l) e a, s),
  )
  Spread-Permᴰ (Permᴰ.trans d e) s = Spread-Permᴰ e (Spread-Permᴰ d s)

  -- The order does not matter.
  pub Spread-Perm : {xs ys : List (MixedSignal S)} → Perm xs ys → Spread xs → Spread ys
  Spread-Perm {ys = ys} p s = ∥∥₁_elim p (Spread-prop ys) (λ d. Spread-Permᴰ d s)

  Apart-snoc :
      (x y : MixedSignal S) (xs : List (MixedSignal S))
      → Apart x xs
      → x.stop ≢ y.stop
      → Apart x (xs ++ y ∷ [])
  Apart-snoc x y [] a ne = (ne, tt)
  Apart-snoc x y (z ∷ xs) (me, a) ne = (me, Apart-snoc x y xs a ne)

  -- A signal with a new flag is added.
  pub Spread-snoc :
      (n : ℕ) (xs : List (MixedSignal S)) (y : MixedSignal S)
      → Every (λ x. x.stop < n) xs
      → y.stop ≡ n
      → Spread xs
      → Spread (xs ++ y ∷ [])
  Spread-snoc n [] y h e s = (tt, tt)
  Spread-snoc n (x ∷ xs) y (p, h) e (a, s) =
      (Apart-snoc x y xs a (λ q. omega (arith, q, p, e)), Spread-snoc n xs y h e s)

  pub Spread-Flags :
      (n : ℕ) (xs : List (MixedSignal S)) → Every (λ x. x.stop < n) xs → Spread xs → Flags n xs
  Spread-Flags n [] h s = tt
  Spread-Flags n (x ∷ xs) (p, h) (a, s) = (p, a, Spread-Flags n xs h s)

  Apart-keep_if :
      (p : MixedSignal S → Bool) (x : MixedSignal S) (xs : List (MixedSignal S))
      → Apart x xs
      → Apart x (keep_if p xs)
  unfolding keep_if
  Apart-keep_if p x [] a = tt
  Apart-keep_if p x (y ∷ ys) (ne, a) = elim (Bool-cases (p y)) [
    | inl e ↦ rw (keep_if, e) (ne, Apart-keep_if p x ys a)
    | inr e ↦ rw (keep_if, e) (Apart-keep_if p x ys a)
  ]

  pub Spread-keep_if :
      (p : MixedSignal S → Bool) (xs : List (MixedSignal S)) → Spread xs → Spread (keep_if p xs)
  unfolding keep_if
  Spread-keep_if p [] s = tt
  Spread-keep_if p (x ∷ xs) (a, s) = elim (Bool-cases (p x)) [
    | inl e ↦ rw (keep_if, e) (Apart-keep_if p x xs a, Spread-keep_if p xs s)
    | inr e ↦ rw (keep_if, e) (Spread-keep_if p xs s)
  ]

module _ {ℓ} {F A : Type 0} {S : Type ℓ} (sig : Signal F A S) (interval : F) (out : List A) where
  Apart-played :
      (x y : MixedSignal S) (xs : List (MixedSignal S))
      → x.stop ≡ y.stop
      → Apart x xs
      → Apart y (map (played sig interval out) xs)
  unfolding played
  Apart-played x y [] e a = tt
  Apart-played x y (z ∷ xs) e (ne, a) = (λ q. ne (e ∙ q), Apart-played x y xs e a)

  pub Spread-played :
      (xs : List (MixedSignal S)) → Spread xs → Spread (map (played sig interval out) xs)
  unfolding played
  Spread-played [] s = tt
  Spread-played (x ∷ xs) (a, s) =
      (Apart-played x (played sig interval out x) xs refl a, Spread-played xs s)
