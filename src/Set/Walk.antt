-- ===== src/Set/Walk.antt =====
-- The free queues of src/set.rs from the one that the handle empties to the one that the set fills.
use oddio.Base.{
  ℕ, ◌+◌, ◌<◌, ◌≤◌, ◌≡◌, sym, subst, ◌∙◌, false, some, List, [], ◌∷◌, ◌++◌, arith, get_elem?,
}
use oddio.Spsc.{Channel}
use oddio.Spsc.Window.{Holds}
use oddio.Set.{Free}
use oddio.Set.Stock.{sigs}

module _ {ℓ} {T : Type ℓ} where
  -- From the queue `f`, with the queues `gs` next, to the queue `fs`, which `waiting` follow: the set
  -- has dropped its end of each queue before `fs`, and `n` signals are left in those.
  pub data Walk (frees : List (Channel (Free T))) : ℕ → List ℕ → ℕ → List ℕ → ℕ → Type ℓ where
    arrived : (f : ℕ) (waiting : List ℕ) → Walk frees f waiting f waiting 0
    passed :
        (f g : ℕ) (gs : List ℕ) (fs : ℕ) (waiting : List ℕ) (n : ℕ) (c : Channel (Free T))
        (xs : List (Free T))
        → get_elem? frees f ≡ some c
        → Holds c xs
        → c.sender ≡ false
        → f < g
        → Walk frees g gs fs waiting n
        → Walk frees f (g ∷ gs) fs waiting (sigs xs + n)

  pub Walk-le :
      {frees : List (Channel (Free T))} {f fs n : ℕ} {gs waiting : List ℕ}
      → Walk frees f gs fs waiting n
      → f ≤ fs
  Walk-le (arrived f waiting) = omega arith
  Walk-le (passed f g gs fs waiting n c xs at h shut lt more) = omega (arith, Walk-le more)

  -- The queues from `f` to `fs`, without `fs`, are the same.
  abbrev pub SameBetween : List (Channel (Free T)) → List (Channel (Free T)) → ℕ → ℕ → Type ℓ
  SameBetween frees frees' f fs = (k : ℕ) → f ≤ k → k < fs → get_elem? frees' k ≡ get_elem? frees k

  pub Walk-same :
      {frees frees' : List (Channel (Free T))} {f fs n : ℕ} {gs waiting : List ℕ}
      → SameBetween frees frees' f fs
      → Walk frees f gs fs waiting n
      → Walk frees' f gs fs waiting n
  Walk-same same (arrived f waiting) = arrived f waiting
  Walk-same same (passed f g gs fs waiting n c xs at h shut lt more) =
      passed f g gs fs waiting n c xs (same f (omega arith) (omega (arith, Walk-le more)) ∙ at) h
        shut lt (Walk-same (λ k p. same k (omega arith)) more)

  -- The handle adds a queue at the end.
  pub Walk-add :
      {frees : List (Channel (Free T))} {f fs n : ℕ} {gs waiting : List ℕ} (id : ℕ)
      → Walk frees f gs fs waiting n
      → Walk frees f (gs ++ id ∷ []) fs (waiting ++ id ∷ []) n
  Walk-add id (arrived f waiting) = arrived f (waiting ++ id ∷ [])
  Walk-add id (passed f g gs fs waiting n c xs at h shut lt more) =
      passed f g (gs ++ id ∷ []) fs (waiting ++ id ∷ []) n c xs at h shut lt (Walk-add id more)

  -- The set drops its end of `fs`, in which it left `xs`, and goes over to `id`.
  pub Walk-switch :
      {frees frees' : List (Channel (Free T))} {f fs n : ℕ} {gs waiting : List ℕ} (id : ℕ)
      (later : List ℕ) (d : Channel (Free T)) (ys : List (Free T))
      → waiting ≡ id ∷ later
      → SameBetween frees frees' f fs
      → get_elem? frees' fs ≡ some d
      → Holds d ys
      → d.sender ≡ false
      → fs < id
      → Walk frees f gs fs waiting n
      → Walk frees' f gs id later (n + sigs ys)
  Walk-switch {frees' = frees'} id later d ys e same at h shut lt (arrived f waiting) =
      subst (λ gs. Walk frees' f gs id later (0 + sigs ys)) (sym e)
        (subst (Walk frees' f (id ∷ later) id later) (omega arith)
          (passed f id later id later 0 d ys at h shut lt (arrived id later)))
  Walk-switch {frees' = frees'} id later d ys e same at h shut lt
        (passed f g gs fs waiting n c xs at' h' shut' lt' more) =
      subst (Walk frees' f (g ∷ gs) id later) (omega arith) (
        passed f g gs id later (n + sigs ys) c xs
          (same f (omega arith) (omega (arith, Walk-le more)) ∙ at') h' shut' lt'
          (Walk-switch id later d ys e (λ k p. same k (omega arith)) at h shut lt more))
