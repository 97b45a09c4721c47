-- ===== src/Set/Inner/Remove.antt =====
-- `Set::remove`: the last signal takes the place of the removed one, which goes to the free queue.
use mathlib.Core.List.{Perm, perm_append_singleton}
use mathlib.Core.List.Perm
use oddio.Base.{
  ℕ, ◌+◌, ◌-◌, ◌<◌, ◌≡◌, refl, ap, ◌∙◌, ◌⊎◌, inl, inr, some, List, [], ◌∷◌, ◌++◌, append-nil,
  append_assoc, arith, length, length-append, take, get_elem?, set, get_elem?-set_self,
  lt-of-get_elem?,
}
use oddio.Spsc
use oddio.Spsc.{Channel, size, sent}
use oddio.Spsc.Window.{Holds}
use oddio.Spsc.Send.{send_lem, size-send}
use oddio.Set.{World, Free, signal}
use oddio.Set.Inner.{swap_remove, remove}

module _ {ℓ} {T : Type ℓ} where
  pub get_elem?-middle :
      (pre : List T) (x : T) (tail : List T) → get_elem? (pre ++ x ∷ tail) (length pre) ≡ some x
  get_elem?-middle [] x tail = refl
  get_elem?-middle (y ∷ pre) x tail = get_elem?-middle pre x tail

  pub set-middle :
      (pre : List T) (x y : T) (tail : List T)
      → set (pre ++ x ∷ tail) (length pre) y ≡ pre ++ y ∷ tail
  set-middle [] x y tail = refl
  set-middle (z ∷ pre) x y tail = ap (◌∷◌ z) (set-middle pre x y tail)

  take-length_append : (xs ys : List T) → take (length xs) (xs ++ ys) ≡ xs
  take-length_append [] ys = refl
  take-length_append (x ∷ xs) ys = ap (◌∷◌ x) (take-length_append xs ys)

  snoc_view : (xs : List T) → (xs ≡ []) ⊎ ((t : List T) × (l : T) × (xs ≡ t ++ l ∷ []))
  snoc_view [] = inl refl
  snoc_view (x ∷ xs) = elim (snoc_view xs) [
    | inl e ↦ inr ([], x, ap (◌∷◌ x) e)
    | inr (t, l, e) ↦ inr (x ∷ t, l, ap (◌∷◌ x) e)
  ]

  swap_remove_last :
      (pre : List T) (x : T) → swap_remove (pre ++ x ∷ []) (length pre) ≡ some (x, pre)
  unfolding swap_remove
  swap_remove_last pre x =
      let at = get_elem?-middle pre x [] in
      let last : length (pre ++ x ∷ []) - 1 ≡ length pre =
        omega (arith, length-append pre (x ∷ [])) in
      rw (last, at, set-middle pre x x [], take-length_append pre (x ∷ []))

  swap_remove_inner :
      (pre : List T) (x : T) (t : List T) (l : T)
      → swap_remove (pre ++ x ∷ (t ++ l ∷ [])) (length pre) ≡ some (x, pre ++ l ∷ t)
  unfolding swap_remove
  swap_remove_inner pre x t l =
      let at = get_elem?-middle pre x (t ++ l ∷ []) in
      let split = λ (y : T). append_assoc pre (y ∷ t) (l ∷ []) in
      let count = length-append (pre ++ x ∷ t) (l ∷ []) in
      let last : length (pre ++ x ∷ (t ++ l ∷ [])) - 1 ≡ length (pre ++ x ∷ t) =
        rw (← split x) (omega (arith, count)) in
      let last_at : get_elem? (pre ++ x ∷ (t ++ l ∷ [])) (length (pre ++ x ∷ t)) ≡ some l =
        rw (← split x) (get_elem?-middle (pre ++ x ∷ t) l []) in
      let kept : length (pre ++ x ∷ t) ≡ length (pre ++ l ∷ t) =
        omega (arith, length-append pre (x ∷ t), length-append pre (l ∷ t)) in
      rw (
        last,
        at,
        last_at,
        set-middle pre x l (t ++ l ∷ []),
        ← split l,
        kept,
        take-length_append (pre ++ l ∷ t) (l ∷ []),
      )

  -- What stands before the removed signal stays; what stands after it is only reordered.
  swap_remove_lem :
      (pre : List T) (x : T) (tail : List T)
      → (tail' : List T) × (swap_remove (pre ++ x ∷ tail) (length pre) ≡ some (x, pre ++ tail'))
        × Perm tail' tail
  swap_remove_lem pre x tail = elim (snoc_view tail) [
    | inl e ↦ ([], rw e (swap_remove_last pre x ∙ rw append-nil refl), rw e (Perm.refl []))
    | inr (t, l, e) ↦
        (l ∷ t, rw e (swap_remove_inner pre x t l), rw e (Perm.symm (perm_append_singleton l t)))
  ]

  -- The free queue of the set has `n` slots and holds `fs`.
  pub record FreeQueue (w : World T) (n : ℕ) (fs : List (Free T)) : Type ℓ where
    pub chan : Channel (Free T)
    pub at : get_elem? w.frees w.free_sender ≡ some chan
    pub holds : Holds chan fs
    pub slots : size chan ≡ n

  -- If the free queue has room for one more, `remove` at the index of a signal takes it out of the set,
  -- keeps the signals before it in place and those behind it in some order, and sends it to the free
  -- queue as its last item.
  pub remove_lem :
      (w : World T) (n : ℕ) (fs : List (Free T)) (pre : List T) (x : T) (tail : List T)
      → w.signals.items ≡ pre ++ x ∷ tail
      → FreeQueue w n fs
      → length fs + 1 < n
      → (tail' : List T) × (w' : World T) × (remove w (length pre) ≡ some w')
        × (w'.signals.items ≡ pre ++ tail')
        × Perm tail' tail
        × FreeQueue w' n (fs ++ signal x ∷ [])
  unfolding remove
  remove_lem w n fs pre x tail e q room =
      let (tail', removed, perm) = swap_remove_lem pre x tail in
      let c = q.chan in
      let fits : length fs + 1 + 0 < size c = omega (arith, q.slots) in
      let (ok, held) = (send_lem c fs (signal x) 0 q.holds (omega arith)).0 fits in
      let c' = (Spsc.send c (signal x) 0).1 in
      let w' : World T = record w {
        signals = record w.signals { items = pre ++ tail' };
        frees = set w.frees w.free_sender c';
      } in
      (
        tail',
        w',
        rw (e, removed, q.at, ok),
        refl,
        perm,
        record {
          chan = c';
          at =
              get_elem?-set_self w.frees w.free_sender c'
                (lt-of-get_elem? w.frees w.free_sender c q.at);
          holds = held;
          slots = size-send c (signal x) 0 ∙ q.slots;
        },
      )
