-- ===== src/Set/Sweep/Order.antt =====
-- The loop over a set meets every signal once, although `remove` moves signals while it runs.
use mathlib.Core.List.{Perm, perm_middle, reverse, reverse-cons, reverse-reverse}
use mathlib.Core.List.Perm
use mathlib.Core.Option.{some-ne-none}
use oddio.Base.{
  ℕ, suc, ◌+◌, ◌<◌, ◌≡◌, refl, ap, sym, subst, ◌∙◌, true, false, Bool-cases, inl, inr, Option, some,
  Option-cases, List, [], ◌∷◌, ◌++◌, append-nil, append_assoc, arith, length, length-append, map,
  get_elem?, set, if◌then◌else◌, ◌>>=◌, some-injective,
}
use oddio.Set.{World, Free, signal}
use oddio.Set.Inner.{remove}
use oddio.Set.Inner.Remove.{FreeQueue, remove_lem, set-middle, get_elem?-middle}
use oddio.Set.Sweep.{Visit, sweep, sweep_all}

-- The signals that stayed, the ones that left in the order in which they did, and the state.
pub record Outcome {ℓ κ} (T : Type ℓ) (R : Type κ) : Type (ℓ ⊔ κ) where
  pub kept : List T
  pub gone : List T
  pub state : R

module _ {ℓ} {T : Type ℓ} where
  pub length-reverse : (xs : List T) → length (reverse xs) ≡ length xs
  length-reverse [] = refl
  length-reverse (x ∷ xs) =
      rw (reverse-cons x xs, length-append (reverse xs) (x ∷ [])) (omega (arith, length-reverse xs))

  split-last : (x : T) (xs tail : List T) → reverse (x ∷ xs) ++ tail ≡ reverse xs ++ x ∷ tail
  split-last x xs tail = rw (reverse-cons x xs) (append_assoc (reverse xs) (x ∷ []) tail)

module _ {ℓ κ} {T : Type ℓ} {R : Type κ} (visit : R → T → Option (Visit T R)) where
  abbrev record_visit : Visit T R → Outcome T R → Outcome T R
  record_visit v o =
      if v.stays then record o { kept = v.item ∷ o.kept } else record o { gone = v.item ∷ o.gone }

  -- What the loop means: one visit for each signal of a list, in order.
  unfoldable pub visits : List T → R → Option (Outcome T R)
  visits [] r = some (record { kept = []; gone = []; state = r })
  visits (x ∷ xs) r = visit r x >>= λ v. visits xs v.state >>= λ o. some (record_visit v o)

  record_visit_stays :
      (v : Visit T R) (o : Outcome T R)
      → v.stays ≡ true
      → ((record_visit v o).kept ≡ v.item ∷ o.kept)
        × ((record_visit v o).gone ≡ o.gone)
        × ((record_visit v o).state ≡ o.state)
  record_visit_stays v o h = (rw h refl, rw h refl, rw h refl)

  record_visit_leaves :
      (v : Visit T R) (o : Outcome T R)
      → v.stays ≡ false
      → ((record_visit v o).kept ≡ o.kept)
        × ((record_visit v o).gone ≡ v.item ∷ o.gone)
        × ((record_visit v o).state ≡ o.state)
  record_visit_leaves v o h = (rw h refl, rw h refl, rw h refl)

  visits_cons :
      (x : T) (xs : List T) (r : R) (o : Outcome T R)
      → visits (x ∷ xs) r ≡ some o
      → (v : Visit T R) × (visit r x ≡ some v)
        × (o2 : Outcome T R) × (visits xs v.state ≡ some o2)
        × (record_visit v o2 ≡ o)
  unfolding visits
  visits_cons x xs r o h = elim (Option-cases (visit r x)) [
    | inl e ↦ absurd (some-ne-none o (sym h ∙ rw e refl))
    | inr (v, e) ↦ elim (Option-cases (visits xs v.state)) [
      | inl e2 ↦ absurd (some-ne-none o (sym h ∙ rw (e, e2) refl))
      | inr (o2, e2) ↦ (v, e, o2, e2, some-injective _ _ (sym (rw (e, e2) refl) ∙ h))
    ]
  ]

  Swept : ℕ → ℕ → World T → R → List (Free T) → List T → Outcome T R → Type (ℓ ⊔ κ)
  Swept k n w r fs tail o =
      (w' : World T) × (sweep visit k w r ≡ some (w', o.state))
      × Perm w'.signals.items (o.kept ++ tail)
      × FreeQueue w' n (fs ++ map signal o.gone)

  -- the set after the visit of the signal at `i`
  abbrev put : World T → ℕ → T → World T
  put w i x = record w { signals = record w.signals { items = set w.signals.items i x } }

  step_stays :
      (w : World T) (r : R) (n i : ℕ) (fs : List (Free T)) (x : T) (tail : List T) (v : Visit T R)
      (o : Outcome T R)
      → get_elem? w.signals.items i ≡ some x
      → visit r x ≡ some v
      → v.stays ≡ true
      → Swept i n (put w i v.item) v.state fs (v.item ∷ tail) o
      → Swept (suc i) n w r fs tail (record_visit v o)
  unfolding Swept sweep
  step_stays w r n i fs x tail v o at ev b (w', ran, perm, held) =
      let (ek, eg, es) = record_visit_stays v o b in
      (
        w',
        rw (at, ev, b, ran) refl,
        subst (λ z. Perm w'.signals.items (z ++ tail)) (sym ek)
            (Perm.trans perm (perm_middle o.kept tail)),
        subst (λ z. FreeQueue w' n (fs ++ map signal z)) (sym eg) held,
      )

  step_leaves :
      (w w2 : World T) (r : R) (n i : ℕ) (fs : List (Free T)) (x : T) (tail tail' : List T)
      (v : Visit T R) (o : Outcome T R)
      → get_elem? w.signals.items i ≡ some x
      → visit r x ≡ some v
      → v.stays ≡ false
      → remove (put w i v.item) i ≡ some w2
      → Perm tail' tail
      → Swept i n w2 v.state (fs ++ signal v.item ∷ []) tail' o
      → Swept (suc i) n w r fs tail (record_visit v o)
  unfolding Swept sweep
  step_leaves w w2 r n i fs x tail tail' v o at ev b gone_at behind (w', ran, perm, held) =
      let (ek, eg, es) = record_visit_leaves v o b in
      let order = append_assoc fs (signal v.item ∷ []) (map signal o.gone) in
      (
        w',
        rw (at, ev, b, gone_at, ran) refl,
        subst (λ z. Perm w'.signals.items (z ++ tail)) (sym ek)
            (Perm.trans perm (Perm.append_left o.kept behind)),
        subst (λ z. FreeQueue w' n (fs ++ map signal z)) (sym eg)
            (subst (FreeQueue w' n) order held),
      )

  -- `sweep_rest` for one list
  abbrev Sweeps : List T → Type (ℓ ⊔ κ)
  Sweeps rest =
      (w : World T) (r : R) (n : ℕ) (fs : List (Free T)) (tail : List T) (o : Outcome T R)
      → w.signals.items ≡ reverse rest ++ tail
      → FreeQueue w n fs
      → length fs + length o.gone < n
      → visits rest r ≡ some o
      → Swept (length rest) n w r fs tail o

  sweep_cons :
      (x : T) (xs : List T) (w : World T) (r : R) (n : ℕ) (fs : List (Free T)) (tail : List T)
      (v : Visit T R) (o : Outcome T R)
      → Sweeps xs
      → get_elem? w.signals.items (length xs) ≡ some x
      → visit r x ≡ some v
      → set w.signals.items (length xs) v.item ≡ reverse xs ++ v.item ∷ tail
      → FreeQueue (put w (length xs) v.item) n fs
      → length fs + length (record_visit v o).gone < n
      → visits xs v.state ≡ some o
      → Swept (suc (length xs)) n w r fs tail (record_visit v o)
  sweep_cons x xs w r n fs tail v o ih at ev after q fits e2 = elim (Bool-cases v.stays) [
    | inl b ↦
        let room = subst (λ z. length fs + length z < n) (record_visit_stays v o b).1 fits in
        step_stays w r n (length xs) fs x tail v o at ev b
          (ih (put w (length xs) v.item) v.state n fs (v.item ∷ tail) o after q room e2)
    | inr b ↦
        let more = subst (λ z. length fs + length z < n) (record_visit_leaves v o b).1 fits in
        let (tail', w2, removed, left, behind, q2) =
          remove_lem (put w (length xs) v.item) n fs (reverse xs) v.item tail after q
            (omega arith) in
        let gone_at =
          subst (λ k. remove (put w (length xs) v.item) k ≡ some w2) (length-reverse xs) removed in
        let count = length-append fs (signal v.item ∷ []) in
        step_leaves w w2 r n (length xs) fs x tail tail' v o at ev b gone_at behind
          (ih w2 v.state n (fs ++ signal v.item ∷ []) tail' o left q2 (omega (arith, count)) e2)
  ]

  -- The signals not yet met, last first, then those that have stayed in some order.
  sweep_rest : (rest : List T) → Sweeps rest
  unfolding Swept sweep visits
  sweep_rest [] w r n fs tail o e q room v =
      let done = some-injective _ _ v in
      (
        w,
        ap (λ z. some (w, z.state)) done,
        subst (λ z. Perm w.signals.items (z.kept ++ tail)) done (rw e (Perm.refl tail)),
        subst (λ z. FreeQueue w n (fs ++ map signal z.gone)) done (rw append-nil q),
      )
  sweep_rest (x ∷ xs) w r n fs tail o e q room h =
      let (v, ev, o2, e2, done) = visits_cons x xs r o h in
      let there = e ∙ split-last x xs tail in
      let at : get_elem? w.signals.items (length xs) ≡ some x =
        rw (there, ← length-reverse xs) (get_elem?-middle (reverse xs) x tail) in
      let after : set w.signals.items (length xs) v.item ≡ reverse xs ++ v.item ∷ tail =
        rw (there, ← length-reverse xs) (set-middle (reverse xs) x v.item tail) in
      let q1 : FreeQueue (put w (length xs) v.item) n fs = record {
        chan = q.chan;
        at = q.at;
        holds = q.holds;
        slots = q.slots;
      } in
      let fits = subst (λ z. length fs + length z.gone < n) (sym done) room in
      subst (Swept (suc (length xs)) n w r fs tail) done
        (sweep_cons x xs w r n fs tail v o2 (sweep_rest xs) at ev after q1 fits e2)

  -- The loop visits every signal of the set exactly once, from the last to the first, whatever the
  -- visits decide; the signals that stay are those of the visits, in some order, and those that
  -- leave are sent to the free queue in the order in which they left, if it has room for them.
  pub sweep_all_lem :
      (w : World T) (r : R) (n : ℕ) (fs : List (Free T)) (o : Outcome T R)
      → FreeQueue w n fs
      → visits (reverse w.signals.items) r ≡ some o
      → length fs + length o.gone < n
      → (w' : World T) × (sweep_all visit w r ≡ some (w', o.state))
        × Perm w'.signals.items o.kept
        × FreeQueue w' n (fs ++ map signal o.gone)
  unfolding Swept sweep_all
  sweep_all_lem w r n fs o q h room =
      let xs = w.signals.items in
      let all : w.signals.items ≡ reverse (reverse xs) ++ [] =
        sym (rw (append-nil, reverse-reverse xs) refl) in
      let (w', ran, perm, held) = sweep_rest (reverse xs) w r n fs [] o all q room h in
      (
        w',
        subst (λ k. sweep visit k w r ≡ some (w', o.state)) (length-reverse xs) ran,
        subst (Perm w'.signals.items) (append-nil _) perm,
        held,
      )
