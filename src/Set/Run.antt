-- ===== src/Set/Run.antt =====
-- The handle and the set of src/set.rs, from their creation on.
use oddio.Base.{
  ℕ, ◌+◌, ◌*◌, ◌<◌, ◌≤◌, ◌≡◌, refl, ap, sym, subst, ◌∙◌, ◌⊎◌, inl, inr, Option, none, some,
  some-injective, List, [], ◌∷◌, ◌++◌, arith, length, ◌>>=◌,
}
use oddio.Set.{World, Msg, new}
use oddio.Set.Stock.{inserted}
use oddio.Set.Sound.{Sound, Sound-more, new-Sound}
use oddio.Set.Bag.{Bag, Call, insert, update, remove, nothing, promise, promises, call, calls}
use oddio.Set.Handle.Grow.{max_calls, counted-le}
use oddio.Set.Handle.Renew.{insert-Sound}
use oddio.Set.Inner.Drain.{update-Drained}
use oddio.Set.Inner.Leave.{swap_remove-cases, remove-none, remove-Left}

module _ {ℓ} {T : Type ℓ} where
  -- The world is sound and stands for the bag.
  pub record Models (w : World T) (b : Bag T) (n : ℕ) : Type ℓ where
    pub ms : List (Msg T)
    pub sound : Sound w (n + n) n ms
    pub items_eq : w.signals.items ≡ b.items
    pub pending_eq : inserted ms ≡ b.pending

  -- Both fail, or both return, and what the code returns stands for what is promised.
  abbrev pub Answers : Option (World T) → Option (Bag T) → ℕ → Type ℓ
  Answers got want n =
      ((got ≡ none) × (want ≡ none))
      ⊎ ((w : World T) × (b : Bag T) × (got ≡ some w) × (want ≡ some b) × Models w b n)

  later :
      {w : World T} {n : ℕ} {ms : List (Msg T)}
      → Sound w (n + n) n ms
      → Sound w (n + 1 + (n + 1)) (n + 1) ms
  later {n = n} = Sound-more (n + 1 + (n + 1)) (n + 1) (omega arith) (omega arith)

  call-Answers :
      (fuel : ℕ) (w : World T) (b : Bag T) (n : ℕ) (c : Call T)
      → Models w b n
      → n < max_calls
      → n * 4 < fuel
      → Answers (call fuel w c) (promise b c) (n + 1)
  unfolding call promise
  call-Answers fuel w b n (insert x) m small p =
      let k = insert-Sound w x (n + n) n m.ms m.sound (omega arith) small in
      let h = k.handled in
      inr (
        h.world,
        _,
        h.ran,
        refl,
        record {
          ms = k.more;
          sound = subst (λ z. Sound h.world z (n + 1) k.more) (omega arith) h.sound;
          items_eq = ap (λ t. t.items) h.signals ∙ m.items_eq;
          pending_eq = k.news ∙ ap (λ z. z ++ x ∷ []) m.pending_eq;
        },
      )
  call-Answers fuel w b n update m small p =
      let d = update-Drained fuel w (n + n) n m.ms m.sound (omega arith) in
      inr (
        d.world,
        _,
        d.ran,
        refl,
        record {
          ms = [];
          sound = later d.sound;
          items_eq =
              d.items_eq
              ∙ ap (λ z. z ++ inserted m.ms) m.items_eq
              ∙ ap (λ z. b.items ++ z) m.pending_eq;
          pending_eq = refl;
        },
      )
  call-Answers fuel w b n (remove i) m small p = elim (swap_remove-cases w.signals.items i) [
    | inl e ↦ inl (remove-none w i e, rw (← m.items_eq, e) refl)
    | inr (x, rest, e, less) ↦
        let k = remove-Left w (n + n) n m.ms i x rest m.sound e less in
        inr (
          k.world,
          record b { items = rest },
          k.ran,
          rw (← m.items_eq, e) refl,
          record {
            ms = m.ms;
            sound = later k.sound;
            items_eq = k.items_eq;
            pending_eq = m.pending_eq;
          },
        )
  ]

  calls-Answers :
      (fuel : ℕ) (cs : List (Call T)) (w : World T) (b : Bag T) (n : ℕ)
      → Models w b n
      → n + length cs ≤ max_calls
      → (n + length cs) * 4 < fuel
      → Answers (calls fuel w cs) (promises b cs) (n + length cs)
  unfolding calls promises
  calls-Answers fuel [] w b n m small p = inr (w, b, refl, refl, subst (Models w b) (omega arith) m)
  calls-Answers fuel (c ∷ cs) w b n m small p =
      let all : n + 1 + length cs ≡ n + length (c ∷ cs) = omega arith in
      elim (call-Answers fuel w b n c m (omega arith) (omega arith)) [
        | inl (e, f) ↦ inl (rw e refl, rw f refl)
        | inr (w', b', e, f, m') ↦
            rw (e, f)
              (subst (Answers (calls fuel w' cs) (promises b' cs)) all
                (calls-Answers fuel cs w' b' (n + 1) m' (omega arith) (omega arith)))
      ]

  new-Models : Models new nothing 0
  unfolding new
  new-Models = record { ms = []; sound = new-Sound; items_eq = refl; pending_eq = refl }

  -- From the creation of a set on, for every sequence of calls of `insert` on the handle and `update`
  -- and `remove` on the set, at most 2^58 of them and with fuel for four messages a call: no call
  -- panics but a `remove` out of range, whatever channels and tables are reallocated on the way, and
  -- the set has the signals of the promise: those inserted before an update are appended in order by
  -- it, and a removed signal is replaced by the last.
  pub set_refines :
      (fuel : ℕ) (cs : List (Call T))
      → length cs ≤ max_calls
      → length cs * 4 < fuel
      → (calls fuel new cs >>= λ w. some w.signals.items)
        ≡ (promises nothing cs >>= λ b. some b.items)
  set_refines fuel cs small p =
      elim (calls-Answers fuel cs new nothing 0 new-Models (omega arith) (omega arith)) [
        | inl (e, f) ↦ rw (e, f) refl
        | inr (w, b, e, f, m) ↦ rw (e, f) (ap some m.items_eq)
      ]

  -- After at most 2^58 calls of `insert`, `update` and `remove` from the creation of a set on, with fuel
  -- for four messages a call, that returned: the handle counts at least the signals that are in the set
  -- or on their way there, at most as many as it has room for, and no more than there were calls; and
  -- that room is at most the initial one and twice the number of calls.
  pub set_counts :
      (fuel : ℕ) (cs : List (Call T)) (w : World T) (b : Bag T)
      → length cs ≤ max_calls
      → length cs * 4 < fuel
      → calls fuel new cs ≡ some w
      → promises nothing cs ≡ some b
      → (length b.items + length b.pending ≤ w.active_signals)
        × (w.active_signals ≤ w.signal_capacity)
        × (w.active_signals ≤ length cs)
        × (w.signal_capacity ≤ 128 + length cs * 2)
  set_counts fuel cs w b small p e f =
      elim (calls-Answers fuel cs new nothing 0 new-Models (omega arith) (omega arith)) [
        | inl (e', f') ↦ cc
        | inr (w', b', e', f', m) ↦
            let same : w' ≡ w = some-injective _ _ (sym e' ∙ e) in
            let same_bag : b' ≡ b = some-injective _ _ (sym f' ∙ f) in
            let m' =
              subst (λ z. Models z b (0 + length cs)) same
                (subst (λ z. Models w' z (0 + length cs)) same_bag m) in
            let s = m'.sound in
            let h = s.held in
            (
              omega (arith, h.counted, ap length m'.items_eq, ap length m'.pending_eq),
              counted-le w _ _ m'.ms s,
              omega (arith, s.few),
              omega (arith, s.bounded),
            )
      ]
