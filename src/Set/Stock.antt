-- ===== src/Set/Stock.antt =====
-- The signals that the handle of src/set.rs still counts: those of the set, those in free queues that
-- it has not emptied, and those in messages under way; and the capacities that must hold them.
use oddio.Base.{
  ℕ, suc, ◌+◌, ◌<◌, ◌≤◌, ◌≡◌, refl, ap, ◌∙◌, true, some, List, [], ◌∷◌, ◌++◌, arith, length,
  get_elem?, lt-of-get_elem?,
}
use oddio.Spsc.{Channel, size}
use oddio.Spsc.Window.{Holds}
use oddio.Set.{Table, Msg, realloc_channel, realloc_signals, insert, Free, table, signal}
use oddio.Set.Chain.{last_of}

module _ {ℓ} {T : Type ℓ} where
  -- the signals in a free queue
  abbrev pub sigs : List (Free T) → ℕ
  sigs [] = 0
  sigs (table t ∷ xs) = sigs xs
  sigs (signal x ∷ xs) = suc (sigs xs)

  -- the signals in messages
  abbrev pub inserted : List (Msg T) → List T
  inserted [] = []
  inserted (realloc_channel i ∷ ms) = inserted ms
  inserted (realloc_signals t i ∷ ms) = inserted ms
  inserted (insert x ∷ ms) = x ∷ inserted ms

  -- the free queues in messages
  abbrev pub reallocs : List (Msg T) → List ℕ
  reallocs [] = []
  reallocs (realloc_channel i ∷ ms) = reallocs ms
  reallocs (realloc_signals t i ∷ ms) = i ∷ reallocs ms
  reallocs (insert x ∷ ms) = reallocs ms

  pub sigs-append : (xs ys : List (Free T)) → sigs (xs ++ ys) ≡ sigs xs + sigs ys
  sigs-append [] ys = omega arith
  sigs-append (table t ∷ xs) ys = sigs-append xs ys
  sigs-append (signal x ∷ xs) ys = omega (arith, sigs-append xs ys)

  pub inserted-append : (xs ys : List (Msg T)) → inserted (xs ++ ys) ≡ inserted xs ++ inserted ys
  inserted-append [] ys = refl
  inserted-append (realloc_channel i ∷ xs) ys = inserted-append xs ys
  inserted-append (realloc_signals t i ∷ xs) ys = inserted-append xs ys
  inserted-append (insert x ∷ xs) ys = ap (◌∷◌ x) (inserted-append xs ys)

  pub reallocs-append : (xs ys : List (Msg T)) → reallocs (xs ++ ys) ≡ reallocs xs ++ reallocs ys
  reallocs-append [] ys = refl
  reallocs-append (realloc_channel i ∷ xs) ys = reallocs-append xs ys
  reallocs-append (realloc_signals t i ∷ xs) ys = ap (◌∷◌ i) (reallocs-append xs ys)
  reallocs-append (insert x ∷ xs) ys = reallocs-append xs ys

  -- An empty table, and a free queue for it with a slot for the table that it replaces.
  pub record Fresh (frees : List (Channel (Free T))) (t : Table T) (id : ℕ) : Type ℓ where
    pub queue : Channel (Free T)
    pub at : get_elem? frees id ≡ some queue
    pub holds : Holds queue []
    pub is_open : queue.sender ≡ true
    pub slots : size queue ≡ t.capacity + 2
    pub empty : t.items ≡ []

  -- While the messages are handled in order, starting from `held` signals, a table of capacity `cap`
  -- and the free queue `fs`, the tables never overflow; at the end the capacity is `final`.
  pub data Fits (frees : List (Channel (Free T))) : ℕ → ℕ → ℕ → List (Msg T) → ℕ → Type ℓ where
    settled : (fs held cap : ℕ) → Fits frees fs held cap [] cap
    room :
        (fs held cap : ℕ) (x : T) (ms : List (Msg T)) (final : ℕ)
        → held < cap
        → Fits frees fs (held + 1) cap ms final
        → Fits frees fs held cap (insert x ∷ ms) final
    larger :
        (fs held cap : ℕ) (t : Table T) (id : ℕ) (ms : List (Msg T)) (final : ℕ)
        → fs < id
        → Fresh frees t id
        → held ≤ t.capacity
        → Fits frees id held t.capacity ms final
        → Fits frees fs held cap (realloc_signals t id ∷ ms) final

  pub Fits-mono :
      {frees : List (Channel (Free T))} {fs held cap final : ℕ} {ms : List (Msg T)} (fewer : ℕ)
      → fewer ≤ held
      → Fits frees fs held cap ms final
      → Fits frees fs fewer cap ms final
  Fits-mono fewer p (settled fs held cap) = settled fs fewer cap
  Fits-mono fewer p (room fs held cap x ms final lt more) =
      room fs fewer cap x ms final (omega arith) (Fits-mono (fewer + 1) (omega arith) more)
  Fits-mono fewer p (larger fs held cap t id ms final lt fresh le more) =
      larger fs fewer cap t id ms final lt fresh (omega arith) (Fits-mono fewer p more)

  -- The queues past `fs` are the same.
  abbrev pub SameAbove : List (Channel (Free T)) → List (Channel (Free T)) → ℕ → Type ℓ
  SameAbove frees frees' fs =
      (k : ℕ) → fs < k → k < length frees → get_elem? frees' k ≡ get_elem? frees k

  pub Fits-same :
      {frees frees' : List (Channel (Free T))} {fs held cap final : ℕ} {ms : List (Msg T)}
      → SameAbove frees frees' fs
      → Fits frees fs held cap ms final
      → Fits frees' fs held cap ms final
  Fits-same same (settled fs held cap) = settled fs held cap
  Fits-same same (room fs held cap x ms final lt more) =
      room fs held cap x ms final lt (Fits-same same more)
  Fits-same {frees} same (larger fs held cap t id ms final lt fresh le more) =
      larger fs held cap t id ms final lt
        (record {
          queue = fresh.queue;
          at = same id lt (lt-of-get_elem? frees id fresh.queue fresh.at) ∙ fresh.at;
          holds = fresh.holds;
          is_open = fresh.is_open;
          slots = fresh.slots;
          empty = fresh.empty;
        })
        le (Fits-same (λ k p. same k (omega arith)) more)

  pub Fits-newest :
      {frees : List (Channel (Free T))} {fs held cap final : ℕ} {ms : List (Msg T)}
      → fs < length frees
      → Fits frees fs held cap ms final
      → last_of fs (reallocs ms) < length frees
  Fits-newest p (settled fs held cap) = p
  Fits-newest p (room fs held cap x ms final lt more) = Fits-newest p more
  Fits-newest {frees} p (larger fs held cap t id ms final lt fresh le more) =
      Fits-newest (lt-of-get_elem? frees id fresh.queue fresh.at) more

  pub Fits-insert :
      {frees : List (Channel (Free T))} {fs held cap final : ℕ} {ms : List (Msg T)} (x : T)
      → held + length (inserted ms) < final
      → Fits frees fs held cap ms final
      → Fits frees fs held cap (ms ++ insert x ∷ []) final
  Fits-insert x p (settled fs held cap) =
      room fs held cap x [] cap (omega arith) (settled fs (held + 1) cap)
  Fits-insert x p (room fs held cap y ms final lt more) =
      room fs held cap y (ms ++ insert x ∷ []) final lt (Fits-insert x (omega arith) more)
  Fits-insert x p (larger fs held cap t id ms final lt fresh le more) =
      larger fs held cap t id (ms ++ insert x ∷ []) final lt fresh le (Fits-insert x p more)

  pub Fits-realloc :
      {frees : List (Channel (Free T))} {fs held cap final : ℕ} {ms : List (Msg T)} (t : Table T)
      (id : ℕ)
      → last_of fs (reallocs ms) < id
      → Fresh frees t id
      → held + length (inserted ms) ≤ t.capacity
      → Fits frees fs held cap ms final
      → Fits frees fs held cap (ms ++ realloc_signals t id ∷ []) t.capacity
  Fits-realloc t id past fresh p (settled fs held cap) =
      larger fs held cap t id [] t.capacity past fresh (omega arith) (settled id held t.capacity)
  Fits-realloc t id past fresh p (room fs held cap y ms final lt more) =
      room fs held cap y (ms ++ realloc_signals t id ∷ []) t.capacity lt
        (Fits-realloc t id past fresh (omega arith) more)
  Fits-realloc t id past fresh p (larger fs held cap u i ms final lt fresh' le more) =
      larger fs held cap u i (ms ++ realloc_signals t id ∷ []) t.capacity lt fresh' le
        (Fits-realloc t id past fresh p more)
