-- ===== src/Set/Held.antt =====
-- Where the signals are that the handle of src/set.rs counts, and why they fit.
use oddio.Base.{
  ℕ, ◌+◌, ◌<◌, ◌≤◌, ◌≡◌, ◌∙◌, true, some, List, [], arith, length, get_elem?, lt-of-get_elem?,
}
use oddio.Spsc.{Channel, size}
use oddio.Spsc.Window.{Holds}
use oddio.Set.{Table, Msg, Free}
use oddio.Set.Stock.{sigs, inserted, Fits, settled, room, larger, Fits-mono, Fits-same}

module _ {ℓ} {T : Type ℓ} where
  -- The set with the table `signals` fills the free queue `fs`, whose sender it has not dropped; `n`
  -- signals are left in the queues before that, and the messages `ms` are under way.
  pub record Held (frees : List (Channel (Free T))) (fs : ℕ) (signals : Table T)
      (capacity active : ℕ) (ms : List (Msg T)) (n : ℕ) : Type ℓ where
    pub queue : Channel (Free T)
    pub freed : List (Free T)
    pub at : get_elem? frees fs ≡ some queue
    pub holds : Holds queue freed
    pub is_open : queue.sender ≡ true
    pub extra : ℕ
    pub slots : size queue ≡ signals.capacity + 1 + extra
    pub few : length freed ≤ sigs freed + extra
    pub fits : Fits frees fs (n + sigs freed + length signals.items) signals.capacity ms capacity
    pub within : n + sigs freed + length signals.items ≤ signals.capacity
    pub counted : active ≡ n + sigs freed + length signals.items + length (inserted ms)

  -- Fewer signals are left in the queues before `fs`, and the others are the same.
  pub Held-fewer :
      {frees : List (Channel (Free T))} {fs : ℕ} {signals : Table T} {capacity active n : ℕ}
      {ms : List (Msg T)} (frees' : List (Channel (Free T))) (active' n' : ℕ)
      → ((k : ℕ) → fs ≤ k → k < length frees → get_elem? frees' k ≡ get_elem? frees k)
      → active' + n ≡ active + n'
      → n' ≤ n
      → Held frees fs signals capacity active ms n
      → Held frees' fs signals capacity active' ms n'
  Held-fewer {frees} {fs} {signals} {n = n} frees' active' n' same e less h =
      let fits =
        Fits-mono (n' + sigs h.freed + length signals.items) (omega arith)
          (Fits-same {frees' = frees'} (λ k p q. same k (omega arith) q) h.fits) in
      record {
        queue = h.queue;
        freed = h.freed;
        at = same fs (omega arith) (lt-of-get_elem? frees fs h.queue h.at) ∙ h.at;
        holds = h.holds;
        is_open = h.is_open;
        extra = h.extra;
        slots = h.slots;
        few = h.few;
        fits = fits;
        within = omega (arith, h.within);
        counted = omega (arith, h.counted);
      }

  -- The current free queue is emptied, and the ones before it are.
  pub Held-emptied :
      {frees : List (Channel (Free T))} {fs : ℕ} {signals : Table T} {capacity active : ℕ}
      {ms : List (Msg T)} (frees' : List (Channel (Free T))) (active' : ℕ) (q : Channel (Free T))
      (h : Held frees fs signals capacity active ms 0)
      → ((k : ℕ) → fs < k → get_elem? frees' k ≡ get_elem? frees k)
      → get_elem? frees' fs ≡ some q
      → Holds q []
      → q.sender ≡ h.queue.sender
      → size q ≡ size h.queue
      → active' + sigs h.freed ≡ active
      → Held frees' fs signals capacity active' ms 0
  Held-emptied {frees} {fs} {signals} frees' active' q h same at holds sender slots e = record {
    queue = q;
    freed = [];
    at = at;
    holds = holds;
    is_open = sender ∙ h.is_open;
    extra = h.extra;
    slots = slots ∙ h.slots;
    few = omega arith;
    fits =
        Fits-mono (0 + 0 + length signals.items) (omega arith)
          (Fits-same {frees' = frees'} (λ k p q. same k p) h.fits);
    within = omega (arith, h.within);
    counted = omega (arith, h.counted, e);
  }

  -- What the set has and will have fits the capacity that the handle counts on.
  pub Fits-final :
      {frees : List (Channel (Free T))} {fs held cap final : ℕ} {ms : List (Msg T)}
      → held ≤ cap
      → Fits frees fs held cap ms final
      → held + length (inserted ms) ≤ final
  Fits-final p (settled fs held cap) = omega arith
  Fits-final p (room fs held cap x ms final lt more) = omega (arith, Fits-final (omega arith) more)
  Fits-final p (larger fs held cap t id ms final lt fresh le more) = Fits-final le more
