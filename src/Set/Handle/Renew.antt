-- ===== src/Set/Handle/Renew.antt =====
-- `SetHandle::insert` on a set that is full, and as a whole.
use oddio.Base.{
  ℕ, ◌+◌, ◌*◌, ◌<◌, ◌≤◌, ◌≡◌, refl, ap, sym, subst, ◌∙◌, inl, inr, Bool-cases, ◌==◌, List, [], ◌∷◌,
  ◌++◌, append-nil, arith, length, length-append, get_elem?-append_left, get_elem?-append_length,
  lt-of-get_elem?, ◌>>=◌, add_usize,
}
use oddio.Spsc
use oddio.Spsc.{Channel}
use oddio.Spsc.Send.{channel-Holds, size-channel}
use oddio.Set.{Table, World, Msg, Free, realloc_signals, insert as insert_msg, with_capacity}
use oddio.Set.Stock.{inserted, inserted-append, reallocs-append, Fresh, Fits-newest, Fits-realloc}
use oddio.Set.Walk.{Walk, Walk-same, Walk-add}
use oddio.Set.Route.{Routed-more}
use oddio.Set.Held.{Held, Held-fewer}
use oddio.Set.Sound.{Sound, Sound-more}
use oddio.Set.Handle.{realloc, insert, mul_usize}
use oddio.Set.Handle.Post.{send-Routed}
use oddio.Set.Handle.Grow.{max_calls, Handled, gc-Sound, counted-le, post-Sound}

module _ {ℓ} {T : Type ℓ} where
  -- a free queue for a table of capacity `cap`, as `insert` makes it
  channel-Fresh :
      (frees : List (Channel (Free T))) (cap : ℕ)
      → cap ≤ 2 * max_calls + 128
      → Fresh (frees ++ Spsc.channel (add_usize cap 1) ∷ []) (with_capacity cap) (length frees)
  unfolding Spsc.channel
  channel-Fresh frees cap small =
      let one : add_usize cap 1 ≡ cap + 1 = omega arith in
      let slots = size-channel (Free T) (add_usize cap 1) (omega (arith, one)) in
      record {
        queue = Spsc.channel (add_usize cap 1);
        at = get_elem?-append_length frees (Spsc.channel (add_usize cap 1) ∷ []);
        holds = channel-Holds {A = Free T} (add_usize cap 1) (omega (arith, one));
        is_open = refl;
        slots = omega (arith, slots, one);
        empty = refl;
      }

  -- The set gets a new free queue and an announced table of twice the capacity.
  realloc-Held :
      (frees : List (Channel (Free T))) (c : Channel (Free T)) {fs capacity active n : ℕ}
      {signals : Table T} {ms : List (Msg T)} (cap : ℕ)
      → Held frees fs signals capacity active ms n
      → Fresh (frees ++ c ∷ []) (with_capacity cap) (length frees)
      → active ≤ cap
      → Held
          (frees ++ c ∷ [])
          fs
          signals
          cap
          active
          (ms ++ realloc_signals (with_capacity cap) (length frees) ∷ [])
          n
  realloc-Held frees c {fs} {active = active} {n = n} {ms = ms} cap h fresh le =
      let msg : Msg T = realloc_signals (with_capacity cap) (length frees) in
      let kept =
        Held-fewer (frees ++ c ∷ []) active n (λ k p q. get_elem?-append_left frees (c ∷ []) k q)
          refl (omega arith) h in
      let newest = Fits-newest (lt-of-get_elem? frees fs h.queue h.at) h.fits in
      let news = inserted-append ms (msg ∷ []) ∙ append-nil (inserted ms) in
      record {
        queue = kept.queue;
        freed = kept.freed;
        at = kept.at;
        holds = kept.holds;
        is_open = kept.is_open;
        extra = kept.extra;
        slots = kept.slots;
        few = kept.few;
        fits =
            Fits-realloc (with_capacity cap) (length frees) newest fresh
              (omega (arith, kept.counted)) kept.fits;
        within = kept.within;
        counted = omega (arith, kept.counted, ap length news);
      }

  realloc-Sound :
      (w : World T) (most t : ℕ) (ms : List (Msg T))
      → Sound w most t ms
      → w.active_signals ≡ w.signal_capacity
      → most < 2 * max_calls
      → t < max_calls
      → (h : Handled w (realloc w) (most + 1) t (
          ms
          ++ realloc_signals (with_capacity (mul_usize w.signal_capacity 2)) (length w.frees) ∷ []))
        × (h.world.active_signals < h.world.signal_capacity)
  unfolding realloc
  realloc-Sound w most t ms s full small brief =
      let few = s.few in
      let nonzero = s.nonzero in
      let cap = mul_usize w.signal_capacity 2 in
      let twice : cap ≡ w.signal_capacity * 2 = omega (arith, few) in
      let c : Channel (Free T) = Spsc.channel (add_usize cap 1) in
      let id = length w.frees in
      let msg : Msg T = realloc_signals (with_capacity cap) id in
      let w1 : World T = record w { signal_capacity = cap; frees = w.frees ++ c ∷ [] } in
      let p =
        send-Routed w1 (most + 1) s.path ms msg (Routed-more (most + 1) (omega arith) s.routed)
          (omega (arith, s.waiting)) (omega arith) in
      let fresh = channel-Fresh w.frees cap (omega (arith, twice, few)) in
      let queues = reallocs-append ms (msg ∷ []) in
      let walk = Walk-add id (
        Walk-same {frees' = w.frees ++ c ∷ []}
          (λ k q r.
            get_elem?-append_left w.frees (c ∷ []) k
              (omega (arith, r, lt-of-get_elem? w.frees w.free_sender s.held.queue s.held.at)))
          s.walk) in
      (
        record {
          world = record w1 {
            msgs = p.msgs;
            sender = p.sender;
            old_senders = p.old_senders;
            next_free = w.next_free ++ id ∷ [];
          };
          ran = rw (p.ran, ◌>>=◌) refl;
          sound = record {
            path = p.path;
            left = s.left;
            routed = p.routed;
            walk =
                subst
                  (λ z.
                    Walk (w.frees ++ c ∷ []) w.free (w.next_free ++ id ∷ []) w.free_sender z s.left)
                  (sym queues) walk;
            held = realloc-Held w.frees c cap s.held fresh (omega (arith, twice, full));
            links = omega (arith, p.links, s.links);
            waiting = omega (arith, s.waiting, length-append ms (msg ∷ []));
            few = few;
            bounded = omega (arith, twice, full, few);
            nonzero = omega (arith, twice, nonzero);
          };
          signals = refl;
        },
        omega (arith, twice, full, nonzero),
      )

  -- `insert` appends to the signals under way.
  pub record Inserted (w : World T) (x : T) (most t : ℕ) (ms : List (Msg T)) : Type ℓ where
    pub more : List (Msg T)
    pub handled : Handled w (insert w x) (most + 1 + 1) (t + 1) more
    pub news : inserted more ≡ inserted ms ++ x ∷ []

  pub insert-Sound :
      (w : World T) (x : T) (most t : ℕ) (ms : List (Msg T))
      → Sound w most t ms
      → most + 1 < 2 * max_calls
      → t < max_calls
      → Inserted w x most t ms
  unfolding insert
  insert-Sound w x most t ms s small brief =
      let a = gc-Sound w most t ms s brief in
      let w1 = a.world in
      let fits = counted-le w1 most t ms a.sound in
      elim (Bool-cases (w1.active_signals == w1.signal_capacity)) [
        | inl e ↦
            let full : w1.active_signals ≡ w1.signal_capacity = ground arith in
            let (b, lt) = realloc-Sound w1 most t ms a.sound full (omega arith) brief in
            let msg : Msg T =
              realloc_signals (with_capacity (mul_usize w1.signal_capacity 2)) (length w1.frees) in
            let c = post-Sound b.world (most + 1) t (ms ++ msg ∷ []) x b.sound lt small brief in
            record {
              more = (ms ++ msg ∷ []) ++ insert_msg x ∷ [];
              handled = record {
                world = c.world;
                ran = rw (a.ran, ◌>>=◌, e, b.ran) c.ran;
                sound = c.sound;
                signals = c.signals ∙ b.signals ∙ a.signals;
              };
              news =
                  inserted-append (ms ++ msg ∷ []) (insert_msg x ∷ [])
                  ∙ ap (λ z. z ++ x ∷ [])
                      (inserted-append ms (msg ∷ []) ∙ append-nil (inserted ms));
            }
        | inr e ↦
            let lt : w1.active_signals < w1.signal_capacity = ground (arith, fits) in
            let c =
              post-Sound w1 (most + 1) t ms x
                (Sound-more (most + 1) t (omega arith) (omega arith) a.sound) lt small brief in
            record {
              more = ms ++ insert_msg x ∷ [];
              handled = record {
                world = c.world;
                ran = rw (a.ran, ◌>>=◌, e) c.ran;
                sound = c.sound;
                signals = c.signals ∙ a.signals;
              };
              news = inserted-append ms (insert_msg x ∷ []);
            }
      ]
