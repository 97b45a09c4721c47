-- ===== src/Set/Handle/Grow.antt =====
-- `SetHandle::insert` and what it calls keep the state of the handle and its set sound.
use oddio.Base.{
  ℕ, ◌+◌, ◌*◌, ◌^◌, ◌<◌, ◌≤◌, ◌≡◌, refl, ap, sym, subst, ◌∙◌, Option, some, List, [], ◌∷◌, ◌++◌,
  append-nil, arith, length, length-append, ◌>>=◌, add_usize,
}
use oddio.Set.{World, Msg, insert as insert_msg}
use oddio.Set.Stock.{inserted, reallocs, inserted-append, reallocs-append, Fits-insert}
use oddio.Set.Walk.{Walk}
use oddio.Set.Route.{Routed-more}
use oddio.Set.Held.{Fits-final}
use oddio.Set.Sound.{Sound}
use oddio.Set.Handle.{send, gc}
use oddio.Set.Handle.Post.{send-Routed}
use oddio.Set.Handle.Trim.{drop_closed-Routed}
use oddio.Set.Handle.Gather.{gc_loop-Gathered}

-- A number of calls that no program reaches.
abbrev pub max_calls : ℕ
max_calls = 2 ^ 58

module _ {ℓ} {T : Type ℓ} where
  -- The call returns, leaves the set's signals as they were, and `ms` are the messages under way.
  pub record Handled (w : World T) (got : Option (World T)) (most t : ℕ) (ms : List (Msg T))
      : Type ℓ where
    pub world : World T
    pub ran : got ≡ some world
    pub sound : Sound world most t ms
    pub signals : world.signals ≡ w.signals

  pub gc-Sound :
      (w : World T) (most t : ℕ) (ms : List (Msg T))
      → Sound w most t ms
      → t < max_calls
      → Handled w (gc w) most t ms
  unfolding gc
  gc-Sound w most t ms s small =
      let (trim, routed) = drop_closed-Routed w most s.path ms s.routed in
      let w1 : World T = record w { msgs = trim.msgs; old_senders = trim.old_senders } in
      let few = s.few in
      let g =
        gc_loop-Gathered w.frees w1 ms routed.tail (λ k p q. refl) s.walk s.held routed.tail_at
          (omega (arith, few)) in
      record {
        world = record w1 {
          frees = g.frees;
          free = g.free;
          next_free = g.next_free;
          active_signals = g.active;
        };
        ran = rw (trim.ran, ◌>>=◌) g.ran;
        sound = record {
          path = s.path;
          left = g.left;
          routed = routed;
          walk = g.walk;
          held = g.held;
          links = s.links;
          waiting = s.waiting;
          few = omega (arith, g.less, s.few);
          bounded = s.bounded;
          nonzero = s.nonzero;
        };
        signals = refl;
      }

  -- The counted signals fit.
  pub counted-le :
      (w : World T) (most t : ℕ) (ms : List (Msg T))
      → Sound w most t ms
      → w.active_signals ≤ w.signal_capacity
  counted-le w most t ms s = let h = s.held in omega (arith, h.counted, Fits-final h.within h.fits)

  pub post-Sound :
      (w : World T) (most t : ℕ) (ms : List (Msg T)) (x : T)
      → Sound w most t ms
      → w.active_signals < w.signal_capacity
      → most < 2 * max_calls
      → t < max_calls
      → Handled w
          (do
            w' ← send w (insert_msg x)
            some (record w' { active_signals = add_usize w'.active_signals 1 }))
          (most + 1)
          (t + 1)
          (ms ++ insert_msg x ∷ [])
  post-Sound w most t ms x s room_left small brief =
      let more = Routed-more (most + 1) (omega arith) s.routed in
      let p =
        send-Routed w (most + 1) s.path ms (insert_msg x) more (omega (arith, s.waiting))
          (omega arith) in
      let h = s.held in
      let few = s.few in
      let one : add_usize w.active_signals 1 ≡ w.active_signals + 1 = omega (arith, few) in
      let again : reallocs ms ≡ reallocs (ms ++ insert_msg x ∷ []) =
        sym (reallocs-append ms (insert_msg x ∷ []) ∙ rw append-nil refl) in
      let news = inserted-append ms (insert_msg x ∷ []) in
      record {
        world = record w {
          msgs = p.msgs;
          sender = p.sender;
          old_senders = p.old_senders;
          active_signals = add_usize w.active_signals 1;
        };
        ran = rw (p.ran, ◌>>=◌) refl;
        sound = record {
          path = p.path;
          left = s.left;
          routed = p.routed;
          walk = subst (λ z. Walk w.frees w.free w.next_free w.free_sender z s.left) again s.walk;
          held = record {
            queue = h.queue;
            freed = h.freed;
            at = h.at;
            holds = h.holds;
            is_open = h.is_open;
            extra = h.extra;
            slots = h.slots;
            few = h.few;
            fits = Fits-insert x (omega (arith, h.counted, room_left)) h.fits;
            within = h.within;
            counted =
                omega (arith, one, h.counted, ap length news, length-append (inserted ms) (x ∷ []));
          };
          links = omega (arith, p.links, s.links);
          waiting = omega (arith, s.waiting, length-append ms (insert_msg x ∷ []));
          few = omega (arith, one, few);
          bounded = omega (arith, s.bounded);
          nonzero = s.nonzero;
        };
        signals = refl;
      }
