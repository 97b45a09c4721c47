-- ===== src/Set/Inner/Drain.antt =====
-- `SetInner::drain_msgs` handles every message that is under way, in order, and never panics.
use oddio.Base.{
  ℕ, zero, suc, ◌+◌, ◌*◌, ◌<◌, ◌≤◌, ◌≡◌, refl, ap, sym, subst, ◌∙◌, inl, inr, Option, none, some,
  List, [], ◌∷◌, ◌++◌, append_assoc, append-nil, arith, length, get_elem?, set, get_elem?-set_self,
  lt-of-get_elem?, ◌>>=◌,
}
use oddio.Spsc
use oddio.Spsc.{Channel, size, readable_len}
use oddio.Spsc.Window.{Holds}
use oddio.Spsc.Send.{readable_len-Holds}
use oddio.Spsc.Receive.{update_lem}
use oddio.Set.{World, Msg, realloc_channel}
use oddio.Set.Chain.{last, Chain-Keeps}
use oddio.Set.Stock.{inserted, inserted-append, reallocs}
use oddio.Set.Walk.{Walk}
use oddio.Set.Route.{Routed, Routed-set, Chain-Next, same-Keeps}
use oddio.Set.Held.{Held}
use oddio.Set.Sound.{Sound}
use oddio.Set.Handle.Empty.{pop-empty}
use oddio.Set.Inner.{handle_msg, drain_loop, drain_msgs, update}
use oddio.Set.Inner.Switch.{pop-seen, Seen, Seen-set, switch_lem}
use oddio.Set.Inner.Take.{handle_msg-Taken}

module _ {ℓ} {T : Type ℓ} where
  -- The set has handled all messages and has `items`.
  pub record Drained (got : Option (World T)) (most t : ℕ) (items : List T) : Type ℓ where
    pub world : World T
    pub ran : got ≡ some world
    pub sound : Sound world most t []
    pub items_eq : world.signals.items ≡ items

  loop-stops :
      (fuel : ℕ) (w : World T) (c : Channel (Msg T))
      → get_elem? w.msgs w.recv ≡ some c
      → c.len ≡ 0
      → drain_loop (suc fuel) w ≡ some (record w { msgs = set w.msgs w.recv c })
  unfolding drain_loop
  loop-stops fuel w c at e =
      let none_left = pop-empty c (ground (arith, e)) in
      let got : (Spsc.pop c).0 ≡ none = ap (λ p. p.0) none_left in
      let with_channel : Channel (Msg T) → World T = λ d. record w { msgs = set w.msgs w.recv d } in
      rw (at, ◌>>=◌, got) (ap (λ p. some (with_channel p.1)) none_left)

  loop-takes :
      (fuel : ℕ) (w w2 : World T) (c : Channel (Msg T)) (m : Msg T)
      → get_elem? w.msgs w.recv ≡ some c
      → (Spsc.pop c).0 ≡ some (some m)
      → handle_msg (record w { msgs = set w.msgs w.recv (Spsc.pop c).1 }) m ≡ some w2
      → drain_loop (suc fuel) w ≡ drain_loop fuel w2
  unfolding drain_loop
  loop-takes fuel w w2 c m at got handled = rw (at, ◌>>=◌, got, handled) refl

  -- the bounds on the handle's counters
  abbrev Limits : World T → ℕ → Type 0
  Limits w t = (w.active_signals ≤ t) × (w.signal_capacity ≤ 128 + t * 2) × (0 < w.signal_capacity)

  drain_end :
      (fuel : ℕ) (w : World T) (most t n : ℕ) (c : Channel (Msg T))
      → Routed w.msgs w.recv w.sender w.old_senders most [] []
      → Walk w.frees w.free w.next_free w.free_sender [] n
      → Held w.frees w.free_sender w.signals w.signal_capacity w.active_signals [] n
      → Limits w t
      → get_elem? w.msgs w.recv ≡ some c
      → Holds c []
      → c.len ≡ 0
      → Drained (drain_loop (suc fuel) w) most t (w.signals.items ++ [])
  drain_end fuel w most t n c r walk held (few, bounded, nonzero) at h e =
      let here = get_elem?-set_self w.msgs w.recv c (lt-of-get_elem? w.msgs w.recv c at) in
      let chain = last w.recv c [] here h in
      record {
        world = record w { msgs = set w.msgs w.recv c };
        ran = loop-stops fuel w c at e;
        sound = record {
          path = [];
          left = n;
          routed = Routed-set w.recv w.recv [] [] c c at refl (omega arith) refl chain r;
          walk = walk;
          held = held;
          links = omega arith;
          waiting = omega arith;
          few = few;
          bounded = bounded;
          nonzero = nonzero;
        };
        items_eq = sym (append-nil w.signals.items);
      }

  drain_loop-Drained :
      (fuel : ℕ) (w : World T) (most t : ℕ) (path : List ℕ) (ms : List (Msg T)) (n : ℕ)
      → Routed w.msgs w.recv w.sender w.old_senders most path ms
      → Walk w.frees w.free w.next_free w.free_sender (reallocs ms) n
      → Held w.frees w.free_sender w.signals w.signal_capacity w.active_signals ms n
      → Limits w t
      → Seen w
      → length path + length ms < fuel
      → Drained (drain_loop fuel w) most t (w.signals.items ++ inserted ms)
  unfolding handle_msg
  drain_loop-Drained zero w most t path ms n r walk held limits seen p = absurd (omega arith)
  drain_loop-Drained (suc fuel) w most t path ms n r walk held limits seen p =
      let (c, at, next) = Chain-Next r.chain in
      let items = w.signals.items in
      let all = seen c at in
      elim next [
        | inl (e, f, h) ↦
            let none_left : c.len ≡ 0 = all ∙ readable_len-Holds c [] h in
            let r' =
              subst (λ x. Routed w.msgs w.recv w.sender w.old_senders most x []) e
                (subst (Routed w.msgs w.recv w.sender w.old_senders most path) f r) in
            let walk' =
              subst (λ x. Walk w.frees w.free w.next_free w.free_sender (reallocs x) n) f walk in
            let held' =
              subst
                (λ x. Held w.frees w.free_sender w.signals w.signal_capacity w.active_signals x n) f
                held in
            subst (λ x. Drained (drain_loop (suc fuel) w) most t (items ++ inserted x)) (sym f)
              (drain_end fuel w most t n c r' walk' held' limits at h none_left)
        | inr (inl (m, own, rest, e, h, chain)) ↦
            let (got, held1, slots, len, less) = pop-seen c m own h all in
            let c1 = (Spsc.pop c).1 in
            let w1 : World T = record w { msgs = set w.msgs w.recv c1 } in
            let r1 =
              Routed-set w.recv w.recv path rest c c1 at slots less refl (chain c1 held1) r in
            let walk1 =
              subst (λ x. Walk w.frees w.free w.next_free w.free_sender (reallocs x) n) e walk in
            let held2 =
              subst
                (λ x. Held w.frees w.free_sender w.signals w.signal_capacity w.active_signals x n) e
                held in
            let k = handle_msg-Taken w1 n m rest walk1 held2 in
            let w2 : World T = record w1 {
              frees = k.frees;
              free_sender = k.free_sender;
              signals = k.signals;
            } in
            let seen1 = Seen-set w w.recv c1 (lt-of-get_elem? w.msgs w.recv c at) len in
            let d =
              drain_loop-Drained fuel w2 most t path rest k.left r1 k.walk k.held limits seen1
                (omega (arith, ap length e)) in
            let all_items =
              ap (λ x. x ++ inserted rest) k.items_eq
              ∙ append_assoc items (inserted (m ∷ [])) (inserted rest)
              ∙ ap (λ x. items ++ x) (sym (inserted-append (m ∷ []) rest) ∙ ap inserted (sym e)) in
            subst (λ o. Drained o most t (items ++ inserted ms))
              (sym (loop-takes fuel w w2 c m at got k.ran))
              (subst (Drained (drain_loop fuel w2) most t) all_items d)
        | inr (inr (j, path', e, h, lt, chain)) ↦
            let r' = subst (λ x. Routed w.msgs w.recv w.sender w.old_senders most x ms) e r in
            let (msgs, ran, r1, seen1) =
              switch_lem w most w.recv j path' ms c r' at h all lt chain in
            let got = (pop-seen c (realloc_channel j) [] h all).0 in
            let w2 : World T = record w { msgs = msgs; recv = j } in
            let d =
              drain_loop-Drained fuel w2 most t path' ms n r1 walk held limits seen1
                (omega (arith, ap length e)) in
            subst (λ o. Drained o most t (items ++ inserted ms))
              (sym (loop-takes fuel w w2 c (realloc_channel j) at got ran)) d
      ]

  pub update-Drained :
      (fuel : ℕ) (w : World T) (most t : ℕ) (ms : List (Msg T))
      → Sound w most t ms
      → most + most < fuel
      → Drained (update fuel w) most t (w.signals.items ++ inserted ms)
  unfolding update drain_msgs Spsc.update readable_len
  update-Drained fuel w most t ms s p =
      let (c, at, next) = Chain-Next s.routed.chain in
      let d = Spsc.update c in
      let chain =
        Chain-Keeps (same-Keeps w.msgs w.recv c d at (λ xs k. (update_lem c xs k).0))
          s.routed.chain in
      let r = Routed-set w.recv w.recv s.path ms c d at refl (omega arith) refl chain s.routed in
      let seen = Seen-set w w.recv d (lt-of-get_elem? w.msgs w.recv c at) refl in
      let w1 : World T = record w { msgs = set w.msgs w.recv d } in
      let all =
        drain_loop-Drained fuel w1 most t s.path ms s.left r s.walk s.held
          (s.few, s.bounded, s.nonzero) seen (omega (arith, s.links, s.waiting, p)) in
      subst (λ o. Drained o most t (w.signals.items ++ inserted ms)) (sym (rw (at, ◌>>=◌) refl)) all
