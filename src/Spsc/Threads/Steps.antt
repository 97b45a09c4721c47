-- ===== src/Spsc/Threads/Steps.antt =====
-- Every access of the two threads of a channel keeps the invariant.
use oddio.Base.{
  ℕ, ◌+◌, ◌%◌, ◌<◌, ◌≡◌, refl, ap, sym, subst, ◌∙◌, false, Option, none, some, List, [], ◌∷◌, ◌++◌,
  append_assoc, arith, length, length-set, length-append, length-drop, get_or, get_or-set_self,
  get_elem?, set, drop, map, ◌==◌, add_usize, sub_usize, mod_once,
}
use mathlib.Core.List.{map-append}
use oddio.Spsc.{Channel, size, lacks_room, update}
use oddio.Spsc.Window.{Window-get}
use oddio.Spsc.Receive.{update_lem, passed-Holds}
use oddio.Spsc.Threads.{
  idle, loaded, filled, System, Step, Reach, load, refuse, fill, publish, renew, take, pass, here,
  next,
}
use oddio.Spsc.Threads.Invariant.{
  SenderOk, TakenOk, IsSafe, SenderOk-renew, SenderOk-pass, TakenOk-mono, first-append, fill_room,
  fill-Holds, publish-Holds,
}

module _ {ℓ} {A : Type ℓ} (reserve : ℕ) where
  fill-IsSafe :
      (s : System A) (r : ℕ) (x : A)
      → s.phase ≡ loaded r x
      → lacks_room (record s.chan { read = r }) reserve ≡ false
      → IsSafe reserve s
      → IsSafe reserve (record s {
        chan = record s.chan { slots = set s.chan.slots s.chan.write (some x) };
        phase = filled x;
      })
  fill-IsSafe s r x e test h =
      let c = s.chan in
      let c' : Channel A = record c { slots = set c.slots c.write (some x) } in
      let same = length-set c.slots c.write (some x) in
      let (k, inside, at, free, u) = subst (SenderOk reserve c h.items) e h.sender_ok in
      let room = fill_room reserve c h.items r k h.holds inside at free test in
      let written : c.write < size c = omega (
        arith,
        h.holds.write_at,
        h.holds.room,
        h.holds.read_in,
        mod_once (c.read + length h.items) (size c),
      ) in
      record {
        items = h.items;
        holds = fill-Holds c h.items x h.holds (omega arith);
        history = h.history;
        reserved = omega (arith, same, h.reserved);
        sender_ok = (omega (arith, same), get_or-set_self c.slots c.write (some x) none written);
        taken_ok = TakenOk-mono c c' h.items h.items s.taken (omega arith) (λ p. refl) h.taken_ok;
      }

  publish-IsSafe :
      (s : System A) (x : A)
      → s.phase ≡ filled x
      → IsSafe reserve s
      → IsSafe reserve (record s {
        chan = record s.chan { write = add_usize s.chan.write 1 % size s.chan };
        phase = idle;
        sent_log = s.sent_log ++ x ∷ [];
      })
  publish-IsSafe s x e h =
      let c = s.chan in
      let c' : Channel A = record c { write = add_usize c.write 1 % size c } in
      let (free, at) = subst (SenderOk reserve c h.items) e h.sender_ok in
      record {
        items = h.items ++ x ∷ [];
        holds = publish-Holds c h.items x h.holds (omega arith) at;
        history =
            map-append some s.sent_log (x ∷ [])
            ∙ ap (λ l. l ++ some x ∷ []) h.history
            ∙ append_assoc s.got_log (map some h.items) (some x ∷ [])
            ∙ ap (λ l. s.got_log ++ l) (sym (map-append some h.items (x ∷ [])));
        reserved = omega (arith, length-append h.items (x ∷ []));
        sender_ok = tt;
        taken_ok =
            TakenOk-mono c c' h.items (h.items ++ x ∷ []) s.taken (omega arith)
              (λ p. first-append h.items x (omega (arith, h.holds.seen))) h.taken_ok;
      }

  pass-history :
      (sent_log : List A) (got : List (Option A)) (v : Option A) (xs : List A)
      → 0 < length xs
      → v ≡ get_elem? xs 0
      → map some sent_log ≡ got ++ map some xs
      → map some sent_log ≡ (got ++ v ∷ []) ++ map some (drop 1 xs)
  pass-history sent_log got v [] p e h = absurd (omega arith)
  pass-history sent_log got v (x ∷ xs) p e h =
      h ∙ rw e (sym (append_assoc got (some x ∷ []) (map some xs)))

  pass-IsSafe :
      (s : System A) (v : Option A)
      → s.taken ≡ some v
      → IsSafe reserve s
      → IsSafe reserve (record s {
        chan = record s.chan {
          read = add_usize s.chan.read 1 % size s.chan;
          len = sub_usize s.chan.len 1;
        };
        taken = none;
        got_log = s.got_log ++ v ∷ [];
      })
  pass-IsSafe s v e h =
      let c = s.chan in
      let (p, at) = subst (TakenOk c h.items) e h.taken_ok in
      record {
        items = drop 1 h.items;
        holds = passed-Holds c h.items 1 h.holds p;
        history =
            pass-history s.sent_log s.got_log v h.items (omega (arith, h.holds.seen)) at h.history;
        reserved = omega (arith, h.reserved, length-drop 1 h.items);
        sender_ok = SenderOk-pass reserve c h.items s.phase h.holds p h.sender_ok;
        taken_ok = tt;
      }

  renew-IsSafe :
      (s : System A) → IsSafe reserve s → IsSafe reserve (record s { chan = update s.chan })
  unfolding update
  renew-IsSafe s h =
      let (held, all, more) = update_lem s.chan h.items h.holds in
      record {
        items = h.items;
        holds = held;
        history = h.history;
        reserved = h.reserved;
        sender_ok = SenderOk-renew reserve s.chan h.items s.phase h.sender_ok;
        taken_ok =
            TakenOk-mono s.chan (update s.chan) h.items h.items s.taken more (λ p. refl) h.taken_ok;
      }

  take-IsSafe :
      (s : System A)
      → (s.chan.len == 0) ≡ false
      → IsSafe reserve s
      → IsSafe reserve (record s { taken = some (get_or s.chan.slots s.chan.read none) })
  take-IsSafe s e h =
      let c = s.chan in
      let p : 0 < c.len = ground arith in
      let at : (c.read + 0) % size c ≡ c.read =
        omega (arith, h.holds.read_in, mod_once (c.read + 0) (size c)) in
      record {
        items = h.items;
        holds = h.holds;
        history = h.history;
        reserved = h.reserved;
        sender_ok = h.sender_ok;
        taken_ok = (
          p,
          rw at at (
              Window-get (size c) c.slots c.read 0 h.items h.holds.read_in h.holds.room
                (omega (arith, h.holds.seen)) h.holds.held),
        );
      }

  pub Step-IsSafe : {s t : System A} → Step reserve s t → IsSafe reserve s → IsSafe reserve t
  Step-IsSafe {s} (load x e) h = record {
    items = h.items;
    holds = h.holds;
    history = h.history;
    reserved = h.reserved;
    sender_ok = (
      0,
      h.holds.read_in,
      omega (arith, h.holds.read_in, mod_once (s.chan.read + 0) (size s.chan)),
      omega (arith, h.reserved),
      tt,
    );
    taken_ok = h.taken_ok;
  }
  Step-IsSafe {s} (refuse r x e test) h = record {
    items = h.items;
    holds = h.holds;
    history = h.history;
    reserved = h.reserved;
    sender_ok = tt;
    taken_ok = h.taken_ok;
  }
  Step-IsSafe {s} (fill r x e test) h = fill-IsSafe s r x e test h
  Step-IsSafe {s} (publish x e) h = publish-IsSafe s x e h
  Step-IsSafe {s} renew h = renew-IsSafe s h
  Step-IsSafe {s} (take e p) h = take-IsSafe s p h
  Step-IsSafe {s} (pass v e) h = pass-IsSafe s v e h

  pub Reach-IsSafe : {s t : System A} → IsSafe reserve s → Reach reserve s t → IsSafe reserve t
  Reach-IsSafe h here = h
  Reach-IsSafe h (next r st) = Step-IsSafe st (Reach-IsSafe h r)
