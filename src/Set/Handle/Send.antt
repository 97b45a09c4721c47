-- ===== src/Set/Handle/Send.antt =====
-- `SetHandle::send` keeps one slot of the message channel free, for the message that announces a
-- larger channel.
use oddio.Base.{
  ◌⊎◌, inl, inr, Bool-cases, ltb, ℕ, ◌+◌, ◌<◌, ◌≤◌, ◌≡◌, refl, subst, ◌∙◌, some, List, [], ◌∷◌,
  ◌++◌, arith, length, length-set, length-append, get_elem?, set, get_elem?-set_self,
  get_elem?-append_left, get_elem?-append_length, lt-of-get_elem?, max_len, ◌>>=◌, add_usize,
}
use oddio.Spsc
use oddio.Spsc.{Channel, size, sent, refused, channel}
use oddio.Spsc.Window.{Holds}
use oddio.Spsc.Send.{send_lem, size-send, capacity-eq, channel-Holds, size-channel}
use oddio.Set.{World, Msg, realloc_channel}
use oddio.Set.Handle.{send, grow, mul_usize}

module _ {ℓ} {T : Type ℓ} where
  -- The handle sends on a channel of `n` slots that holds `ms` and has one slot to spare.
  pub record Sending (w : World T) (n : ℕ) (ms : List (Msg T)) : Type ℓ where
    pub chan : Channel (Msg T)
    pub at : get_elem? w.msgs w.sender ≡ some chan
    pub holds : Holds chan ms
    pub slots : size chan ≡ n
    pub spare : length ms + 1 < n

  -- The old channel `i` ends with the announcement of the new one, `id`.
  pub record Announces (w : World T) (i id : ℕ) (ms : List (Msg T)) : Type ℓ where
    pub old : Channel (Msg T)
    pub old_at : get_elem? w.msgs i ≡ some old
    pub announced : Holds old (ms ++ realloc_channel id ∷ [])

  send-fits :
      (w : World T) (n : ℕ) (ms : List (Msg T)) (msg : Msg T)
      → Sending w n ms
      → length ms + 2 < n
      → (w' : World T) × (send w msg ≡ some w')
        × Sending w' n (ms ++ msg ∷ [])
        × (w'.sender ≡ w.sender)
  unfolding send
  send-fits w n ms msg h room =
      let c = h.chan in
      let slots = h.slots in
      let (ok, held) =
        (send_lem c ms msg 1 h.holds (omega (arith, slots, h.spare))).0 (omega (arith, slots)) in
      let c' = (Spsc.send c msg 1).1 in
      let w' : World T = record w { msgs = set w.msgs w.sender c' } in
      (
        w',
        rw (h.at, ◌>>=◌, ok) refl,
        record {
          chan = c';
          at = get_elem?-set_self w.msgs w.sender c' (lt-of-get_elem? w.msgs w.sender c h.at);
          holds = held;
          slots = size-send c msg 1 ∙ slots;
          spare = omega (arith, length-append ms (msg ∷ []));
        },
        refl,
      )

  grow_lem :
      (w : World T) (n : ℕ) (ms : List (Msg T)) (msg : Msg T)
      → (h : Sending w n ms) → n + n ≤ max_len
      → (w' : World T) × (grow w h.chan msg ≡ some w')
        × Sending w' (n + n) (msg ∷ [])
        × (w'.sender ≡ length w.msgs)
        × Announces w' w.sender (length w.msgs) ms
        × (w'.old_senders ≡ w.old_senders ++ w.sender ∷ [])
  unfolding grow
  grow_lem w n ms msg h small =
      let c = h.chan in
      let id = length w.msgs in
      let slots = h.slots in
      let (ok, held) =
        (send_lem c ms (realloc_channel id) 0 h.holds (omega (arith, slots, h.spare))).0
          (omega (arith, slots, h.spare)) in
      let c' = (Spsc.send c (realloc_channel id) 0).1 in
      let cap = add_usize (mul_usize 2 (Spsc.capacity c)) 1 in
      let cap_eq : cap + 1 ≡ n + n = omega (arith, capacity-eq c ms h.holds, slots, h.spare) in
      let fresh = channel-Holds {A = Msg T} cap (omega (arith, cap_eq)) in
      let fresh_size = size-channel (Msg T) cap (omega (arith, cap_eq)) in
      let (ok2, held2) =
        (send_lem (channel cap) [] msg 0 fresh (omega (arith, fresh_size))).0
          (omega (arith, fresh_size, cap_eq, h.spare)) in
      let d = (Spsc.send (channel cap) msg 0).1 in
      let inside = lt-of-get_elem? w.msgs w.sender c h.at in
      let kept = length-set w.msgs w.sender c' in
      let w' : World T = record w {
        msgs = set w.msgs w.sender c' ++ d ∷ [];
        sender = id;
        old_senders = w.old_senders ++ w.sender ∷ [];
      } in
      (
        w',
        rw (ok, ok2) refl,
        record {
          chan = d;
          at =
              subst (λ k. get_elem? w'.msgs k ≡ some d) kept
                (get_elem?-append_length (set w.msgs w.sender c') (d ∷ []));
          holds = held2;
          slots = size-send (channel cap) msg 0 ∙ fresh_size ∙ cap_eq;
          spare = omega (arith, h.spare);
        },
        refl,
        record {
          old = c';
          old_at =
              get_elem?-append_left (set w.msgs w.sender c') (d ∷ []) w.sender
                (omega (arith, kept, inside))
              ∙ get_elem?-set_self w.msgs w.sender c' inside;
          announced = held;
        },
        refl,
      )

  -- If the channel of the handle holds given messages and has a slot to spare, and twice its slots fit
  -- the largest allocation, `SetHandle::send` never panics and never puts an ordinary message in the
  -- last free slot: with more than one slot free it appends the message; with one it announces a
  -- channel of twice the slots there, sends the message as the first of the new channel, and keeps
  -- the old one among the old senders. One slot of the channel in use is free again afterwards.
  pub set_send_lem :
      (w : World T) (n : ℕ) (ms : List (Msg T)) (msg : Msg T)
      → Sending w n ms
      → n + n ≤ max_len
      → ((length ms + 2 < n)
          × (w' : World T) × (send w msg ≡ some w')
          × Sending w' n (ms ++ msg ∷ [])
          × (w'.sender ≡ w.sender))
        ⊎ ((length ms + 2 ≡ n)
            × (w' : World T) × (send w msg ≡ some w')
            × Sending w' (n + n) (msg ∷ [])
            × (w'.sender ≡ length w.msgs)
            × Announces w' w.sender (length w.msgs) ms
            × (w'.old_senders ≡ w.old_senders ++ w.sender ∷ []))
  unfolding send
  set_send_lem w n ms msg h small = elim (Bool-cases (ltb (length ms + 2) n)) [
    | inl e ↦
        let p : length ms + 2 < n = ground arith in
        let (w', ran, held, at) = send-fits w n ms msg h p in inl (p, w', ran, held, at)
    | inr e ↦
        let p : length ms + 2 ≡ n = ground (arith, h.spare) in
        let c = h.chan in
        let slots = h.slots in
        let no_room =
          (send_lem c ms msg 1 h.holds (omega (arith, slots, h.spare))).1
            (omega (arith, slots, p)) in
        let (w', grown, held, at, old, kept) = grow_lem w n ms msg h small in
        inr (p, w', rw (h.at, ◌>>=◌, no_room) grown, held, at, old, kept)
  ]
