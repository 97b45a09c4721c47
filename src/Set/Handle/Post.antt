-- ===== src/Set/Handle/Post.antt =====
-- `SetHandle::send` appends a message to those under way.
use oddio.Base.{
  ltb, ℕ, ◌+◌, ◌*◌, ◌<◌, ◌≤◌, ◌≡◌, refl, sym, subst, ◌∙◌, inl, inr, Bool-cases, Option, some, List,
  [], ◌∷◌, ◌++◌, arith, length, length-set, length-append, get_elem?, set, get_elem?-set_self,
  get_elem?-append_length, lt-of-get_elem?, max_len, ◌>>=◌, add_usize,
}
use oddio.Spsc
use oddio.Spsc.{Channel, size, readable_len, channel}
use oddio.Spsc.Window.{Holds}
use oddio.Spsc.Send.{
  send_lem, size-send, capacity-eq, channel-Holds, size-channel, readable_len-Holds,
}
use oddio.Set.{World, Msg, realloc_channel}
use oddio.Set.Chain.{last_of, Chain-send, Chain-grow}
use oddio.Set.Route.{Routed, tail-Holds, Below-le, Below-snoc}
use oddio.Set.Handle.{send, grow, mul_usize}

pub last_of-snoc : (i j : ℕ) (is : List ℕ) → last_of i (is ++ j ∷ []) ≡ j
last_of-snoc i j [] = refl
last_of-snoc i j (k ∷ is) = last_of-snoc k j is

module _ {ℓ} {T : Type ℓ} where
  -- `f w`, which only changes what the handle keeps of its messages, sends `msg`.
  pub record Posted (w : World T) (got : Option (World T)) (bound : ℕ) (before : List ℕ)
      (ms : List (Msg T)) : Type ℓ where
    pub msgs : List (Channel (Msg T))
    pub sender : ℕ
    pub old_senders : List ℕ
    pub path : List ℕ
    pub links : length path ≤ length before + 1
    pub ran : got ≡ some (record w { msgs = msgs; sender = sender; old_senders = old_senders })
    pub routed : Routed msgs w.recv sender old_senders bound path ms

  post_plain :
      (w : World T) (bound : ℕ) (path : List ℕ) (ms : List (Msg T)) (msg : Msg T)
      (r : Routed w.msgs w.recv w.sender w.old_senders bound path ms)
      → readable_len r.tail + 2 < size r.tail
      → Posted w (send w msg) bound path (ms ++ msg ∷ [])
  unfolding send
  post_plain w bound path ms msg r room =
      let c = r.tail in
      let (own, held, less, spare) = tail-Holds r in
      let count = readable_len-Holds c own held in
      let lemma = λ (xs : List (Msg T)) (h : Holds c xs).
        (send_lem c xs msg 1 h (omega (arith, readable_len-Holds c xs h, room))).0
          (omega (arith, readable_len-Holds c xs h, room)) in
      let c' = (Spsc.send c msg 1).1 in
      let ok = (lemma own held).0 in
      let inside = lt-of-get_elem? w.msgs w.sender c r.tail_at in
      let held' = (lemma own held).1 in
      let slots = size-send c msg 1 in
      record {
        msgs = set w.msgs w.sender c';
        sender = w.sender;
        old_senders = w.old_senders;
        path = path;
        links = omega arith;
        ran = rw (r.tail_at, ◌>>=◌, ok) refl;
        routed = record {
          chain = Chain-send w.sender c c' msg r.chain r.newest r.tail_at (λ xs h. (lemma xs h).1);
          newest = r.newest;
          tail = c';
          tail_at = get_elem?-set_self w.msgs w.sender c' inside;
          spare = omega (
            arith,
            slots,
            room,
            count,
            readable_len-Holds c' (own ++ msg ∷ []) held',
            length-append own (msg ∷ []),
          );
          few = omega (arith, slots, r.few);
          olds =
              Below-le (length w.msgs) (length (set w.msgs w.sender c')) w.old_senders
                (omega (arith, length-set w.msgs w.sender c')) r.olds;
        };
      }

  post_grown :
      (w : World T) (bound : ℕ) (path : List ℕ) (ms : List (Msg T)) (msg : Msg T)
      (r : Routed w.msgs w.recv w.sender w.old_senders bound path ms)
      → length ms ≤ bound
      → 256 + bound * 4 ≤ max_len
      → readable_len r.tail + 2 ≡ size r.tail
      → Posted w (grow w r.tail msg) bound path (ms ++ msg ∷ [])
  unfolding grow
  post_grown w bound path ms msg r less small full =
      let c = r.tail in
      let id = length w.msgs in
      let n = size c in
      let (own, held, part, spare) = tail-Holds r in
      let count = readable_len-Holds c own held in
      let twice : n + n ≤ 128 + bound * 2 = omega (arith, r.few, full, count, part, less) in
      let lemma = λ (xs : List (Msg T)) (h : Holds c xs).
        (send_lem c xs (realloc_channel id) 0 h (omega (arith, readable_len-Holds c xs h, full))).0
          (omega (arith, readable_len-Holds c xs h, full)) in
      let c' = (Spsc.send c (realloc_channel id) 0).1 in
      let ok = (lemma own held).0 in
      let cap = add_usize (mul_usize 2 (Spsc.capacity c)) 1 in
      let cap_eq : cap + 1 ≡ n + n = omega (arith, capacity-eq c own held, spare, twice, small) in
      let fresh = channel-Holds {A = Msg T} cap (omega (arith, cap_eq, twice, small)) in
      let fresh_size = size-channel (Msg T) cap (omega (arith, cap_eq, twice, small)) in
      let (ok2, held2) =
        (send_lem (channel cap) [] msg 0 fresh (omega (arith, fresh_size))).0
          (omega (arith, fresh_size, cap_eq, full)) in
      let d = (Spsc.send (channel cap) msg 0).1 in
      let slots : size d ≡ n + n = size-send (channel cap) msg 0 ∙ fresh_size ∙ cap_eq in
      let kept = length-set w.msgs w.sender c' in
      let msgs = set w.msgs w.sender c' ++ d ∷ [] in
      let longer : length msgs ≡ length w.msgs + 1 =
        omega (arith, length-append (set w.msgs w.sender c') (d ∷ []), kept) in
      record {
        msgs = msgs;
        sender = id;
        old_senders = w.old_senders ++ w.sender ∷ [];
        path = path ++ id ∷ [];
        links = omega (arith, length-append path (id ∷ []));
        ran = rw (ok, ok2) refl;
        routed = record {
          chain =
              Chain-grow w.sender c c' d msg r.chain r.newest r.tail_at (λ xs h. (lemma xs h).1)
                held2;
          newest = last_of-snoc w.recv id path;
          tail = d;
          tail_at =
              subst (λ k. get_elem? msgs k ≡ some d) kept
                (get_elem?-append_length (set w.msgs w.sender c') (d ∷ []));
          spare = omega (arith, slots, readable_len-Holds d (msg ∷ []) held2, full);
          few = omega (arith, slots, twice);
          olds =
              Below-snoc (length msgs) w.sender w.old_senders
                (omega (arith, longer, lt-of-get_elem? w.msgs w.sender c r.tail_at))
                (Below-le (length w.msgs) (length msgs) w.old_senders (omega (arith, longer))
                  r.olds);
        };
      }

  pub send-Routed :
      (w : World T) (bound : ℕ) (path : List ℕ) (ms : List (Msg T)) (msg : Msg T)
      → Routed w.msgs w.recv w.sender w.old_senders bound path ms
      → length ms ≤ bound
      → 256 + bound * 4 ≤ max_len
      → Posted w (send w msg) bound path (ms ++ msg ∷ [])
  unfolding send
  send-Routed w bound path ms msg r less small =
      let c = r.tail in
      elim (Bool-cases (ltb (readable_len c + 2) (size c))) [
        | inl e ↦ post_plain w bound path ms msg r (ground arith)
        | inr e ↦
            let (own, held, part, spare) = tail-Holds r in
            let count = readable_len-Holds c own held in
            let full : readable_len c + 2 ≡ size c = ground (arith, count, spare) in
            let no_room =
              (send_lem c own msg 1 held (omega (arith, spare))).1 (omega (arith, full, count)) in
            subst (λ z. Posted w z bound path (ms ++ msg ∷ []))
              (sym (rw (r.tail_at, ◌>>=◌, no_room) refl))
              (post_grown w bound path ms msg r less small full)
      ]
