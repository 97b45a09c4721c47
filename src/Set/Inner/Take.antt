-- ===== src/Set/Inner/Take.antt =====
-- One message of `SetInner::drain_msgs`: a signal enters the table, or a larger table takes its place.
use oddio.Base.{
  ℕ, ◌+◌, ◌<◌, ◌≤◌, ◌≡◌, refl, ap, sym, subst, ◌∙◌, inl, inr, true, false, Bool-cases, Option, some,
  List, [], ◌∷◌, ◌++◌, append-nil, arith, ltb, length, length-set, length-append, get_elem?, set,
  get_elem?-set-set, get_elem?-set_past, lt-of-get_elem?, ◌>>=◌,
}
use oddio.Spsc
use oddio.Spsc.{Channel, size, sent}
use oddio.Spsc.Send.{send_lem, size-send}
use oddio.Set.{
  Table, World, Msg, realloc_channel, realloc_signals, insert as insert_msg, Free, table,
}
use oddio.Set.Stock.{sigs, inserted, reallocs, Fits, room, larger, Fresh, Fits-same}
use oddio.Set.Walk.{Walk, Walk-switch}
use oddio.Set.Held.{Held}
use oddio.Set.Handle.Trim.{sender-Holds}
use oddio.Set.Inner.{handle_msg, push, append, switch_signals, grown}

module _ {ℓ} {A : Type ℓ} where
  pub send-sender : (c : Channel A) (x : A) (n : ℕ) → (Spsc.send c x n).1.sender ≡ c.sender
  unfolding Spsc.send
  send-sender c x n = elim (Bool-cases (Spsc.lacks_room c n)) [
    | inl e ↦ rw e refl
    | inr e ↦ rw e refl
  ]

module _ {ℓ} {T : Type ℓ} where
  Fits-channel :
      {frees : List (Channel (Free T))} {fs held cap final i : ℕ} {ms : List (Msg T)}
      → Fits frees fs held cap (realloc_channel i ∷ ms) final
      → ⊥
  Fits-channel h = elim h [ ]

  Fits-room :
      {frees : List (Channel (Free T))} {fs held cap final : ℕ} {x : T} {ms : List (Msg T)}
      → Fits frees fs held cap (insert_msg x ∷ ms) final
      → (held < cap) × Fits frees fs (held + 1) cap ms final
  Fits-room (room fs held cap x ms final lt more) = (lt, more)

  Fits-larger :
      {frees : List (Channel (Free T))} {fs held cap final id : ℕ} {t : Table T} {ms : List (Msg T)}
      → Fits frees fs held cap (realloc_signals t id ∷ ms) final
      → (fs < id) × Fresh frees t id × (held ≤ t.capacity) × Fits frees id held t.capacity ms final
  Fits-larger (larger fs held cap t id ms final lt fresh le more) = (lt, fresh, le, more)

  within_capacity : (cap : ℕ) (xs : List T) → length xs ≤ cap → grown cap xs ≡ cap
  within_capacity cap xs p = let e : ltb cap (length xs) ≡ false = ground arith in rw e refl

  -- A step of the set that only concerns its signals leaves the messages `ms`.
  pub record Taken (w : World T) (waiting : List ℕ) (ms : List (Msg T)) (items : List T)
      (got : Option (World T)) : Type ℓ where
    pub frees : List (Channel (Free T))
    pub free_sender : ℕ
    pub signals : Table T
    pub left : ℕ
    pub ran : got ≡ some (record w { frees = frees; free_sender = free_sender; signals = signals })
    pub walk : Walk frees w.free w.next_free free_sender waiting left
    pub held : Held frees free_sender signals w.signal_capacity w.active_signals ms left
    pub items_eq : signals.items ≡ items

  take_insert :
      (w : World T) (n : ℕ) (x : T) (ms : List (Msg T))
      → Walk w.frees w.free w.next_free w.free_sender (reallocs ms) n
      → Held w.frees w.free_sender w.signals w.signal_capacity w.active_signals
          (insert_msg x ∷ ms)
          n
      → Taken w (reallocs ms) ms (w.signals.items ++ x ∷ []) (handle_msg w (insert_msg x))
  unfolding handle_msg push
  take_insert w n x ms walk h =
      let (lt, more) = Fits-room h.fits in
      let items = w.signals.items ++ x ∷ [] in
      let count = length-append w.signals.items (x ∷ []) in
      let fits : ltb (length w.signals.items) w.signals.capacity ≡ true = ground arith in
      let same = within_capacity w.signals.capacity items (omega arith) in
      let longer : n + sigs h.freed + length w.signals.items + 1 ≡ n + sigs h.freed + length items =
        omega (arith, count) in
      record {
        frees = w.frees;
        free_sender = w.free_sender;
        signals = record { items = items; capacity = w.signals.capacity };
        left = n;
        ran = rw (fits, same) refl;
        walk = walk;
        held = record {
          queue = h.queue;
          freed = h.freed;
          at = h.at;
          holds = h.holds;
          is_open = h.is_open;
          extra = h.extra;
          slots = h.slots;
          few = h.few;
          fits =
              subst (λ k. Fits w.frees w.free_sender k w.signals.capacity ms w.signal_capacity)
                longer more;
          within = omega (arith, longer, lt);
          counted = omega (arith, h.counted, longer);
        };
        items_eq = refl;
      }

  take_realloc :
      (w : World T) (n : ℕ) (t : Table T) (id : ℕ) (ms : List (Msg T))
      → Walk w.frees w.free w.next_free w.free_sender (id ∷ reallocs ms) n
      → Held w.frees w.free_sender w.signals w.signal_capacity w.active_signals
          (realloc_signals t id ∷ ms)
          n
      → Taken w (reallocs ms) ms w.signals.items (handle_msg w (realloc_signals t id))
  unfolding handle_msg switch_signals append Spsc.drop_sender
  take_realloc w n t id ms walk h =
      let (lt, fresh, le, more) = Fits-larger h.fits in
      let fs = w.free_sender in
      let old = h.queue in
      let d = Spsc.drop_sender old in
      let frees1 = set w.frees fs d in
      let c = fresh.queue in
      let c_at : get_elem? frees1 id ≡ some c = get_elem?-set_past w.frees fs id d lt ∙ fresh.at in
      let gone : Free T = table (record w.signals { items = [] }) in
      let slots = fresh.slots in
      let (ok, holds) =
        (send_lem c [] gone 0 fresh.holds (omega (arith, slots))).0 (omega (arith, slots)) in
      let c' = (Spsc.send c gone 0).1 in
      let frees2 = set frees1 id c' in
      let items : t.items ++ w.signals.items ≡ w.signals.items =
        ap (λ z. z ++ w.signals.items) fresh.empty in
      let cap = within_capacity t.capacity w.signals.items (omega arith) in
      let id_in : id < length w.frees =
        omega (arith, lt-of-get_elem? frees1 id c c_at, length-set w.frees fs d) in
      let (before, after, at_old, at_new) = get_elem?-set-set w.frees fs id d c' lt id_in in
      record {
        frees = frees2;
        free_sender = id;
        signals = record { items = w.signals.items; capacity = t.capacity };
        left = n + sigs h.freed;
        ran = rw (h.at, ◌>>=◌, c_at, ok, items, cap) refl;
        walk =
            Walk-switch id (reallocs ms) d h.freed refl (λ k p q. before k q) at_old
              (sender-Holds false old h.freed h.holds) refl lt walk;
        held = record {
          queue = c';
          freed = gone ∷ [];
          at = at_new;
          holds = holds;
          is_open = send-sender c gone 0 ∙ fresh.is_open;
          extra = 1;
          slots = omega (arith, size-send c gone 0, slots);
          few = omega arith;
          fits =
              subst (λ k. Fits frees2 id k t.capacity ms w.signal_capacity) (omega arith)
                (Fits-same {frees' = frees2} (λ k p q. after k p) more);
          within = omega (arith, le);
          counted = omega (arith, h.counted);
        };
        items_eq = refl;
      }

  pub handle_msg-Taken :
      (w : World T) (n : ℕ) (m : Msg T) (ms : List (Msg T))
      → Walk w.frees w.free w.next_free w.free_sender (reallocs (m ∷ ms)) n
      → Held w.frees w.free_sender w.signals w.signal_capacity w.active_signals (m ∷ ms) n
      → Taken w (reallocs ms) ms (w.signals.items ++ inserted (m ∷ [])) (handle_msg w m)
  handle_msg-Taken w n (realloc_channel i) ms walk h = absurd (Fits-channel h.fits)
  handle_msg-Taken w n (insert_msg x) ms walk h = take_insert w n x ms walk h
  handle_msg-Taken w n (realloc_signals t id) ms walk h =
      subst (λ z. Taken w (reallocs ms) ms z (handle_msg w (realloc_signals t id)))
        (sym (append-nil w.signals.items)) (take_realloc w n t id ms walk h)
