-- ===== src/Swap/Threads.antt =====
-- The two ends on two threads: the atomic accesses of `flush` and `refresh` interleave in any order.
-- Accesses are sequentially consistent.
use oddio.Base.{
  ℕ, ◌<◌, ◌≡◌, refl, ap, sym, ◌∙◌, ◌≢◌, Bool, true, false, Option, none, arith, length, get_elem?,
  get_elem?-set_ne,
}
use oddio.Swap.{Swap, swap, pending, set_pending, flush, exchange, is_fresh, received, set_received}
use oddio.Swap.Slots.{
  Owns, swap-Owns, flush-Owns, exchange-Owns, set_pending-Owns, set_received-Owns,
}

-- `loaded` says that the receiver is inside `refresh`, past a load that saw the fresh bit.
-- `last` is the value most recently flushed.
pub record System {ℓ} (A : Type ℓ) : Type ℓ where
  pub swap_state : Swap A
  pub loaded : Bool
  pub last : Option A

module _ {ℓ} {A : Type ℓ} where
  -- One atomic access, or one access to a slot that an end has to itself.
  pub data Step (s : System A) : System A → Type ℓ where
    write_pending : (x : A) → Step s (record s { swap_state = set_pending s.swap_state x })
    flush_pending :
        Step s (record s { swap_state = flush s.swap_state; last = pending s.swap_state })
    load_fresh : is_fresh s.swap_state.shared ≡ true → Step s (record s { loaded = true })
    take_fresh :
        s.loaded ≡ true → Step s (record s { swap_state = exchange s.swap_state; loaded = false })
    write_received : (x : A) → Step s (record s { swap_state = set_received s.swap_state x })

  pub data Reach (s : System A) : System A → Type ℓ where
    here : Reach s s
    next : {t u : System A} → Reach s t → Step t u → Reach s u

  abbrev pub start : A → A → A → System A
  start a b c = record { swap_state = swap a b c; loaded = false; last = none }

  -- A fresh slot holds the last value flushed, and a receiver that saw it fresh still finds it so.
  record IsSafe (s : System A) : Type ℓ where
    mid : ℕ
    fresh : Bool
    owns : Owns s.swap_state mid fresh
    newest : fresh ≡ true → get_elem? s.swap_state.slots mid ≡ s.last
    still : s.loaded ≡ true → fresh ≡ true

  Step-IsSafe : {s t : System A} → Step s t → IsSafe s → IsSafe t
  unfolding set_pending flush exchange set_received pending
  Step-IsSafe {s} (write_pending x) h = record {
    mid = h.mid;
    fresh = h.fresh;
    owns = set_pending-Owns s.swap_state h.mid h.fresh x h.owns;
    newest = λ f. get_elem?-set_ne s.swap_state.slots x h.owns.sender_mid ∙ h.newest f;
    still = h.still;
  }
  Step-IsSafe {s} flush_pending h = record {
    mid = s.swap_state.sender;
    fresh = true;
    owns = flush-Owns s.swap_state h.mid h.fresh h.owns;
    newest = λ f. refl;
    still = λ l. refl;
  }
  Step-IsSafe {s} (load_fresh e) h = record {
    mid = h.mid;
    fresh = h.fresh;
    owns = h.owns;
    newest = h.newest;
    still = λ l. sym h.owns.word.fresh_at ∙ e;
  }
  Step-IsSafe {s} (take_fresh e) h = record {
    mid = s.swap_state.receiver;
    fresh = false;
    owns = exchange-Owns s.swap_state h.mid h.fresh h.owns;
    newest = λ f. cc;
    still = λ l. l;
  }
  Step-IsSafe {s} (write_received x) h = record {
    mid = h.mid;
    fresh = h.fresh;
    owns = set_received-Owns s.swap_state h.mid h.fresh x h.owns;
    newest = λ f. get_elem?-set_ne s.swap_state.slots x h.owns.receiver_mid ∙ h.newest f;
    still = h.still;
  }

  Reach-IsSafe : {s t : System A} → IsSafe s → Reach s t → IsSafe t
  Reach-IsSafe h here = h
  Reach-IsSafe h (next r st) = Step-IsSafe st (Reach-IsSafe h r)

  start-IsSafe : (a b c : A) → IsSafe (start a b c)
  start-IsSafe a b c = record {
    mid = 1;
    fresh = false;
    owns = swap-Owns a b c;
    newest = λ f. cc;
    still = λ l. l;
  }

  -- However the two threads interleave, the slot that the sender writes is never the one that the
  -- receiver reads, and both are slots of the buffer.
  pub exclusive_slots :
      (a b c : A) {s : System A}
      → Reach (start a b c) s
      → (s.swap_state.sender ≢ s.swap_state.receiver)
        × (s.swap_state.sender < length s.swap_state.slots)
        × (s.swap_state.receiver < length s.swap_state.slots)
  exclusive_slots a b c {s} r =
      let h = Reach-IsSafe (start-IsSafe a b c) r in
      (
        h.owns.apart,
        omega (arith, h.owns.count, h.owns.sender_in),
        omega (arith, h.owns.count, h.owns.receiver_in),
      )

  -- However the two threads interleave, when a receiver that saw the fresh bit takes the shared slot,
  -- it receives the value most recently flushed, also one flushed after its load.
  pub takes_last :
      (a b c : A) {s : System A}
      → Reach (start a b c) s
      → s.loaded ≡ true
      → received (exchange s.swap_state) ≡ s.last
  unfolding received exchange
  takes_last a b c {s} r l =
      let h = Reach-IsSafe (start-IsSafe a b c) r in
      ap (get_elem? s.swap_state.slots) h.owns.word.slot_at ∙ h.newest (h.still l)
