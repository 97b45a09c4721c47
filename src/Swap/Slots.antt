-- ===== src/Swap/Slots.antt =====
-- The two ends and the shared index always name the three slots, each slot once.
use Prim.Native.Nat.{bit_and, bit_or}
use oddio.Base.{
  ℕ, zero, suc, ◌<◌, ◌≡◌, refl, sym, ◌∙◌, ◌≢◌, Bool, true, false, Bool-cases, inl, inr, some, arith,
  length, length-set, get_elem?_within,
}
use oddio.Swap.{
  Swap, swap, set_pending, flush, exchange, is_fresh, set_received, refresh, received, fresh_bit,
  index_mask,
}

-- The shared word: a slot, and whether the value there is one that the receiver has not seen.
pub record Word (w : ℕ) (slot : ℕ) (fresh : Bool) : Type 0 where
  pub slot_at : bit_and w index_mask ≡ slot
  pub fresh_at : is_fresh w ≡ fresh

flushed-Word : (i : ℕ) → i < 3 → Word (bit_or i fresh_bit) i true
unfolding is_fresh
flushed-Word zero p = record { slot_at = refl; fresh_at = refl }
flushed-Word (suc zero) p = record { slot_at = refl; fresh_at = refl }
flushed-Word (suc (suc zero)) p = record { slot_at = refl; fresh_at = refl }
flushed-Word (suc (suc (suc i))) p = absurd (omega arith)

taken-Word : (i : ℕ) → i < 3 → Word i i false
unfolding is_fresh
taken-Word zero p = record { slot_at = refl; fresh_at = refl }
taken-Word (suc zero) p = record { slot_at = refl; fresh_at = refl }
taken-Word (suc (suc zero)) p = record { slot_at = refl; fresh_at = refl }
taken-Word (suc (suc (suc i))) p = absurd (omega arith)

module _ {ℓ} {A : Type ℓ} where
  -- The receiver's end, the sender's end and the shared word own one slot each.
  pub record Owns (s : Swap A) (mid : ℕ) (fresh : Bool) : Type ℓ where
    pub count : length s.slots ≡ 3
    pub sender_in : s.sender < 3
    pub receiver_in : s.receiver < 3
    pub mid_in : mid < 3
    pub sender_mid : s.sender ≢ mid
    pub receiver_mid : s.receiver ≢ mid
    pub apart : s.sender ≢ s.receiver
    pub word : Word s.shared mid fresh

  pub swap-Owns : (a b c : A) → Owns (swap a b c) 1 false
  unfolding swap
  swap-Owns a b c = record {
    count = refl;
    sender_in = omega arith;
    receiver_in = omega arith;
    mid_in = omega arith;
    sender_mid = omega arith;
    receiver_mid = omega arith;
    apart = omega arith;
    word = taken-Word 1 (omega arith);
  }

  -- `flush` leaves the sender's slot as the fresh one, and gives the sender the shared one.
  pub flush-Owns :
      (s : Swap A) (mid : ℕ) (fresh : Bool) → Owns s mid fresh → Owns (flush s) s.sender true
  unfolding flush
  flush-Owns s mid fresh h =
      let at = h.word.slot_at in
      record {
        count = h.count;
        sender_in = rw at h.mid_in;
        receiver_in = h.receiver_in;
        mid_in = h.sender_in;
        sender_mid = omega (arith, at, h.sender_mid);
        receiver_mid = λ e. h.apart (sym e);
        apart = omega (arith, at, h.receiver_mid);
        word = flushed-Word s.sender h.sender_in;
      }

  pub exchange-Owns :
      (s : Swap A) (mid : ℕ) (fresh : Bool) → Owns s mid fresh → Owns (exchange s) s.receiver false
  unfolding exchange
  exchange-Owns s mid fresh h =
      let at = h.word.slot_at in
      record {
        count = h.count;
        sender_in = h.sender_in;
        receiver_in = rw at h.mid_in;
        mid_in = h.receiver_in;
        sender_mid = h.apart;
        receiver_mid = omega (arith, at, h.receiver_mid);
        apart = omega (arith, at, h.sender_mid);
        word = taken-Word s.receiver h.receiver_in;
      }

  pub set_pending-Owns :
      (s : Swap A) (mid : ℕ) (fresh : Bool) (x : A)
      → Owns s mid fresh
      → Owns (set_pending s x) mid fresh
  unfolding set_pending
  set_pending-Owns s mid fresh x h = record {
    count = length-set s.slots s.sender x ∙ h.count;
    sender_in = h.sender_in;
    receiver_in = h.receiver_in;
    mid_in = h.mid_in;
    sender_mid = h.sender_mid;
    receiver_mid = h.receiver_mid;
    apart = h.apart;
    word = h.word;
  }

  pub set_received-Owns :
      (s : Swap A) (mid : ℕ) (fresh : Bool) (x : A)
      → Owns s mid fresh
      → Owns (set_received s x) mid fresh
  unfolding set_received
  set_received-Owns s mid fresh x h = record {
    count = length-set s.slots s.receiver x ∙ h.count;
    sender_in = h.sender_in;
    receiver_in = h.receiver_in;
    mid_in = h.mid_in;
    sender_mid = h.sender_mid;
    receiver_mid = h.receiver_mid;
    apart = h.apart;
    word = h.word;
  }

module _ {ℓ} {A : Type ℓ} where
  -- The ends own a slot each, whichever it is.
  pub record Sane (s : Swap A) : Type ℓ where
    pub mid : ℕ
    pub fresh : Bool
    pub owns : Owns s mid fresh

  pub swap-Sane : (a b c : A) → Sane (swap a b c)
  swap-Sane a b c = record { mid = 1; fresh = false; owns = swap-Owns a b c }

  -- a write through `pending`, and `flush`
  pub flush-Sane : (s : Swap A) (x : A) → Sane s → Sane (flush (set_pending s x))
  unfolding set_pending
  flush-Sane s x h = record {
    mid = s.sender;
    fresh = true;
    owns = flush-Owns (set_pending s x) h.mid h.fresh (set_pending-Owns s h.mid h.fresh x h.owns);
  }

  pub refresh-Sane : (s : Swap A) → Sane s → Sane (refresh s).1
  unfolding refresh
  refresh-Sane s h = elim (Bool-cases (is_fresh s.shared)) [
    | inl e ↦
        rw e
          (record { mid = s.receiver; fresh = false; owns = exchange-Owns s h.mid h.fresh h.owns })
    | inr e ↦ rw e h
  ]

  pub received-Sane : (s : Swap A) → Sane s → (x : A) × (received s ≡ some x)
  unfolding received
  received-Sane s h =
      get_elem?_within s.slots s.receiver (omega (arith, h.owns.count, h.owns.receiver_in))
