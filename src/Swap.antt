-- ===== src/Swap.antt =====
-- src/swap.rs: a triple buffer that keeps the last value sent.
-- The slots and the index that the two ends share through an `Arc`, and the index that each end
-- keeps for itself, are the one record `Swap`.
pub mod Slots
pub mod Mailbox
pub mod Threads
mod Tests
use Prim.Native.Nat.{bit_and, bit_or}
use oddio.Base.{
  ℕ, Bool, true, false, not, Option, List, [], ◌∷◌, get_elem?, set, ◌==◌, if◌then◌else◌,
}

pub record Swap {ℓ} (A : Type ℓ) : Type ℓ where
  pub slots : List A
  pub shared : ℕ
  pub sender : ℕ
  pub receiver : ℕ

abbrev pub fresh_bit : ℕ
fresh_bit = 0b100

abbrev pub index_mask : ℕ
index_mask = 0b011

-- the test of `refresh`, on the word that it loads
unfoldable pub is_fresh : ℕ → Bool
is_fresh loaded = not (bit_and loaded fresh_bit == 0)

module _ {ℓ} {A : Type ℓ} where
  -- The three arguments are what the three calls of `init` return.
  unfoldable pub swap : A → A → A → Swap A
  swap a b c = record { slots = a ∷ b ∷ c ∷ []; shared = 1; sender = 0; receiver = 2 }

  -- What `Sender::pending` gives access to; `none` would be an index out of range.
  unfoldable pub pending : Swap A → Option A
  pending s = get_elem? s.slots s.sender

  -- A write through `Sender::pending`.
  unfoldable pub set_pending : Swap A → A → Swap A
  set_pending s x = record s { slots = set s.slots s.sender x }

  unfoldable pub flush : Swap A → Swap A
  flush s = record s { shared = bit_or s.sender fresh_bit; sender = bit_and s.shared index_mask }

  -- the swap of `refresh`
  unfoldable pub exchange : Swap A → Swap A
  exchange s = record s { shared = s.receiver; receiver = bit_and s.shared index_mask }

  unfoldable pub refresh : Swap A → Bool × Swap A
  refresh s = if not (is_fresh s.shared) then (false, s) else (true, exchange s)

  unfoldable pub received : Swap A → Option A
  received s = get_elem? s.slots s.receiver

  -- A write through `Receiver::received`.
  unfoldable pub set_received : Swap A → A → Swap A
  set_received s x = record s { slots = set s.slots s.receiver x }
