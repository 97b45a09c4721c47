-- ===== src/Spsc.antt =====
-- src/spsc.rs: a bounded single-producer single-consumer queue over a ring of slots.
-- The block that `Sender` and `Receiver` share through an `Arc` and the receiver's own `len` are
-- the one record `Channel`, with a flag for each end that has not been dropped.
pub mod Window
pub mod Fill
pub mod Send
pub mod SendSlice
pub mod Receive
pub mod Queue
pub mod Run
pub mod Threads
mod Tests
use oddio.Base.{
  ℕ, zero, suc, ◌+◌, ◌-◌, ◌%◌, min, Bool, true, false, not, Option, none, some, List, [], ◌∷◌,
  length, get_or, set, take, drop, replicate, ltb, leb, ◌==◌, if◌then◌else◌, add_usize, sub_usize,
  checked_sub,
}

-- `Shared`, `Sender` and `Receiver`. A slot is `none` until something has been written to it.
pub record Channel {ℓ} (A : Type ℓ) : Type ℓ where
  pub read : ℕ
  pub write : ℕ
  pub slots : List (Option A)
  pub len : ℕ
  pub sender : Bool
  pub receiver : Bool

-- `Result<(), T>`
pub data SendResult {ℓ} (A : Type ℓ) : Type ℓ where
  sent : SendResult A
  refused : A → SendResult A

module _ {ℓ} {A : Type ℓ} where
  abbrev pub size : Channel A → ℕ
  size c = length c.slots

  -- `Shared::new` allocates the slots and leaves them uninitialised.
  unfoldable pub channel : ℕ → Channel A
  channel capacity = record {
    read = 0;
    write = 0;
    slots = replicate (add_usize capacity 1) none;
    len = 0;
    sender = true;
    receiver = true;
  }

  unfoldable pub capacity : Channel A → ℕ
  capacity c = sub_usize (size c) 1

  unfoldable pub free : Channel A → ℕ
  free c =
      if ltb c.write c.read
      then sub_usize (sub_usize c.read c.write) 1
      else elim (checked_sub c.read 1) [
        | some max ↦ add_usize (sub_usize (size c) c.write) max
        | none ↦ sub_usize (sub_usize (size c) c.write) 1
      ]

  -- the lengths of the two free regions that `send_from_slice` computes, the first at `write` and
  -- the second at the start of the ring
  unfoldable pub free_regions : Channel A → ℕ × ℕ
  free_regions c =
      if ltb c.write c.read
      then (sub_usize (sub_usize c.read c.write) 1, 0)
      else elim (checked_sub c.read 1) [
        | some max ↦ (sub_usize (size c) c.write, max)
        | none ↦ (sub_usize (sub_usize (size c) c.write) 1, 0)
      ]

  -- `ptr::copy_nonoverlapping` of items to the slots from index `i`
  unfoldable pub copy_to : List (Option A) → ℕ → List A → List (Option A)
  copy_to slots i [] = slots
  copy_to slots i (x ∷ xs) = copy_to (set slots i (some x)) (suc i) xs

  -- the second copy of `send_from_slice`: what is left after `n1` items, to the start of the ring
  unfoldable pub copy_rest : List A → ℕ → ℕ → List (Option A) → ℕ × List (Option A)
  copy_rest items n1 len1 slots = elim (checked_sub (length items) n1) [
    | some rest ↦ (min len1 rest, copy_to slots 0 (take (min len1 rest) (drop n1 items)))
    | none ↦ (0, slots)
  ]

  unfoldable pub send_from_slice : Channel A → List A → ℕ × Channel A
  send_from_slice c items =
      let (len0, len1) = free_regions c in
      let n1 = min len0 (length items) in
      let (n2, slots) = copy_rest items n1 len1 (copy_to c.slots c.write (take n1 items)) in
      let n = add_usize n1 n2 in
      (n, record c { slots = slots; write = add_usize c.write n % size c })

  -- the test by which `send` refuses
  abbrev pub lacks_room : Channel A → ℕ → Bool
  lacks_room c reserve =
      ltb (sub_usize (add_usize (add_usize c.write reserve) 1 % size c) c.read)
        (add_usize reserve 1)

  unfoldable pub send : Channel A → A → ℕ → SendResult A × Channel A
  send c x reserve = if lacks_room c reserve then (refused x, c) else (
    sent,
    record c { slots = set c.slots c.write (some x); write = add_usize c.write 1 % size c },
  )

  -- `Sender::is_closed`: the receiver has been dropped.
  unfoldable pub sender_is_closed : Channel A → Bool
  sender_is_closed c = not c.receiver

  -- `Receiver::is_closed`: the sender has been dropped.
  unfoldable pub receiver_is_closed : Channel A → Bool
  receiver_is_closed c = not c.sender

  unfoldable pub readable_len : Channel A → ℕ
  readable_len c =
      if leb c.read c.write
      then sub_usize c.write c.read
      else sub_usize (add_usize c.write (size c)) c.read

  unfoldable pub update : Channel A → Channel A
  update c = record c { len = readable_len c }

  -- the slots that `Shared::release` drops in place, in order
  unfoldable pub dropped : List (Option A) → ℕ → ℕ → List (Option A)
  dropped slots i zero = []
  dropped slots i (suc n) = get_or slots (i % length slots) none ∷ dropped slots (add_usize i 1) n

  -- `Shared::release`, with what it drops
  unfoldable pub shared_release : Channel A → ℕ → List (Option A) × Channel A
  shared_release c n = (dropped c.slots c.read n, record c { read = add_usize c.read n % size c })

  -- `none` is the panic of the assertion that `n` is at most the receiver's length.
  unfoldable pub release : Channel A → ℕ → Option (List (Option A) × Channel A)
  release c n =
      let k = min c.len n in
      let (gone, c') = shared_release c k in
      if leb n c.len then some (gone, record c' { len = sub_usize c.len k }) else none

  -- The outer option is `pop`'s result, the inner one what the slot held.
  unfoldable pub pop : Channel A → Option (Option A) × Channel A
  pop c = if c.len == 0 then (none, c) else (
    some (get_or c.slots c.read none),
    record c { read = add_usize c.read 1 % size c; len = sub_usize c.len 1 },
  )

  -- `Index::index`; the outer `none` is the panic of its assertion.
  unfoldable pub index : Channel A → ℕ → Option (Option A)
  index c i = if ltb i c.len then some (get_or c.slots (add_usize c.read i % size c) none) else none

  -- `Drain` pops until the receiver has nothing left; one round for each item.
  unfoldable pub drain : ℕ → Channel A → List (Option A) × Channel A
  drain zero c = ([], c)
  drain (suc fuel) c =
      let (x, c') = pop c in
      let rest = drain fuel c' in elim x [ none ↦ ([], c') | some v ↦ (v ∷ rest.0, rest.1) ]

  -- `Drain::size_hint` and `Drain::len`
  unfoldable pub size_hint : Channel A → ℕ × Option ℕ
  size_hint c = (c.len, some c.len)

  unfoldable pub drop_sender : Channel A → Channel A
  drop_sender c = record c { sender = false }

  unfoldable pub drop_receiver : Channel A → Channel A
  drop_receiver c = record c { receiver = false }

  -- `Drop for Shared`, when both ends are gone
  unfoldable pub drop_shared : Channel A → List (Option A) × Channel A
  drop_shared c = shared_release c (readable_len c)
