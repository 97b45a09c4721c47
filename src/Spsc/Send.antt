-- ===== src/Spsc/Send.antt =====
-- Each operation of a channel against a queue of items.
use oddio.Base.{
  ◌⊎◌, inl, inr, Bool-cases, ltb, ℕ, ◌+◌, ◌%◌, ◌≤◌, ◌<◌, ◌≡◌, refl, ◌∙◌, true, false, Option, none,
  some, List, [], ◌∷◌, ◌++◌, arith, length, length-set, length-append, length-replicate, set,
  replicate, leb, add_usize, mod_once, max_len,
}
use oddio.Spsc.{
  Channel, sent, refused, size, channel, capacity, free, lacks_room, send, readable_len,
}
use oddio.Spsc.Window.{Holds, Window-set}

pub size-channel {ℓ} : (A : Type ℓ) (n : ℕ) → n < max_len → size (channel {A = A} n) ≡ n + 1
unfolding channel
size-channel A n h = omega (arith, length-replicate {A = Option A} (add_usize n 1) none)

module _ {ℓ} {A : Type ℓ} where
  pub channel-Holds : (n : ℕ) → n < max_len → Holds (channel {A = A} n) []
  unfolding channel
  channel-Holds n h =
      let slots : List (Option A) = replicate (add_usize n 1) none in
      let big : length slots ≡ n + 1 =
        omega (arith, length-replicate {A = Option A} (add_usize n 1) none) in
      record {
        small = omega (arith, big);
        read_in = omega (arith, big);
        room = omega (arith, big);
        write_at = omega (arith, big, mod_once 0 (length slots));
        seen = omega arith;
        held = tt;
      }

  -- What `readable_len` computes is the number of items.
  pub readable_len-Holds : (c : Channel A) (xs : List A) → Holds c xs → readable_len c ≡ length xs
  unfolding readable_len
  readable_len-Holds c xs h = ground (arith, mod_once (c.read + length xs) (size c))

  -- In a channel that holds given items, `free` and the items together are one slot short of the ring.
  pub free-Holds : (c : Channel A) (xs : List A) → Holds c xs → free c + length xs + 1 ≡ size c
  unfolding free
  free-Holds c xs h = ground (arith, mod_once (c.read + length xs) (size c))

  -- How many items the channel can ever hold.
  pub capacity-eq : (c : Channel A) (xs : List A) → Holds c xs → capacity c + 1 ≡ size c
  unfolding capacity
  capacity-eq c xs h = omega arith

  -- The test in numbers: with `n` items from `read` on and the reserve there, it refuses exactly when
  -- the item would eat into the reserve.
  pub lacks_room_num :
      (c : Channel A) (n reserve : ℕ)
      → size c ≤ max_len
      → c.read < size c
      → c.write ≡ (c.read + n) % size c
      → n + reserve < size c
      → lacks_room c reserve ≡ leb (size c) (n + reserve + 1)
  lacks_room_num c n reserve small inside at r =
      ground (arith, mod_once (c.read + n) (size c), mod_once (c.write + reserve + 1) (size c))

  lacks_room_lem :
      (c : Channel A) (xs : List A) (reserve : ℕ)
      → Holds c xs
      → length xs + reserve < size c
      → lacks_room c reserve ≡ leb (size c) (length xs + reserve + 1)
  lacks_room_lem c xs reserve h r =
      lacks_room_num c (length xs) reserve h.small h.read_in h.write_at r

  -- What a successful `send` leaves.
  pub sent-Holds :
      (c : Channel A) (xs : List A) (x : A)
      → Holds c xs
      → length xs + 1 < size c
      → Holds
          (record c { slots = set c.slots c.write (some x); write = add_usize c.write 1 % size c })
          (xs ++ x ∷ [])
  sent-Holds c xs x h r =
      let same = length-set c.slots c.write (some x) in
      let longer = length-append xs (x ∷ []) in
      record {
        small = omega (arith, same);
        read_in = omega (arith, same);
        room = omega (arith, same, longer);
        write_at = rw same (
            omega (
              arith,
              longer,
              mod_once (c.read + length xs) (size c),
              mod_once (add_usize c.write 1) (size c),
              mod_once (c.read + length (xs ++ x ∷ [])) (size c),
            ));
        seen = omega (arith, longer);
        held = rw same (
            Window-set (size c) c.slots c.read c.write xs x (omega arith) h.read_in h.room
              h.write_at h.held);
      }

  pub size-send : (c : Channel A) (x : A) (n : ℕ) → size (send c x n).1 ≡ size c
  unfolding send
  size-send c x n = ground (arith, length-set c.slots c.write (some x))

  -- `send` with a reserve that is still there, by the room that is left.
  pub send_lem :
      (c : Channel A) (xs : List A) (x : A) (reserve : ℕ)
      → Holds c xs
      → length xs + reserve < size c
      → (length xs + 1 + reserve < size c
          → ((send c x reserve).0 ≡ sent) × Holds (send c x reserve).1 (xs ++ x ∷ []))
        × (length xs + 1 + reserve ≡ size c → send c x reserve ≡ (refused x, c))
  unfolding send
  send_lem c xs x reserve h r =
      let test = lacks_room_lem c xs reserve h r in
      (
        λ p.
            let yes_room : lacks_room c reserve ≡ false = test ∙ (ground arith) in
            rw yes_room (refl, sent-Holds c xs x h (omega arith)),
        λ e. let no_room : lacks_room c reserve ≡ true = test ∙ (ground arith) in rw no_room,
      )

  -- In a channel that holds given items and still has the reserve free: a `send` that leaves the
  -- reserve is accepted, and the channel then holds the items with the new one last; a `send` that
  -- would eat into the reserve gives the item back and changes nothing.
  pub send_reserve_lem :
      (c : Channel A) (xs : List A) (x : A) (reserve : ℕ)
      → Holds c xs
      → length xs + reserve < size c
      → ((length xs + 1 + reserve < size c)
          × ((send c x reserve).0 ≡ sent)
          × Holds (send c x reserve).1 (xs ++ x ∷ []))
        ⊎ ((length xs + 1 + reserve ≡ size c) × (send c x reserve ≡ (refused x, c)))
  send_reserve_lem c xs x reserve h r =
      let (fits, full) = send_lem c xs x reserve h r in
      elim (Bool-cases (ltb (length xs + 1 + reserve) (size c))) [
        | inl e ↦
            let p : length xs + 1 + reserve < size c = ground arith in
            let (ok, held) = fits p in inl (p, ok, held)
        | inr e ↦ let p : length xs + 1 + reserve ≡ size c = ground arith in inr (p, full p)
      ]

  -- On a full channel whose write index is the last but one of the ring, a `send` with one slot in
  -- reserve is accepted although no slot is free, and afterwards the receiver finds the channel empty.
  pub send_loses_all :
      (c : Channel A) (xs : List A) (x : A)
      → Holds c xs
      → length xs + 1 ≡ size c
      → c.write + 2 ≡ size c
      → (free c ≡ 0) × ((send c x 1).0 ≡ sent) × (readable_len (send c x 1).1 ≡ 0)
  unfolding send free readable_len
  send_loses_all c xs x h full at =
      let yes_room : lacks_room c 1 ≡ false =
        ground (arith, mod_once (c.read + length xs) (size c), mod_once (c.write + 2) (size c)) in
      rw yes_room
        (ground (arith, mod_once (c.read + length xs) (size c), mod_once (c.write + 1) (size c)))
