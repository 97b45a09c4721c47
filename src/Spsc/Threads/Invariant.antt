-- ===== src/Spsc/Threads/Invariant.antt =====
-- What holds of the two threads of a channel between any two accesses.
use oddio.Base.{
  ℕ, ◌+◌, ◌%◌, ◌≤◌, ◌<◌, ◌≡◌, refl, sym, ◌∙◌, false, Option, none, some, List, [], ◌∷◌, ◌++◌, arith,
  length, length-set, length-append, length-drop, get_or, get_elem?, set, drop, map, leb, add_usize,
  sub_usize, mod_once,
}
use oddio.Spsc.{Channel, size, lacks_room, update}
use oddio.Spsc.Window.{Holds, Window-set, Window-prefix, Window-snoc}
use oddio.Spsc.Send.{lacks_room_num}
use oddio.Spsc.Threads.{Phase, idle, loaded, filled, System}

module _ {ℓ} {A : Type ℓ} where
  -- A slot that is written past the items leaves them where they are.
  pub fill-Holds :
      (c : Channel A) (xs : List A) (x : A)
      → Holds c xs
      → length xs + 1 < size c
      → Holds (record c { slots = set c.slots c.write (some x) }) xs
  fill-Holds c xs x h r =
      let same = length-set c.slots c.write (some x) in
      record {
        small = omega (arith, same, h.small);
        read_in = omega (arith, same, h.read_in);
        room = omega (arith, same, h.room);
        write_at = rw same h.write_at;
        seen = h.seen;
        held = rw same (
            Window-prefix (size c) (set c.slots c.write (some x)) c.read xs (x ∷ []) (
              Window-set (size c) c.slots c.read c.write xs x (omega arith) h.read_in h.room
                h.write_at h.held));
      }

  pub publish-Holds :
      (c : Channel A) (xs : List A) (x : A)
      → Holds c xs
      → length xs + 1 < size c
      → get_or c.slots c.write none ≡ some x
      → Holds (record c { write = add_usize c.write 1 % size c }) (xs ++ x ∷ [])
  publish-Holds c xs x h r e =
      let longer = length-append xs (x ∷ []) in
      record {
        small = h.small;
        read_in = h.read_in;
        room = omega (arith, longer);
        write_at = omega (
          arith,
          longer,
          mod_once (c.read + length xs) (size c),
          mod_once (add_usize c.write 1) (size c),
          mod_once (c.read + length (xs ++ x ∷ [])) (size c),
        );
        seen = omega (arith, longer);
        held =
            Window-snoc (size c) c.slots c.read xs x h.read_in h.room h.held (rw h.write_at at e);
      }

module _ {ℓ} {A : Type ℓ} where
  -- What the receiver has read is the oldest item, which it has seen.
  abbrev pub TakenOk : Channel A → List A → Option (Option A) → Type ℓ
  TakenOk c xs none = Unit
  TakenOk c xs (some v) = (0 < c.len) × (v ≡ get_elem? xs 0)

  pub TakenOk-mono :
      (c c' : Channel A) (xs xs' : List A) (v : Option (Option A))
      → c.len ≤ c'.len
      → (0 < c.len → get_elem? xs 0 ≡ get_elem? xs' 0)
      → TakenOk c xs v
      → TakenOk c' xs' v
  TakenOk-mono c c' xs xs' none l e ok = tt
  TakenOk-mono c c' xs xs' (some v) l e (pos, at) = (omega arith, at ∙ e pos)

  pub first-append :
      (xs : List A) (x : A) → 0 < length xs → get_elem? xs 0 ≡ get_elem? (xs ++ x ∷ []) 0
  first-append [] x h = absurd (omega arith)
  first-append (y ∷ ys) x h = refl

module _ {ℓ} {A : Type ℓ} (reserve : ℕ) where
  -- What the sender may rely on. A read index seen earlier is `k` items behind the receiver.
  abbrev pub SenderOk : Channel A → List A → Phase A → Type ℓ
  SenderOk c xs idle = Unit
  SenderOk c xs (loaded r x) =
      (k : ℕ) × (r < size c)
      × ((r + k) % size c ≡ c.read)
      × (length xs + k + reserve < size c)
      × Unit {ℓ}
  SenderOk c xs (filled x) =
      (length xs + 1 + reserve < size c) × (get_or c.slots c.write none ≡ some x)

  pub record IsSafe (s : System A) : Type ℓ where
    pub items : List A
    pub holds : Holds s.chan items
    pub history : map some s.sent_log ≡ s.got_log ++ map some items
    pub reserved : length items + reserve < size s.chan
    pub sender_ok : SenderOk s.chan items s.phase
    pub taken_ok : TakenOk s.chan items s.taken

  pub SenderOk-renew :
      (c : Channel A) (xs : List A) (p : Phase A) → SenderOk c xs p → SenderOk (update c) xs p
  unfolding update
  SenderOk-renew c xs idle h = tt
  SenderOk-renew c xs (loaded r x) h = h
  SenderOk-renew c xs (filled x) h = h

  pub SenderOk-pass :
      (c : Channel A) (xs : List A) (p : Phase A)
      → Holds c xs
      → 0 < c.len
      → SenderOk c xs p
      → SenderOk
          (record c { read = add_usize c.read 1 % size c; len = sub_usize c.len 1 })
          (drop 1 xs)
          p
  SenderOk-pass c xs idle h l ok = tt
  SenderOk-pass c xs (loaded r x) h l (k, inside, at, free, u) =
      let fewer = length-drop 1 xs in
      (
        k + 1,
        inside,
        omega (
          arith,
          h.small,
          h.read_in,
          mod_once (r + k) (size c),
          mod_once (r + (k + 1)) (size c),
          mod_once (add_usize c.read 1) (size c),
        ),
        omega (arith, fewer, h.seen),
        tt,
      )
  SenderOk-pass c xs (filled x) h l (free, e) = (omega (arith, length-drop 1 xs, h.seen), e)

  -- The test on a read index seen earlier is safe: the receiver can only have freed more slots.
  pub fill_room :
      (c : Channel A) (xs : List A) (r k : ℕ)
      → Holds c xs
      → r < size c
      → (r + k) % size c ≡ c.read
      → length xs + k + reserve < size c
      → lacks_room (record c { read = r }) reserve ≡ false
      → length xs + k + 1 + reserve < size c
  fill_room c xs r k h inside at free test =
      let seen_at : c.write ≡ (r + (length xs + k)) % size c = omega (
        arith,
        h.write_at,
        h.room,
        h.read_in,
        mod_once (r + k) (size c),
        mod_once (c.read + length xs) (size c),
        mod_once (r + (length xs + k)) (size c),
      ) in
      let lacks =
        lacks_room_num (record c { read = r }) (length xs + k) reserve h.small inside seen_at
          free in
      let fits : leb (size c) (length xs + k + reserve + 1) ≡ false = sym lacks ∙ test in
      ground arith
