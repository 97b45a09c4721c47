-- ===== src/Spsc/Receive.antt =====
-- What the receiver gets from a channel that holds given items.
use oddio.Base.{
  ◌⊎◌, inl, inr, Bool-cases, if◌then◌else◌, ℕ, zero, suc, ◌+◌, ◌%◌, ◌≤◌, ◌<◌, min, ◌≡◌, take-all,
  refl, ap, ap₂, ◌∙◌, true, false, Option, none, some, List, [], ◌∷◌, arith, length, length-drop,
  false, leb, get_elem?, take, drop, map, ltb, ◌==◌, add_usize, sub_usize, mod_once, max_len,
}
use oddio.Spsc.{
  Channel, size, update, dropped, shared_release, release, pop, index, drain, drop_shared,
}
use oddio.Spsc.Window.{Window, Holds, Window-drop, Window-get, mod-lt}
use oddio.Spsc.Send.{readable_len-Holds}

module _ {ℓ} {A : Type ℓ} where
  -- `update` on a channel that holds given items keeps them and shows the receiver all of them, never
  -- fewer than before.
  pub update_lem :
      (c : Channel A) (xs : List A)
      → Holds c xs
      → Holds (update c) xs × ((update c).len ≡ length xs) × (c.len ≤ (update c).len)
  unfolding update
  update_lem c xs h =
      let all = readable_len-Holds c xs h in
      (
        record {
          small = h.small;
          read_in = h.read_in;
          room = h.room;
          write_at = h.write_at;
          seen = omega arith;
          held = h.held;
        },
        all,
        omega arith,
      )

  -- Once the first `k` items are passed over, the others are held.
  pub passed-Holds :
      (c : Channel A) (xs : List A) (k : ℕ)
      → Holds c xs
      → k ≤ c.len
      → Holds (record c { read = add_usize c.read k % size c; len = sub_usize c.len k }) (drop k xs)
  passed-Holds c xs k h r =
      let fewer = length-drop k xs in
      let plain : add_usize c.read k ≡ c.read + k = omega arith in
      record {
        small = h.small;
        read_in = omega (arith, mod_once (add_usize c.read k) (size c));
        room = omega (arith, fewer);
        write_at = omega (
          arith,
          fewer,
          mod_once (c.read + length xs) (size c),
          mod_once (add_usize c.read k) (size c),
          mod_once (add_usize c.read k % size c + length (drop k xs)) (size c),
        );
        seen = omega (arith, fewer);
        held =
            rw plain
              (Window-drop (size c) c.slots c.read k xs h.read_in h.room (omega arith) h.held);
      }

  -- `pop` by what the receiver has seen.
  pub pop_lem :
      (c : Channel A) (xs : List A)
      → Holds c xs
      → (c.len ≡ 0 → pop c ≡ (none, c))
        × (0 < c.len
            → ((pop c).0 ≡ some (get_elem? xs 0))
              × Holds (pop c).1 (drop 1 xs)
              × ((pop c).1.len + 1 ≡ c.len))
  unfolding pop
  pop_lem c xs h = (
    λ e. let empty : (c.len == 0) ≡ true = ground arith in rw empty,
    λ p.
        let more : (c.len == 0) ≡ false = ground arith in
        let at : (c.read + 0) % size c ≡ c.read = omega (arith, mod_once (c.read + 0) (size c)) in
        rw more (
          ap some (
              rw at at
                (Window-get (size c) c.slots c.read 0 xs h.read_in h.room (omega arith) h.held)),
          passed-Holds c xs 1 h p,
          omega arith,
        ),
  )

  -- `index` within and past what the receiver has seen.
  pub index_lem :
      (c : Channel A) (xs : List A) (i : ℕ)
      → Holds c xs
      → (i < c.len → index c i ≡ some (get_elem? xs i)) × (c.len ≤ i → index c i ≡ none)
  unfolding index
  index_lem c xs i h = (
    λ p.
        let inside : ltb i c.len ≡ true = ground arith in
        let plain : add_usize c.read i ≡ c.read + i = omega arith in
        rw (inside, plain)
          (ap some (Window-get (size c) c.slots c.read i xs h.read_in h.room (omega arith) h.held)),
    λ p. let outside : ltb i c.len ≡ false = ground arith in rw outside,
  )

  -- On a channel that holds given items, an index below the number of items that the receiver has seen
  -- gives that item, counted from the oldest; any other index panics.
  pub index_seen_lem :
      (c : Channel A) (xs : List A) (i : ℕ)
      → Holds c xs
      → index c i ≡ (if ltb i c.len then some (get_elem? xs i) else none)
  index_seen_lem c xs i h =
      let (inside, outside) = index_lem c xs i h in
      elim (Bool-cases (ltb i c.len)) [
        | inl e ↦ rw e (inside (ground arith))
        | inr e ↦ rw e (outside (ground arith))
      ]

  -- What is dropped from the start of a window is its first items.
  dropped-Window :
      (slots : List (Option A)) (h k i : ℕ) (xs : List A)
      → length slots ≤ max_len
      → h < length slots
      → i + k < length slots + length slots
      → i % length slots ≡ h
      → k ≤ length xs
      → Window (length slots) slots h xs
      → dropped slots i k ≡ map some (take k xs)
  unfolding dropped
  dropped-Window slots h zero i xs s p q e r v = refl
  dropped-Window slots h (suc k) i [] s p q e r v = absurd (omega arith)
  dropped-Window slots h (suc k) i (x ∷ xs) s p q e r (v, vs) =
      let next : add_usize i 1 % length slots ≡ (h + 1) % length slots = omega (
        arith,
        mod_once i (length slots),
        mod_once (add_usize i 1) (length slots),
        mod_once (h + 1) (length slots),
      ) in
      rw e (
        ap₂ ◌∷◌ v (
          dropped-Window slots ((h + 1) % length slots) k (add_usize i 1) xs s (mod-lt _ h p)
            (omega arith) next (omega arith) vs))

  -- `release` by what the receiver has seen.
  pub release-Holds :
      (c : Channel A) (xs : List A) (n : ℕ)
      → Holds c xs
      → (n ≤ c.len
          → (c' : Channel A) × (release c n ≡ some (map some (take n xs), c'))
            × Holds c' (drop n xs)
            × (c'.len + n ≡ c.len)
            × (size c' ≡ size c))
        × (c.len < n → release c n ≡ none)
  unfolding release shared_release
  release-Holds c xs n h = (
    λ p.
        let all : min c.len n ≡ n = omega arith in
        let allowed : leb n c.len ≡ true = ground arith in
        let gone =
          dropped-Window c.slots c.read n c.read xs h.small h.read_in
            (omega (arith, h.room, h.seen)) (omega (arith, mod_once c.read (size c)))
            (omega (arith, h.seen)) h.held in
        (
          record c { read = add_usize c.read n % size c; len = sub_usize c.len n },
          rw (allowed, all, gone) refl,
          passed-Holds c xs n h p,
          omega (arith, h.room, h.seen, h.small),
          refl,
        ),
    λ p. let refused : leb n c.len ≡ false = ground arith in rw refused refl,
  )

  -- On a channel that holds given items, `release` of at most as many items as the receiver has seen
  -- drops that many, the oldest ones in order, and the channel then holds the others; of more, it
  -- panics on its assertion.
  pub release_lem :
      (c : Channel A) (xs : List A) (n : ℕ)
      → Holds c xs
      → ((n ≤ c.len)
          × (c' : Channel A) × (release c n ≡ some (map some (take n xs), c'))
          × Holds c' (drop n xs)
          × (c'.len + n ≡ c.len))
        ⊎ ((c.len < n) × (release c n ≡ none))
  release_lem c xs n h =
      let (fits, over) = release-Holds c xs n h in
      elim (Bool-cases (leb n c.len)) [
        | inl e ↦
            let p : n ≤ c.len = ground arith in
            let (c', ran, held, count, same) = fits p in inl (p, c', ran, held, count)
        | inr e ↦ let p : c.len < n = ground arith in inr (p, over p)
      ]

  -- Dropping the shared block of a channel that holds given items drops exactly those, in order.
  pub drop_shared_lem : (c : Channel A) (xs : List A) → Holds c xs → (drop_shared c).0 ≡ map some xs
  unfolding drop_shared shared_release
  drop_shared_lem c xs h = rw (readable_len-Holds c xs h) (
      dropped-Window c.slots c.read (length xs) c.read xs h.small h.read_in (omega (arith, h.room))
        (omega (arith, mod_once c.read (size c))) (omega arith) h.held
      ∙ ap (map some) (take-all xs))

  drain_count :
      (c : Channel A) (xs : List A) (n fuel : ℕ)
      → Holds c xs
      → c.len ≡ n
      → n < fuel
      → let (got, c') = drain fuel c in
        (got ≡ map some (take n xs)) × Holds c' (drop n xs) × (c'.len ≡ 0)
  unfolding drain
  drain_count c xs n zero h e p = absurd (omega arith)
  drain_count c xs zero (suc fuel) h e p =
      let empty = (pop_lem c xs h).0 e in
      let left : Holds (pop c).1 xs = rw empty h in
      let none_left : (pop c).1.len ≡ 0 = rw empty e in
      rw (ap (λ r. r.0) empty, drain) (refl, left, none_left)
  drain_count c [] (suc n) (suc fuel) h e p = absurd (omega (arith, h.seen))
  drain_count c (x ∷ xs) (suc n) (suc fuel) h e p =
      let (got, left, count) = (pop_lem c (x ∷ xs) h).1 (omega arith) in
      let (more, rest, none_left) =
        drain_count (pop c).1 xs n fuel left (omega arith) (omega arith) in
      rw (got, drain) (ap (◌∷◌ (some x)) more, rest, none_left)

  -- On a channel that holds given items, draining ends within one round more than the receiver has
  -- seen items, yields those, oldest first, and leaves the others in the channel.
  pub drain_lem :
      (c : Channel A) (xs : List A) (fuel : ℕ)
      → Holds c xs
      → c.len < fuel
      → let (got, c') = drain fuel c in
        (got ≡ map some (take c.len xs)) × Holds c' (drop c.len xs) × (c'.len ≡ 0)
  drain_lem c xs fuel h p = drain_count c xs c.len fuel h refl p
