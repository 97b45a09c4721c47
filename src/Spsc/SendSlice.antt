-- ===== src/Spsc/SendSlice.antt =====
-- `send_from_slice` appends as long a prefix as fits.
use oddio.Base.{
  false, ℕ, ◌+◌, ◌-◌, ◌%◌, ◌≤◌, ◌<◌, min, ◌≡◌, ◌⊎◌, inl, inr, take-append-take-drop, ap, sym, ◌∙◌,
  Option, List, [], ◌∷◌, ◌++◌, append-nil, arith, length, length-take, length-drop, length-append,
  take, drop, ltb, add_usize, mod_once,
}
use oddio.Spsc.{Channel, size, free, free_regions, copy_to, copy_rest, send_from_slice}
use oddio.Spsc.Window.{Holds}
use oddio.Spsc.Fill.{fill, copy_to-eq-fill, fill-append, length-fill, Window-fill}
use oddio.Spsc.Send.{free-Holds}

module _ {ℓ} {A : Type ℓ} where
  -- The two regions are the free slots, and the second is used only once the first reaches the end.
  free_regions_lem :
      (c : Channel A) (xs : List A)
      → Holds c xs
      → let (len0, len1) = free_regions c in
        (len0 + len1 ≡ free c)
        × (c.write + len0 ≤ size c)
        × ((len1 ≡ 0) ⊎ (c.write + len0 ≡ size c))
  unfolding free_regions free
  free_regions_lem c xs h = ground (arith, mod_once (c.read + length xs) (size c))

  -- The two copies write one sequence round the ring.
  copy_twice :
      (n : ℕ) (slots : List (Option A)) (w : ℕ) (xs ys : List A)
      → w < n
      → length xs + length ys < n
      → w + length xs ≤ n
      → (length ys ≡ 0) ⊎ (w + length xs ≡ n)
      → copy_to (copy_to slots w xs) 0 ys ≡ fill n slots w (xs ++ ys)
  unfolding copy_to
  copy_twice n slots w xs [] p q r e =
      copy_to-eq-fill n slots w xs r
      ∙ rw append-nil (ap (λ i. fill n slots i xs) (omega (arith, mod_once w n)))
  copy_twice n slots w xs (y ∷ ys) p q r (inl e) = absurd (omega arith)
  copy_twice n slots w xs (y ∷ ys) p q r (inr e) =
      let at : w % n ≡ w = omega (arith, mod_once w n) in
      let zero_at : 0 % n ≡ (w + length xs) % n =
        omega (arith, mod_once 0 n, mod_once (w + length xs) n) in
      copy_to-eq-fill n (copy_to slots w xs) 0 (y ∷ ys) (omega arith)
      ∙ ap (λ s. fill n s (0 % n) (y ∷ ys)) (copy_to-eq-fill n slots w xs r)
      ∙ rw (at, zero_at) (sym (fill-append n slots w xs (y ∷ ys) p (omega arith)))

  -- What a channel is once `ys` have been copied behind its items.
  filled-Holds :
      (c : Channel A) (xs ys : List A) (n : ℕ)
      → Holds c xs
      → length ys ≡ n
      → length xs + n < size c
      → Holds
          (record c {
            slots = fill (size c) c.slots c.write ys;
            write = add_usize c.write n % size c;
          })
          (xs ++ ys)
  filled-Holds c xs ys n h e r =
      let same = length-fill (size c) c.slots c.write ys in
      let longer = length-append xs ys in
      record {
        small = omega (arith, same);
        read_in = omega (arith, same);
        room = omega (arith, same, longer);
        write_at = rw same (
            omega (
              arith,
              longer,
              mod_once (c.read + length xs) (size c),
              mod_once (add_usize c.write n) (size c),
              mod_once (c.read + length (xs ++ ys)) (size c),
            ));
        seen = omega (arith, longer);
        held = rw same (
            Window-fill (size c) c.slots c.read c.write xs ys (omega arith) h.read_in (omega arith)
              h.write_at h.held);
      }

  copy_rest_lem :
      (items : List A) (n1 len1 : ℕ) (slots : List (Option A))
      → n1 ≤ length items
      → let n2 = min len1 (length items - n1) in
        copy_rest items n1 len1 slots ≡ (n2, copy_to slots 0 (take n2 (drop n1 items)))
  unfolding copy_rest
  copy_rest_lem items n1 len1 slots h =
      let enough : ltb (length items) n1 ≡ false = ground arith in rw (enough, copy_rest)

  -- On a channel that holds given items, `send_from_slice` returns the smaller of the free slots and the
  -- length of the slice, and the channel then holds the items followed by that prefix of the slice.
  pub send_from_slice_lem :
      (c : Channel A) (xs items : List A)
      → Holds c xs
      → let (n, c') = send_from_slice c items in
        (n ≡ min (free c) (length items)) × Holds c' (xs ++ take n items)
  unfolding send_from_slice
  send_from_slice_lem c xs items h =
      let (len0, len1) = free_regions c in
      let regions = free_regions_lem c xs h in
      let n1 = min len0 (length items) in
      let n2 = min len1 (length items - n1) in
      let free_lt = free-Holds c xs h in
      let first = length-take n1 items in
      let second = length-take n2 (drop n1 items) in
      let remaining = length-drop n1 items in
      let plain : add_usize n1 n2 ≡ n1 + n2 = omega arith in
      let both = take-append-take-drop n1 n2 items in
      let total : n1 + n2 ≡ min (free c) (length items) = omega arith in
      let copied =
        copy_twice (size c) c.slots c.write (take n1 items) (take n2 (drop n1 items)) (omega arith)
          (omega arith) (omega arith) (omega arith) in
      rw
        (
          copy_rest_lem items n1 len1 (copy_to c.slots c.write (take n1 items)) (omega arith),
          plain,
          copied,
          both,
        )
        (
          total,
          filled-Holds c xs (take (n1 + n2) items) (n1 + n2) h
              (omega (arith, length-take (n1 + n2) items)) (omega arith),
        )
