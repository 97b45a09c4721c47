-- ===== src/Ring/Tests.antt =====
-- Reading a ring of three samples past its end.
use oddio.Base.{
  none, zero, suc, get_elem?, ltb, ◌>>=◌, if◌then◌else◌, refl, ℕ, ◌≡◌, some, List, [], ◌∷◌, arith,
  length,
}
use oddio.Base.Int.{ℤ, pos, negsuc, ◌+ℤ◌, ◌-ℤ◌, ◌*ℤ◌}
use oddio.Float.Natural.{natural}
use oddio.Float.Integer.{integer}
use oddio.Signal.Counting.{counting, counting-KeepsLength}
use oddio.Ring.{Ring, locate, sample, write}
use oddio.Ring.Fill.{IsReady, ring_write_lem}
use oddio.Ring.Wrap.{ring_locate_lem, ring_sample_lem, Converts, offset_at, read_at}

abbrev ring : Ring ℕ
ring = record { buffer = 10 ∷ 20 ∷ 30 ∷ []; write = 2 }

ring_locate_lem_example : locate ring.buffer 5 ≡ some ((30, 10), 0, 2)
ring_locate_lem_example = ring_locate_lem ring.buffer 5 (omega arith) (omega arith)

-- Read from one sample before the cursor, past the end of the buffer.
abbrev past : Ring ℤ
past = record { buffer = pos 10 ∷ pos 20 ∷ pos 30 ∷ []; write = pos 0 }

-- Both offsets, 2 and 3, are converted.
past-Converts : Converts past.buffer (pos 1) (pos 2) 2
unfolding Converts offset_at ◌+ℤ◌ ◌-ℤ◌
past-Converts zero p = (2, refl)
past-Converts (suc zero) p = (3, refl)
past-Converts (suc (suc i)) p = absurd (omega arith)

ring_sample_lem_example :
    (frames : List ℤ) × (sample past 1 (negsuc 0) (pos 1) (pos 0 ∷ pos 0 ∷ []) ≡ some frames)
    × (length frames ≡ 2)
    × ((i : ℕ)
        → get_elem? frames i ≡ (
            if ltb i 2
            then (offset_at past.buffer (pos 1) (pos 2) i >>= read_at past.buffer)
            else none))
unfolding ◌+ℤ◌ ◌-ℤ◌ ◌*ℤ◌
ring_sample_lem_example =
    ring_sample_lem past 1 (negsuc 0) (pos 1) (pos 0 ∷ pos 0 ∷ []) (omega arith) (omega arith) refl
      past-Converts

ring_write_lem_example :
    (r : Ring ℕ) × (s : ℕ) × (write counting ring 9 1 2 ≡ some (r, s))
    × IsReady r
    × (length r.buffer ≡ 3)
ring_write_lem_example =
    ring_write_lem counting counting-KeepsLength ring 9 1 2
      (record { within = λ x n p q. ground arith })
      (record { some_left = omega arith; small = omega arith; inside = omega arith }) refl
