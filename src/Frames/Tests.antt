-- ===== src/Frames/Tests.antt =====
-- The pairs of frames of src/frames.rs at concrete positions.
use oddio.Base.{
  get_elem?, ltb, if◌then◌else◌, zero, suc, refl, List, length, ℕ, ◌≡◌, none, some, [], ◌∷◌, arith,
}
use oddio.Base.Int.{pos, negsuc, ◌+ℤ◌}
use oddio.Float.Natural.{natural}
use oddio.Frame.{Frame, sample_frame}
use oddio.Frames.{FramesSignal, get_pair, sample}
use oddio.Float.{Widen}
use oddio.Frames.Play.{Converts, offset_at, converted, frames_sample_lem}
use oddio.Frames.Pair.{frame_at, get_pair_lem, get_pair-empty}

abbrev mono : Frame ℕ ℕ
mono = sample_frame

get_pair_lem_example : get_pair mono (1 ∷ 2 ∷ 3 ∷ []) (pos 2) ≡ some (3, 0)
unfolding frame_at ◌+ℤ◌
get_pair_lem_example = get_pair_lem mono (1 ∷ 2 ∷ 3 ∷ []) (pos 2) (omega arith) (omega arith)

get_pair-empty_example :
    (get_pair mono [] (pos 4) ≡ none)
    × (get_pair mono [] (negsuc 0) ≡ none)
    × (get_pair mono [] (negsuc 5) ≡ some (0, 0))
get_pair-empty_example = get_pair-empty mono 4 (omega arith)

instance abbrev same_width : Widen ℕ ℕ
same_width = record { widen = λ a. a; narrow = λ a. a }

abbrev playing : FramesSignal ℕ ℕ
playing = record { frames = record { rate = 1; samples = 1 ∷ 2 ∷ 3 ∷ [] }; t = 1; sample_t = pos 1 }

-- Both offsets, 0 and 2, are converted.
two_positions : Converts {F = ℕ} (pos 1) 2 0 2
unfolding Converts offset_at ◌+ℤ◌
two_positions zero p = (pos 0, refl, refl)
two_positions (suc zero) p = (pos 2, refl, refl)
two_positions (suc (suc i)) p = absurd (omega arith)

-- Two frames at twice the rate, from the position 1 on.
frames_sample_lem_example :
    (frames : List ℕ) × (sample mono playing 2 (0 ∷ 0 ∷ [])
      ≡ some (frames, record playing { t = 5; sample_t = pos 5 }))
    × (length frames ≡ 2)
    × ((i : ℕ)
        → get_elem? frames i
          ≡ (if ltb i 2 then converted mono (1 ∷ 2 ∷ 3 ∷ []) (pos 1) 2 0 i else none))
unfolding Converts offset_at ◌+ℤ◌
frames_sample_lem_example =
    frames_sample_lem mono playing 2 (0 ∷ 0 ∷ []) (omega arith) (omega arith) (λ x. ground arith)
      (omega arith) (λ e. two_positions)
