-- ===== src/Signal/Tests.antt =====
-- The unit test of src/signal.rs.
use oddio.Base.{ℕ, ◌≡◌, List, [], ◌∷◌, map, length}
use oddio.Signal.{mono_to_stereo_sample, flatten_stereo, frame_stereo}
use oddio.Signal.Interleaved.{stereo_round_trip}
use oddio.Signal.Counting.{counting, counting-KeepsLength}
use oddio.Signal.Stereo.{mono_to_stereo_lem}

abbrev four_frames : List (ℕ × ℕ)
four_frames = (9, 9) ∷ (9, 9) ∷ (9, 9) ∷ (9, 9) ∷ []

mono_to_stereo_lem_example :
    mono_to_stereo_sample counting 0 1 four_frames ≡ (map (λ x. (x, x)) (0 ∷ 1 ∷ 2 ∷ 3 ∷ []), 4)
unfolding flatten_stereo
mono_to_stereo_lem_example = mono_to_stereo_lem counting 0 1 four_frames counting-KeepsLength

abbrev five_samples : List ℕ
five_samples = 1 ∷ 2 ∷ 3 ∷ 4 ∷ 5 ∷ []

stereo_round_trip_example :
    (frame_stereo (flatten_stereo four_frames) ≡ four_frames)
    × (flatten_stereo (frame_stereo five_samples) ≡ 1 ∷ 2 ∷ 3 ∷ 4 ∷ [])
    × (length (frame_stereo five_samples) ≡ 2)
stereo_round_trip_example = stereo_round_trip four_frames five_samples
