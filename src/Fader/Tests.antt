-- ===== src/Fader/Tests.antt =====
-- A fader between two counting signals.
use oddio.Base.{ℕ, ◌+◌, ◌-◌, ◌≤◌, ◌≡◌, refl, some, length, arith, List, [], ◌∷◌}
use oddio.Float.Natural.{natural}
use oddio.Frame.{sample_frame}
use oddio.Signal.Counting.{counting, counting-KeepsLength}
use oddio.Downmix.Consumed.{counted}
use oddio.Fader.Consumed.{fader_consumed}
use oddio.Fader.{Fading, new, fade_loop}
use oddio.Fader.Safe.{Call, fade, play, run, fader_total}

abbrev calls : List (Call ℕ ℕ ℕ)
calls = play 1 (0 ∷ 0 ∷ []) ∷ fade 50 1 ∷ fade 70 1 ∷ play 1 (0 ∷ 0 ∷ 0 ∷ []) ∷ []

fader_total_example :
    (frames : List (List ℕ)) × (run sample_frame counting (new 3) calls ≡ some frames)
fader_total_example = fader_total sample_frame counting 3 calls refl

abbrev halfway : Fading ℕ (ℕ × ℕ)
halfway = record { progress = 0; inner = (5, 0); fade = (50, 0) }

fader_consumed_example :
    let (frames, end) = fade_loop sample_frame (counted counting) 3 1 0 halfway (9 ∷ 9 ∷ 9 ∷ []) in
    (length frames ≡ 3) × (end.inner.1 ≡ 1024) × (0 + 3 + (3 - 1024) ≤ end.fade.1)
fader_consumed_example =
    fader_consumed sample_frame counting counting-KeepsLength 3 1 0 halfway (9 ∷ 9 ∷ 9 ∷ [])
      (omega arith)
