-- ===== src/Downmix/Tests.antt =====
-- The frames that a downmixed counting signal is advanced by.
use oddio.Base.{◌≡◌, [], ◌∷◌, length}
use oddio.Float.Natural.{natural}
use oddio.Frame.{sample_frame}
use oddio.Signal.Counting.{counting, counting-KeepsLength}
use oddio.Downmix.{sample}
use oddio.Downmix.Consumed.{counted, downmix_consumed}

downmix_consumed_example :
    let (frames, s') = sample sample_frame (counted counting) (0, 0) 1 (9 ∷ 9 ∷ 9 ∷ []) in
    (length frames ≡ 3) × (s'.1 ≡ 256)
downmix_consumed_example =
    downmix_consumed sample_frame counting counting-KeepsLength 0 0 1 (9 ∷ 9 ∷ 9 ∷ [])
