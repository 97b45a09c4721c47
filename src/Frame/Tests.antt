-- ===== src/Frame/Tests.antt =====
-- The operations on frames at concrete frames of two channels.
use oddio.Base.{ℕ, ◌-◌, ◌≡◌, some, get_elem?}
use oddio.Float.Natural.{natural}
use oddio.Frame.{Frame, stereo_frame, bimap}
use oddio.Frame.Laws.{channels-bimap, stereo-IsFrame}

channels-bimap_example :
    let fr : Frame ℕ (ℕ × ℕ) = stereo_frame in
    get_elem? (fr.channels (bimap fr (11, 22) (1, 20) (λ a b. a - b))) 1 ≡ some 2
channels-bimap_example =
    channels-bimap stereo_frame stereo-IsFrame (11, 22) (1, 20) (λ a b. a - b) 1
