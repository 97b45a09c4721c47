-- ===== src/Spatial/Tests.antt =====
-- A scene with two seekable signals.
use oddio.Base.{ℕ, true, List, [], ◌∷◌}
use oddio.Float.Natural.{natural}
use oddio.Signal.{Seek}
use oddio.Vector.{Vec3}
use oddio.Spatial.{SpatialOptions}
use oddio.Spatial.Perform.{Call, play, set_motion, set_listener_rotation, sample}

abbrev still : Vec3 ℕ
still = record { x = 1; y = 2; z = 3 }

abbrev options : SpatialOptions ℕ
options = record { position = still; velocity = still; radius = 1 }

abbrev counting_seek : Seek ℕ ℕ
counting_seek = record { seek = λ s t. s }

abbrev scene_calls : List (Call ℕ ℕ)
scene_calls =
    play 5 options
    ∷ play 7 options
    ∷ sample 1 ((0, 0) ∷ (0, 0) ∷ [])
    ∷ set_motion 1 (record { position = still; velocity = still; discontinuity = true })
    ∷ set_listener_rotation (record { s = 1; v = still })
    ∷ sample 1 ((0, 0) ∷ [])
    ∷ []
