-- ===== src/Spatial/Perform.antt =====
-- `sample` of a spatial scene (src/spatial.rs), and all calls together.
use oddio.Base.{ℕ, suc, ◌+◌, ◌<◌, Option, some, List, [], ◌∷◌, ◌>>=◌}
use oddio.Float.{Float}
use oddio.Signal.{Signal, Seek}
use oddio.Vector.{Quaternion}
use oddio.Swap
use oddio.Spatial
use oddio.Spatial.{Motion, SpatialOptions, Scene}
use oddio.Spatial.Render

-- a call on the control, on a handle (`set_motion`) or on the scene (`sample`)
pub data Call {ℓ} (F : Type 0) (S : Type ℓ) : Type ℓ where
  play : S → SpatialOptions F → Call F S
  set_motion : ℕ → Motion F → Call F S
  set_listener_rotation : Quaternion F → Call F S
  sample : F → List (F × F) → Call F S

module _ {ℓ} {F : Type 0} {S : Type ℓ} where
  -- how many signals are played
  abbrev pub plays : List (Call F S) → ℕ
  plays [] = 0
  plays (play s o ∷ cs) = suc (plays cs)
  plays (set_motion i m ∷ cs) = plays cs
  plays (set_listener_rotation q ∷ cs) = plays cs
  plays (sample i out ∷ cs) = plays cs

  -- After `n` signals, each handle belongs to a signal that has been played.
  abbrev pub Sensible : ℕ → List (Call F S) → Type 0
  Sensible n [] = Unit
  Sensible n (play s o ∷ cs) = Sensible (n + 1) cs
  Sensible n (set_motion i m ∷ cs) = (i < n) × Sensible n cs
  Sensible n (set_listener_rotation q ∷ cs) = Sensible n cs
  Sensible n (sample i out ∷ cs) = Sensible n cs

module _ {ℓ} {F : Type 0} {B S : Type ℓ} ⦃fl : Float F⦄ (buffered_sig : Signal F F B)
    (sig : Signal F F S) (sk : Seek F S) where
  unfoldable pub call : ℕ → Scene F B S → Call F S → Option (Scene F B S)
  call fuel sc (play s o) = Spatial.play sc s o >>= λ r. some r.1
  call fuel sc (set_motion i m) = Spatial.set_motion sc i m
  call fuel sc (set_listener_rotation q) = some (Spatial.set_listener_rotation sc q)
  call fuel sc (sample i out) = Render.sample buffered_sig sig sk fuel sc i out >>= λ r. some r.1

  unfoldable pub calls : ℕ → Scene F B S → List (Call F S) → Option (Scene F B S)
  calls fuel sc [] = some sc
  calls fuel sc (c ∷ cs) = call fuel sc c >>= λ sc'. calls fuel sc' cs
