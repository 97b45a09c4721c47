-- ===== src/Spatial.antt =====
-- src/spatial.rs: the state of a spatial scene and its control.
-- A handle shares its motion and its finished flag with its signal; both stand in stores of the
-- scene, and a handle is the index. `none` is a panic.
pub mod Ears
pub mod Walk
pub mod Render
pub mod Total
pub mod Visit
pub mod Safe
pub mod Stage
pub mod Perform
mod Tests
use oddio.Base.{
  ℕ, suc, ◌+◌, Bool, true, false, Option, none, some, List, [], ◌∷◌, ◌++◌, length, get_elem?, set,
  if◌then◌else◌, ◌>>=◌, ◌>>◌,
}
use oddio.Base.Int.{ℤ}
use oddio.Float.{Float, zero_f, one_f}
use oddio.Vector
use oddio.Vector.{Vec3, Quaternion}
use oddio.Swap
use oddio.Swap.{Swap}
use oddio.Ring
use oddio.Ring.{Ring}
use oddio.Set
use oddio.Set.{World}
use oddio.Set.Handle

pub record Motion (F : Type 0) : Type 0 where
  pub position : Vec3 F
  pub velocity : Vec3 F
  pub discontinuity : Bool

pub record State (F : Type 0) : Type 0 where
  pub prev_position : Vec3 F
  pub dt : F

-- `Common`; `handle` is the index of the motion and of the flag.
pub record Common (F : Type 0) : Type 0 where
  pub radius : F
  pub handle : ℕ
  pub state : State F
  pub finished_for : Option F

pub record SpatialSignalBuffered {ℓ} (F : Type 0) (S : Type ℓ) : Type ℓ where
  pub rate : ℕ
  pub max_delay : F
  pub common : Common F
  pub queue : Ring F
  pub inner : S

pub record SpatialSignal {ℓ} (F : Type 0) (S : Type ℓ) : Type ℓ where
  pub common : Common F
  pub inner : S

pub record SpatialOptions (F : Type 0) : Type 0 where
  pub position : Vec3 F
  pub velocity : Vec3 F
  pub radius : F

-- `SpatialScene` and `SpatialSceneControl`, over the types of the buffered and of the seekable signals
pub record Scene {ℓ} (F : Type 0) (B : Type ℓ) (S : Type ℓ) : Type ℓ where
  pub rot : Swap (Quaternion F)
  pub motions : List (Swap (Motion F))
  pub finished : List Bool
  pub buffered : World (SpatialSignalBuffered F B)
  pub seekable : World (SpatialSignal F S)

module _ {F : Type 0} ⦃fl : Float F⦄ where
  open fl use {literal, add, sub, mul, div, neg, min_of, of_nat, to_nat, ceil}

  abbrev pub speed_of_sound : F
  speed_of_sound = literal 343 1

  abbrev pub position_smoothing_period : F
  position_smoothing_period = literal 1 2

  unfoldable pub state_new : Vec3 F → State F
  state_new position = record { prev_position = position; dt = zero_f }

  unfoldable pub smoothed_position : State F → F → Motion F → Vec3 F
  smoothed_position s dt next =
      let dt' = add s.dt dt in
      let change = Vector.scale next.velocity dt' in
      Vector.mix (Vector.add s.prev_position change) (Vector.add next.position change)
        (min_of (div dt' position_smoothing_period) one_f)

  -- `Common::new`, with the motion that it shares
  unfoldable pub common_new : F → Vec3 F → Vec3 F → ℕ → Swap (Motion F) × Common F
  common_new radius position velocity handle =
      let first : Motion F = record {
        position = position;
        velocity = velocity;
        discontinuity = false;
      } in
      (
        Swap.swap first first first,
        record {
          radius = radius;
          handle = handle;
          state = state_new position;
          finished_for = none;
        },
      )

  unfoldable pub buffered_new {ℓ} :
      {B : Type ℓ} → ℕ → B → Vec3 F → F → Common F → SpatialSignalBuffered F B
  buffered_new rate inner position max_delay common =
      let queue = Ring.new (suc (to_nat (ceil (mul max_delay (of_nat rate))))) in
      let delay = min_of (div (Vector.norm position) speed_of_sound) max_delay in
      record {
        rate = rate;
        max_delay = max_delay;
        common = common;
        queue = Ring.delay queue rate delay;
        inner = inner;
      }

  abbrev identity_rotation : Quaternion F
  identity_rotation = record { s = one_f; v = record { x = zero_f; y = zero_f; z = zero_f } }

module _ {ℓ} {F : Type 0} {B S : Type ℓ} ⦃fl : Float F⦄ where
  open fl use {add, div}

  unfoldable pub new : Scene F B S
  new = record {
    rot = Swap.swap identity_rotation identity_rotation identity_rotation;
    motions = [];
    finished = [];
    buffered = Set.new;
    seekable = Set.new;
  }

  -- `SpatialSceneControl::play`
  unfoldable pub play : Scene F B S → S → SpatialOptions F → Option (ℕ × Scene F B S)
  play sc signal o = do
    let handle = length sc.motions
    let (motion, common) = common_new o.radius o.position o.velocity handle
    seekable ← Handle.insert sc.seekable (record { common = common; inner = signal })
    some (
      handle,
      record sc {
        motions = sc.motions ++ motion ∷ [];
        finished = sc.finished ++ false ∷ [];
        seekable = seekable;
      },
    )

  unfoldable pub play_buffered :
      Scene F B S → B → SpatialOptions F → F → ℕ → F → Option (ℕ × Scene F B S)
  play_buffered sc signal o max_distance rate buffer_duration = do
    let handle = length sc.motions
    let (motion, common) = common_new o.radius o.position o.velocity handle
    let max_delay = add (div max_distance speed_of_sound) buffer_duration
    buffered ← Handle.insert sc.buffered (buffered_new rate signal o.position max_delay common)
    some (
      handle,
      record sc {
        motions = sc.motions ++ motion ∷ [];
        finished = sc.finished ++ false ∷ [];
        buffered = buffered;
      },
    )

  unfoldable pub set_listener_rotation : Scene F B S → Quaternion F → Scene F B S
  set_listener_rotation sc rotation = record sc {
    rot = Swap.flush (Swap.set_pending sc.rot (Vector.invert_quat rotation));
  }

  -- `Spatial::set_motion` and `Spatial::is_finished`
  unfoldable pub set_motion : Scene F B S → ℕ → Motion F → Option (Scene F B S)
  set_motion sc handle motion = do
    sw ← get_elem? sc.motions handle
    some (record sc { motions = set sc.motions handle (Swap.flush (Swap.set_pending sw motion)) })

  unfoldable pub is_finished : Scene F B S → ℕ → Option Bool
  is_finished sc handle = get_elem? sc.finished handle
