-- ===== src/Spatial/Stage.antt =====
-- The calls on a spatial scene (src/spatial.rs) other than `play`.
use oddio.Base.{ℕ, ◌<◌, ◌≡◌, refl, ◌∙◌, some, arith, length-set, get_elem?_within, set, ◌>>=◌}
use oddio.Float.{Float}
use oddio.Vector
use oddio.Vector.{Vec3, Quaternion}
use oddio.Swap
use oddio.Swap.{Swap}
use oddio.Swap.Slots.{Sane, flush-Sane}
use oddio.Set.Sweep.Safe.{Every-get, Every-set}
use oddio.Spatial
use oddio.Spatial.{
  Motion, Common, SpatialSignalBuffered, SpatialSignal, SpatialOptions, Scene, common_new,
  buffered_new, speed_of_sound,
}
use oddio.Spatial.Safe.{Staged}

module _ {ℓ} {F : Type 0} {B S : Type ℓ} ⦃fl : Float F⦄ where
  pub set_rotation-Staged :
      (sc : Scene F B S) (n : ℕ) (q : Quaternion F)
      → Staged sc n
      → Staged (Spatial.set_listener_rotation sc q) n
  unfolding Spatial.set_listener_rotation
  set_rotation-Staged sc n q h = record {
    buffered_ms = h.buffered_ms;
    seekable_ms = h.seekable_ms;
    buffered = h.buffered;
    seekable = h.seekable;
    buffered_in = h.buffered_in;
    seekable_in = h.seekable_in;
    buffered_waiting = h.buffered_waiting;
    seekable_waiting = h.seekable_waiting;
    motions = h.motions;
    finished = h.finished;
    sane = h.sane;
    rotation = flush-Sane sc.rot (Vector.invert_quat q) h.rotation;
  }

  pub set_motion-Staged :
      (sc : Scene F B S) (n i : ℕ) (m : Motion F)
      → Staged sc n
      → i < n
      → (sc' : Scene F B S) × (Spatial.set_motion sc i m ≡ some sc') × Staged sc' n
  unfolding Spatial.set_motion
  set_motion-Staged sc n i m h p =
      let (sw, at) = get_elem?_within sc.motions i (omega (arith, h.motions)) in
      let sw' = Swap.flush (Swap.set_pending sw m) in
      let sane = flush-Sane sw m (Every-get Sane sc.motions i sw h.sane at) in
      (
        record sc { motions = set sc.motions i sw' },
        rw (at, ◌>>=◌) refl,
        record {
          buffered_ms = h.buffered_ms;
          seekable_ms = h.seekable_ms;
          buffered = h.buffered;
          seekable = h.seekable;
          buffered_in = h.buffered_in;
          seekable_in = h.seekable_in;
          buffered_waiting = h.buffered_waiting;
          seekable_waiting = h.seekable_waiting;
          motions = length-set sc.motions i sw' ∙ h.motions;
          finished = h.finished;
          sane = Every-set Sane sc.motions i sw' sane h.sane;
          rotation = h.rotation;
        },
      )
