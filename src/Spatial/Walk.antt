-- ===== src/Spatial/Walk.antt =====
-- `walk_set` of src/spatial.rs.
use oddio.Base.{
  ℕ, Bool, true, false, Option, none, some, List, get_elem?, set, if◌then◌else◌, ◌>>=◌,
}
use oddio.Float.{Float, zero_f}
use oddio.Vector
use oddio.Vector.{Vec3, Quaternion}
use oddio.Swap
use oddio.Swap.{Swap}
use oddio.Set.{World}
use oddio.Set.Inner
use oddio.Set.Sweep.{Visit, sweep_all}
use oddio.Spatial.{Motion, State, Common, speed_of_sound, smoothed_position}

-- What the walk carries: the stores that handles share, and the output.
pub record Walking {κ} (F : Type 0) (O : Type κ) : Type κ where
  pub motions : List (Swap (Motion F))
  pub finished : List Bool
  pub out : O

module _ {F : Type 0} ⦃fl : Float F⦄ where
  open fl use {add, div, lt}

  -- `// Update motion`
  unfoldable pub update_motion : Swap (Motion F) → State F → Option (Swap (Motion F) × State F)
  update_motion sw state = do
    orig_next ← Swap.received sw
    let (fresh, sw') = Swap.refresh sw
    m ← Swap.received sw'
    let moved : State F = record {
      prev_position =
          if m.discontinuity then m.position else smoothed_position state zero_f orig_next;
      dt = zero_f;
    }
    some (sw', if fresh then moved else state)

  -- `// Discard finished sources`: the flag and `finished_for` afterwards
  unfoldable pub propagate : F → F → Bool → Bool → Option F → Bool × Option F
  propagate distance elapsed ended stopped (some t) =
      if lt (div distance speed_of_sound) t then (true, some t) else (stopped, some (add t elapsed))
  propagate distance elapsed ended stopped none = (stopped, if ended then some elapsed else none)

module _ {ℓ κ} {F : Type 0} {T : Type ℓ} {O : Type κ} ⦃fl : Float F⦄ (get_common : T → Common F)
    (set_common : T → Common F → T) (ended : T → Bool) (prev_rot rot : Quaternion F) (elapsed : F)
    (mix_signal : T → Vec3 F → Vec3 F → O → Option (T × O)) where
  -- the body of the loop
  unfoldable pub visit : Walking F O → T → Option (Visit T (Walking F O))
  visit w signal = do
    let common = get_common signal
    sw ← get_elem? w.motions common.handle
    (sw', state) ← update_motion sw common.state
    next ← Swap.received sw'
    let prev_position = Vector.rotate prev_rot (smoothed_position state zero_f next)
    let next_position = Vector.rotate rot (smoothed_position state elapsed next)
    flag ← get_elem? w.finished common.handle
    let (stopped, finished_for) =
        propagate (Vector.norm prev_position) elapsed (ended signal) flag common.finished_for
    let common' = record common {
      state = record state { dt = fl.add state.dt elapsed };
      finished_for = finished_for;
    }
    let signal' = set_common signal common'
    let w' = record w {
      motions = set w.motions common.handle sw';
      finished = set w.finished common.handle stopped;
    }
    if stopped
        then some (record { stays = false; item = signal'; state = w' })
        else (mix_signal signal' prev_position next_position w.out >>= λ r.
            some (record { stays = true; item = r.0; state = record w' { out = r.1 } }))

  unfoldable pub walk_set : ℕ → World T → Walking F O → Option (World T × Walking F O)
  walk_set fuel signals w = do signals' ← Inner.update fuel signals; sweep_all visit signals' w
