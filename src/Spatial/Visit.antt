-- ===== src/Spatial/Visit.antt =====
-- The body of the loop of `walk_set` in src/spatial.rs never panics.
use oddio.Base.{
  ℕ, ◌+◌, ◌*◌, ◌<◌, ◌≡◌, refl, sym, subst, ◌∙◌, inl, inr, Bool, true, false, Bool-cases, Option,
  some, List, [], arith, length, length-set, get_elem?_within, set, ◌>>=◌,
}
use oddio.Float.{Float, zero_f}
use oddio.Vector
use oddio.Vector.{Vec3, Quaternion}
use oddio.Swap.Slots.{Sane, received-Sane}
use oddio.Set.{World, Msg}
use oddio.Set.Inner
use oddio.Set.Stock.{inserted}
use oddio.Set.Sound.{Sound}
use oddio.Set.Inner.Drain.{update-Drained}
use oddio.Set.Sweep.{Visit}
use oddio.Set.Sweep.Safe.{Every, Every-append, Every-mono, Every-get, Every-set, sweep_all-Safe}
use oddio.Spatial.{Common, smoothed_position}
use oddio.Spatial.Walk.{Walking, propagate, visit, walk_set}
use oddio.Spatial.Total.{update_motion-total}

-- An update of a set whose signals all have a property.
pub record Settled {ℓ} {T : Type ℓ} (Ok : T → Type 0) (n : ℕ) (got : Option (World T))
    : Type ℓ where
  pub world : World T
  pub ran : got ≡ some world
  pub sound : Sound world (n + n) n []
  pub placed : Every Ok world.signals.items

pub update_placed {ℓ} :
    {T : Type ℓ} (Ok : T → Type 0) (n fuel : ℕ) (w : World T) (ms : List (Msg T))
    → Sound w (n + n) n ms
    → Every Ok w.signals.items
    → Every Ok (inserted ms)
    → n * 4 < fuel
    → Settled Ok n (Inner.update fuel w)
update_placed Ok n fuel w ms sound placed waiting enough =
    let d = update-Drained fuel w (n + n) n ms sound (omega arith) in
    record {
      world = d.world;
      ran = d.ran;
      sound = d.sound;
      placed =
          subst (Every Ok) (sym d.items_eq)
            (Every-append Ok w.signals.items (inserted ms) placed waiting);
    }

module _ {κ} {F : Type 0} {O : Type κ} where
  -- The stores have `n` motions and flags.
  pub record Stores (n : ℕ) (w : Walking F O) : Type 0 where
    pub motions : length w.motions ≡ n
    pub finished : length w.finished ≡ n
    pub sane : Every Sane w.motions

module _ {ℓ} {F : Type 0} {T : Type ℓ} (get_common : T → Common F) (Extra : T → Type 0) where
  -- The signal has a motion and a flag, and `Extra` is true of it.
  abbrev pub Placed : ℕ → T → Type 0
  Placed n x = ((get_common x).handle < n) × Extra x

  pub Placed-later : (n : ℕ) (xs : List T) → Every (Placed n) xs → Every (Placed (n + 1)) xs
  Placed-later n = Every-mono (Placed n) (Placed (n + 1)) (λ x p. (omega (arith, p.0), p.1))

module _ {ℓ κ} {F : Type 0} {T : Type ℓ} {O : Type κ} ⦃fl : Float F⦄ (get_common : T → Common F)
    (set_common : T → Common F → T) (ended : T → Bool) (prev_rot rot : Quaternion F) (elapsed : F)
    (mix_signal : T → Vec3 F → Vec3 F → O → Option (T × O)) (Extra : T → Type 0)
    (get_set : (x : T) (c : Common F) → get_common (set_common x c) ≡ c)
    (extra_set : (x : T) (c : Common F) → Extra x → Extra (set_common x c))
    (mix_total : (x : T) (prev next : Vec3 F) (o : O)
      → Extra x
      → (x' : T) × (o' : O) × (mix_signal x prev next o ≡ some (x', o'))
        × Extra x'
        × (get_common x' ≡ get_common x)) where
  pub visit-total :
      (n : ℕ) (w : Walking F O) (x : T)
      → Stores n w
      → Placed get_common Extra n x
      → (v : Visit T (Walking F O)) × (visit get_common set_common ended prev_rot rot elapsed
            mix_signal w x
          ≡ some v)
        × Placed get_common Extra n v.item
        × Stores n v.state
  unfolding visit
  visit-total n w x st (p, extra) =
      let common = get_common x in
      let h = common.handle in
      let count = st.motions in
      let (sw, at) = get_elem?_within w.motions h (omega (arith, count)) in
      let (sw', state, moved, sane') =
        update_motion-total sw common.state (Every-get Sane w.motions h sw st.sane at) in
      let (next, now) = received-Sane sw' sane' in
      let prev_position = Vector.rotate prev_rot (smoothed_position state zero_f next) in
      let next_position = Vector.rotate rot (smoothed_position state elapsed next) in
      let (flag, flag_at) = get_elem?_within w.finished h (omega (arith, st.finished)) in
      let ends = propagate (Vector.norm prev_position) elapsed (ended x) flag common.finished_for in
      let common' : Common F = record common {
        state = record state { dt = fl.add state.dt elapsed };
        finished_for = ends.1;
      } in
      let y = set_common x common' in
      let w' : Walking F O = record w {
        motions = set w.motions h sw';
        finished = set w.finished h ends.0;
      } in
      let stores : Stores n w' = record {
        motions = length-set w.motions h sw' ∙ st.motions;
        finished = length-set w.finished h ends.0 ∙ st.finished;
        sane = Every-set Sane w.motions h sw' sane' st.sane;
      } in
      let kept : Placed get_common Extra n y =
        (subst (λ z. z.handle < n) (sym (get_set x common')) p, extra_set x common' extra) in
      elim (Bool-cases ends.0) [
        | inl e ↦ (
          record { stays = false; item = y; state = w' },
          rw (at, ◌>>=◌, moved, now, flag_at, e) refl,
          kept,
          stores,
        )
        | inr e ↦
            let (z, o, mixed, extra', same) =
              mix_total y prev_position next_position w.out kept.1 in
            (
              record { stays = true; item = z; state = record w' { out = o } },
              rw (at, ◌>>=◌, moved, now, flag_at, e, mixed) refl,
              (subst (λ c. c.handle < n) (sym same) kept.0, extra'),
              record { motions = stores.motions; finished = stores.finished; sane = stores.sane },
            )
      ]

  -- The walk over a set whose signals are all placed.
  pub walk_set-total :
      (n fuel : ℕ) (w : World T) (ms : List (Msg T)) (st : Walking F O)
      → Sound w (n + n) n ms
      → Every (Placed get_common Extra n) w.signals.items
      → Every (Placed get_common Extra n) (inserted ms)
      → Stores n st
      → n * 4 < fuel
      → (w' : World T) × (st' : Walking F O) × (walk_set get_common set_common ended prev_rot rot
            elapsed mix_signal fuel w st
          ≡ some (w', st'))
        × Sound w' (n + n) n []
        × Every (Placed get_common Extra n) w'.signals.items
        × Stores n st'
  unfolding walk_set
  walk_set-total n fuel w ms st sound placed waiting stores enough =
      let Ok = Placed get_common Extra n in
      let d = update_placed Ok n fuel w ms sound placed waiting enough in
      let (w', st', ran, s, ok, good) =
        sweep_all-Safe (visit get_common set_common ended prev_rot rot elapsed mix_signal) Ok
          (Stores n) (λ r x q h. visit-total n r x q h) (n + n) n [] d.world st d.sound d.placed
          stores in
      (w', st', rw (d.ran, ◌>>=◌) ran, s, ok, good)
