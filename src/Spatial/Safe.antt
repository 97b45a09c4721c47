-- ===== src/Spatial/Safe.antt =====
-- A spatial scene and its control (src/spatial.rs) from their creation on.
use oddio.Base.{
  ℕ, ◌+◌, ◌<◌, ◌≡◌, refl, ap, sym, subst, false, some, List, [], ◌∷◌, ◌++◌, arith, length,
  length-append, ◌>>=◌,
}
use oddio.Float.{Float}
use oddio.Swap.Slots.{Sane, swap-Sane}
use oddio.Set
use oddio.Set.{World, Msg}
use oddio.Set.Stock.{inserted}
use oddio.Set.Sound.{Sound, Sound-more, new-Sound}
use oddio.Set.Handle.Grow.{max_calls}
use oddio.Set.Handle.Renew.{insert-Sound}
use oddio.Set.Sweep.Safe.{Every, Every-append}
use oddio.Spatial
use oddio.Spatial.{
  Motion, Common, SpatialSignalBuffered, SpatialSignal, SpatialOptions, Scene, new, common_new,
  buffered_new, speed_of_sound,
}
use oddio.Spatial.Visit.{Placed, Placed-later}

pub later_sound {ℓ} :
    {T : Type ℓ} {w : World T} (n : ℕ) {ms : List (Msg T)}
    → Sound w (n + n) n ms
    → Sound w (n + 1 + (n + 1)) (n + 1) ms
later_sound n = Sound-more (n + 1 + (n + 1)) (n + 1) (omega arith) (omega arith)

module _ {ℓ} {F : Type 0} {B : Type ℓ} ⦃fl : Float F⦄ where
  -- There are no buffered signals.
  abbrev pub PlacedBuffered : ℕ → SpatialSignalBuffered F B → Type 0
  PlacedBuffered = Placed (λ s. s.common) (λ s. ⊥)

  pub later_buffered :
      (n : ℕ) (xs : List (SpatialSignalBuffered F B))
      → Every (PlacedBuffered n) xs
      → Every (PlacedBuffered (n + 1)) xs
  later_buffered = Placed-later (λ s. s.common) (λ s. ⊥)

module _ {ℓ} {F : Type 0} {S : Type ℓ} where
  -- The seekable signals have their motions and flags.
  abbrev pub PlacedSeekable : ℕ → SpatialSignal F S → Type 0
  PlacedSeekable = Placed (λ s. s.common) (λ s. Unit)

  pub later_seekable :
      (n : ℕ) (xs : List (SpatialSignal F S))
      → Every (PlacedSeekable n) xs
      → Every (PlacedSeekable (n + 1)) xs
  later_seekable = Placed-later (λ s. s.common) (λ s. Unit)

module _ {ℓ} {F : Type 0} {B S : Type ℓ} ⦃fl : Float F⦄ where
  -- The scene after `n` seekable signals have been played.
  pub record Staged (sc : Scene F B S) (n : ℕ) : Type ℓ where
    pub buffered_ms : List (Msg (SpatialSignalBuffered F B))
    pub seekable_ms : List (Msg (SpatialSignal F S))
    pub buffered : Sound sc.buffered (n + n) n buffered_ms
    pub seekable : Sound sc.seekable (n + n) n seekable_ms
    pub buffered_in : Every (PlacedBuffered n) sc.buffered.signals.items
    pub seekable_in : Every (PlacedSeekable n) sc.seekable.signals.items
    pub buffered_waiting : Every (PlacedBuffered n) (inserted buffered_ms)
    pub seekable_waiting : Every (PlacedSeekable n) (inserted seekable_ms)
    pub motions : length sc.motions ≡ n
    pub finished : length sc.finished ≡ n
    pub sane : Every Sane sc.motions
    pub rotation : Sane sc.rot

  pub new-Staged : Staged new 0
  unfolding new Set.new
  new-Staged = record {
    buffered_ms = [];
    seekable_ms = [];
    buffered = new-Sound;
    seekable = new-Sound;
    buffered_in = tt;
    seekable_in = tt;
    buffered_waiting = tt;
    seekable_waiting = tt;
    motions = refl;
    finished = refl;
    sane = tt;
    rotation = swap-Sane _ _ _;
  }

  pub play-Staged :
      (sc : Scene F B S) (n : ℕ) (s : S) (o : SpatialOptions F)
      → Staged sc n
      → n < max_calls
      → (sc' : Scene F B S) × ((Spatial.play sc s o >>= λ r. some r.1) ≡ some sc')
        × Staged sc' (n + 1)
  unfolding Spatial.play common_new
  play-Staged sc n s o h small =
      let (motion, common) = common_new o.radius o.position o.velocity (length sc.motions) in
      let x : SpatialSignal F S = record { common = common; inner = s } in
      let k = insert-Sound sc.seekable x (n + n) n h.seekable_ms h.seekable (omega arith) small in
      let d = k.handled in
      (
        record sc {
          motions = sc.motions ++ motion ∷ [];
          finished = sc.finished ++ false ∷ [];
          seekable = d.world;
        },
        rw (d.ran, ◌>>=◌) refl,
        record {
          buffered_ms = h.buffered_ms;
          seekable_ms = k.more;
          buffered = later_sound n h.buffered;
          seekable = subst (λ z. Sound d.world z (n + 1) k.more) (omega arith) d.sound;
          buffered_in = later_buffered n sc.buffered.signals.items h.buffered_in;
          seekable_in =
              subst (Every (PlacedSeekable (n + 1))) (sym (ap (λ t. t.items) d.signals))
                (later_seekable n sc.seekable.signals.items h.seekable_in);
          buffered_waiting = later_buffered n (inserted h.buffered_ms) h.buffered_waiting;
          seekable_waiting = subst (Every (PlacedSeekable (n + 1))) (sym k.news) (
              Every-append (PlacedSeekable (n + 1)) (inserted h.seekable_ms) (x ∷ [])
                (later_seekable n (inserted h.seekable_ms) h.seekable_waiting)
                ((omega (arith, h.motions), tt), tt));
          motions = omega (arith, length-append sc.motions (motion ∷ []), h.motions);
          finished = omega (arith, length-append sc.finished (false ∷ []), h.finished);
          sane = Every-append Sane sc.motions (motion ∷ []) h.sane (swap-Sane _ _ _, tt);
          rotation = h.rotation;
        },
      )
