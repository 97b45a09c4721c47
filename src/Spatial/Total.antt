-- ===== src/Spatial/Total.antt =====
-- Neither the walk over the sets of a spatial scene (src/spatial.rs) nor the rendering of a signal
-- panics.
use oddio.Base.{
  ℕ, zero, suc, ◌+◌, ◌≡◌, refl, ◌∙◌, min, Option, some, List, [], ◌∷◌, ◌++◌, take, drop, length,
  ◌>>=◌, if◌then◌else◌,
}
use oddio.Float.{Float, zero_f}
use oddio.Signal.{Signal, Seek}
use oddio.Vector.{Vec3}
use oddio.Swap
use oddio.Swap.{Swap}
use oddio.Swap.Slots.{Sane, refresh-Sane, received-Sane}
use oddio.Spatial.{Motion, State, SpatialSignal, smoothed_position}
use oddio.Spatial.Ears.{Ear, left, right, ear_state, mix_chunk}
use oddio.Spatial.Walk.{update_motion}
use oddio.Spatial.Render.{Output, ear_chunks, seekable_ear, mix_seekable}

module _ {F : Type 0} ⦃fl : Float F⦄ where
  pub update_motion-total :
      (sw : Swap (Motion F)) (state : State F)
      → Sane sw
      → (sw' : Swap (Motion F)) × (state' : State F) × (update_motion sw state ≡ some (sw', state'))
        × Sane sw'
  unfolding update_motion
  update_motion-total sw state h =
      let (before, at) = received-Sane sw h in
      let sw' = (Swap.refresh sw).1 in
      let h' = refresh-Sane sw h in
      let (after, at') = received-Sane sw' h' in
      let moved : State F = record {
        prev_position =
            if after.discontinuity then after.position else smoothed_position state zero_f before;
        dt = zero_f;
      } in
      (sw', if (Swap.refresh sw).0 then moved else state, rw (at, ◌>>=◌, at') refl, h')

  ear_chunks-total {ℓ} :
      {R : Type ℓ} (Good : R → Type 0) (read : ℕ → R → List F → Option (List F × R))
      → ((i : ℕ) (r : R) (xs : List F)
          → Good r
          → (ys : List F) × (r' : R) × (read i r xs ≡ some (ys, r')) × Good r')
      → (ear : Ear) (gain d_gain : F) (fuel i : ℕ) (r : R) (buf : List F) (out : List (F × F))
      → Good r
      → (frames : List (F × F)) × (last : List F) × (r' : R) × (ear_chunks read ear gain d_gain fuel
            i r buf out
          ≡ some (frames, last, r'))
  unfolding ear_chunks
  ear_chunks-total Good read reads ear gain d_gain zero i r buf out good = (out, buf, r, refl)
  ear_chunks-total Good read reads ear gain d_gain (suc fuel) i r buf [] good = ([], buf, r, refl)
  ear_chunks-total Good read reads ear gain d_gain (suc fuel) i r buf (o ∷ out) good =
      let n = min (length buf) (length (o ∷ out)) in
      let (samples, r1, got, good1) = reads i r (take n buf) good in
      let buf1 = samples ++ drop n buf in
      let (rest, last, r2, ran) =
        ear_chunks-total Good read reads ear gain d_gain fuel (i + n) r1 buf1 (drop n (o ∷ out))
          good1 in
      (
        mix_chunk ear gain d_gain i buf1 (take n (o ∷ out)) ++ rest,
        last,
        r2,
        rw (got, ◌>>=◌, ran) refl,
      )

  module _ {ℓ} {S : Type ℓ} (sig : Signal F F S) (sk : Seek F S) (elapsed : F) where
    seekable_ear-total :
        (s : SpatialSignal F S) (prev next : Vec3 F) (ear : Ear) (o : Output F)
        → (s' : SpatialSignal F S) × (o' : Output F) × (seekable_ear sig sk elapsed s prev next ear
              o
            ≡ some (s', o'))
          × (s'.common ≡ s.common)
    unfolding seekable_ear
    seekable_ear-total s prev next ear o =
        let prev_state = ear_state prev ear s.common.radius in
        let next_state = ear_state next ear s.common.radius in
        let n = fl.of_nat (length o.frames) in
        let effective = fl.sub (fl.add elapsed next_state.offset) prev_state.offset in
        let dt = fl.div effective n in
        let d_gain = fl.div (fl.sub next_state.gain prev_state.gain) n in
        let (frames, buf, inner, ran) =
          ear_chunks-total (λ r. Unit) (λ i r xs. some (sig.sample r dt xs))
            (λ i r xs u. ((sig.sample r dt xs).0, (sig.sample r dt xs).1, refl, tt)) ear
            prev_state.gain d_gain (length o.frames) 0 (sk.seek s.inner prev_state.offset) o.buf
            o.frames tt in
        (
          record s { inner = sk.seek inner (fl.sub (fl.neg effective) prev_state.offset) },
          record { frames = frames; buf = buf },
          rw (ran, ◌>>=◌) refl,
          refl,
        )

    pub mix_seekable-total :
        (s : SpatialSignal F S) (prev next : Vec3 F) (o : Output F)
        → (s' : SpatialSignal F S) × (o' : Output F) × (mix_seekable sig sk elapsed s prev next o
            ≡ some (s', o'))
          × (s'.common ≡ s.common)
    unfolding mix_seekable
    mix_seekable-total s prev next o =
        let (s1, o1, ran1, e1) = seekable_ear-total s prev next left o in
        let (s2, o2, ran2, e2) = seekable_ear-total s1 prev next right o1 in
        (record s2 { inner = sk.seek s2.inner elapsed }, o2, rw (ran1, ◌>>=◌, ran2) refl, e2 ∙ e1)
