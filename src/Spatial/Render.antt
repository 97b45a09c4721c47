-- ===== src/Spatial/Render.antt =====
-- `Signal for SpatialScene` of src/spatial.rs.
use oddio.Base.{
  ℕ, zero, suc, ◌+◌, min, Option, none, some, List, [], ◌∷◌, ◌++◌, length, take, drop, map,
  replicate, ◌>>=◌, if◌then◌else◌,
}
use oddio.Float.{Float, zero_f}
use oddio.Signal.{Signal, Seek}
use oddio.Vector.{Vec3}
use oddio.Swap
use oddio.Ring
use oddio.Set.Inner
use oddio.Spatial.{SpatialSignalBuffered, SpatialSignal, Scene}
use oddio.Spatial.Ears.{Ear, left, right, ear_state, mix_chunk}
use oddio.Spatial.Walk.{Walking, walk_set}

abbrev pub buf_len : ℕ
buf_len = 256

-- The output and the staging buffer.
pub record Output (F : Type 0) : Type 0 where
  pub frames : List (F × F)
  pub buf : List F

module _ {F : Type 0} ⦃fl : Float F⦄ where
  open fl use {neg, add, sub, mul, div, of_nat, max_of}

  -- The loop over the chunks of one ear. `read i buf` reads the samples for a chunk that begins at
  -- index `i` into a prefix of the staging buffer; one round of fuel for each chunk.
  unfoldable pub ear_chunks {ℓ} :
      {R : Type ℓ}
      → (ℕ → R → List F → Option (List F × R))
      → Ear
      → F
      → F
      → ℕ
      → ℕ
      → R
      → List F
      → List (F × F)
      → Option (List (F × F) × List F × R)
  ear_chunks read ear gain d_gain zero i r buf out = some (out, buf, r)
  ear_chunks read ear gain d_gain (suc fuel) i r buf [] = some ([], buf, r)
  ear_chunks read ear gain d_gain (suc fuel) i r buf (o ∷ out) = do
    let n = min (length buf) (length (o ∷ out))
    (samples, r') ← read i r (take n buf)
    let buf' = samples ++ drop n buf
    let chunk = mix_chunk ear gain d_gain i buf' (take n (o ∷ out))
    (rest, last, r'') ← ear_chunks read ear gain d_gain fuel (i + n) r' buf' (drop n (o ∷ out))
    some (chunk ++ rest, last, r'')

  module _ {ℓ} {B : Type ℓ} (sig : Signal F F B) (elapsed : F) where
    -- one ear of a buffered signal
    unfoldable pub buffered_ear :
        SpatialSignalBuffered F B → Vec3 F → Vec3 F → Ear → Output F → Option (Output F)
    buffered_ear s prev next ear o = do
      let prev_state = ear_state prev ear s.common.radius
      let next_state = ear_state next ear s.common.radius
      let prev_offset = max_of (sub prev_state.offset elapsed) (neg s.max_delay)
      let next_offset = max_of next_state.offset (neg s.max_delay)
      let n = of_nat (length o.frames)
      let dt = div (sub next_offset prev_offset) n
      let d_gain = div (sub next_state.gain prev_state.gain) n
      (frames, buf, queue) ←
          ear_chunks
            (λ i q xs. Ring.sample q s.rate (add prev_offset (mul (of_nat i) dt)) dt xs >>= λ ys.
              some (ys, q))
            ear prev_state.gain d_gain (length o.frames) 0 s.queue o.buf o.frames
      some (record { frames = frames; buf = buf })

    unfoldable pub mix_buffered :
        SpatialSignalBuffered F B
        → Vec3 F
        → Vec3 F
        → Output F
        → Option (SpatialSignalBuffered F B × Output F)
    mix_buffered s prev next o = do
      -- after the assertion that the ring is long enough for the whole call
      (queue, inner) ←
          if fl.le elapsed s.max_delay then Ring.write sig s.queue s.inner s.rate elapsed else none
      let s' = record s { queue = queue; inner = inner }
      o1 ← buffered_ear s' prev next left o
      o2 ← buffered_ear s' prev next right o1
      some (s', o2)

  module _ {ℓ} {S : Type ℓ} (sig : Signal F F S) (sk : Seek F S) (elapsed : F) where
    -- one ear of a seekable signal
    unfoldable pub seekable_ear :
        SpatialSignal F S → Vec3 F → Vec3 F → Ear → Output F → Option (SpatialSignal F S × Output F)
    seekable_ear s prev next ear o = do
      let prev_state = ear_state prev ear s.common.radius
      let next_state = ear_state next ear s.common.radius
      let delayed = sk.seek s.inner prev_state.offset
      let effective_elapsed = sub (add elapsed next_state.offset) prev_state.offset
      let n = of_nat (length o.frames)
      let dt = div effective_elapsed n
      let d_gain = div (sub next_state.gain prev_state.gain) n
      (frames, buf, inner) ←
          ear_chunks (λ i r xs. some (sig.sample r dt xs)) ear prev_state.gain d_gain
            (length o.frames) 0 delayed o.buf o.frames
      let back = sk.seek inner (sub (neg effective_elapsed) prev_state.offset)
      some (record s { inner = back }, record { frames = frames; buf = buf })

    unfoldable pub mix_seekable :
        SpatialSignal F S → Vec3 F → Vec3 F → Output F → Option (SpatialSignal F S × Output F)
    mix_seekable s prev next o = do
      (s1, o1) ← seekable_ear s prev next left o
      (s2, o2) ← seekable_ear s1 prev next right o1
      some (record s2 { inner = sk.seek s2.inner elapsed }, o2)

module _ {ℓ} {F : Type 0} {B S : Type ℓ} ⦃fl : Float F⦄ (buffered_sig : Signal F F B)
    (sig : Signal F F S) (sk : Seek F S) where
  -- `sample`, with fuel for the updates of the sets
  unfoldable pub sample : ℕ → Scene F B S → F → List (F × F) → Option (List (F × F) × Scene F B S)
  sample fuel sc interval out = do
    buffered ← Inner.update fuel sc.buffered
    prev_rot ← Swap.received sc.rot
    let (fresh, rot) = Swap.refresh sc.rot
    next_rot ← Swap.received rot
    let elapsed = fl.mul interval (fl.of_nat (length out))
    let silence : Output F = record {
      frames = map (λ _. (zero_f, zero_f)) out;
      buf = replicate buf_len zero_f;
    }
    let start : Walking F (Output F) = record {
      motions = sc.motions;
      finished = sc.finished;
      out = silence;
    }
    (buffered', w1) ←
        walk_set (λ s. s.common) (λ s c. record s { common = c })
          (λ s. buffered_sig.is_finished s.inner) prev_rot next_rot elapsed
          (mix_buffered buffered_sig elapsed) fuel buffered start
    seekable ← Inner.update fuel sc.seekable
    (seekable', w2) ←
        walk_set (λ s. s.common) (λ s c. record s { common = c }) (λ s. sig.is_finished s.inner)
          prev_rot next_rot elapsed (mix_seekable sig sk elapsed) fuel seekable w1
    some (
      w2.out.frames,
      record {
        rot = rot;
        motions = w2.motions;
        finished = w2.finished;
        buffered = buffered';
        seekable = seekable';
      },
    )
