-- ===== src/Frames.antt =====
-- src/frames.rs: static audio, and the signal that plays it.
-- `D` stands for f64 and `F` for f32. `none` is a panic, of an index out of range or of
-- the overflow of an isize sum, or an unchecked conversion that is undefined.
pub mod Pair
pub mod Play
mod Tests
use oddio.Base.{
  ℕ, zero, suc, ◌+◌, ◌-◌, ◌^◌, min, Bool, false, Option, none, some, List, [], ◌∷◌, length,
  get_elem?, ltb, leb, ◌==◌, if◌then◌else◌, ◌>>=◌, sub_usize,
}
use oddio.Base.Int.{ℤ, pos, negsuc, add_isize}
use oddio.Float.{Float, Widen, one_f}
use oddio.Frame.{Frame, lerp}

pub record Frames (D : Type 0) (A : Type 0) : Type 0 where
  pub rate : D
  pub samples : List A

-- `FramesSignal`; `sample_t` is the atomic that its control reads.
pub record FramesSignal (D : Type 0) (A : Type 0) : Type 0 where
  pub frames : Frames D A
  pub t : D
  pub sample_t : ℤ

pub record FramesSignalControl (D : Type 0) : Type 0 where
  pub samples : ℕ
  pub rate : D

module _ {D A : Type 0} ⦃fd : Float D⦄ where
  unfoldable pub from_slice : ℕ → List A → Frames D A
  from_slice rate samples = record { rate = fd.of_nat rate; samples = samples }

  -- `from_iter` allocates for the length that the iterator claims, and asserts it afterwards; an
  -- iterator that yields more has then written past the allocation.
  unfoldable pub from_iter : ℕ → ℕ → List A → Option (Frames D A)
  from_iter rate claimed items =
      if length items == claimed then some (from_slice rate items) else none

  -- `rate()`, a saturating conversion to u32
  unfoldable pub rate_of : Frames D A → ℕ
  rate_of f = min (fd.to_nat f.rate) (2 ^ 32 - 1)

  unfoldable pub runtime : Frames D A → D
  runtime f = fd.div (fd.of_nat (length f.samples)) f.rate

  unfoldable pub new : Frames D A → D → FramesSignalControl D × FramesSignal D A
  new f start = (
    record { samples = length f.samples; rate = f.rate },
    record { frames = f; t = start; sample_t = fd.to_int (fd.mul start f.rate) },
  )

  unfoldable pub is_finished : FramesSignal D A → Bool
  is_finished s =
      fd.le (fd.div (fd.of_nat (sub_usize (length s.frames.samples) 1)) s.frames.rate) s.t

-- `FramesSignalControl::playback_position` and `is_finished`, with what they load
unfoldable pub playback_position : {D : Type 0} ⦃fd : Float D⦄ → FramesSignalControl D → ℤ → D
playback_position ⦃fd⦄ c loaded = fd.div (fd.of_int loaded) c.rate

unfoldable pub control_is_finished : {D : Type 0} → FramesSignalControl D → ℤ → Bool
control_is_finished c (pos x) = leb c.samples x
control_is_finished c (negsuc x) = false

module _ {F A : Type 0} (fr : Frame F A) where
  open fr use {nought}

  abbrev pub pair_at : List A → ℕ → Option (A × A)
  pair_at samples i = do a ← get_elem? samples i; b ← get_elem? samples (i + 1); some (a, b)

  -- `Frames::get_pair`
  unfoldable pub get_pair : List A → ℤ → Option (A × A)
  get_pair samples (pos i) =
      if ltb i (sub_usize (length samples) 1)
      then pair_at samples i
      else if ltb i (length samples)
      then (get_elem? samples i >>= λ a. some (a, nought))
      else some (nought, nought)
  get_pair samples (negsuc zero) = get_elem? samples 0 >>= λ b. some (nought, b)
  get_pair samples (negsuc (suc n)) = some (nought, nought)

module _ {F D A : Type 0} ⦃fl : Float F⦄ ⦃fd : Float D⦄ ⦃wide : Widen F D⦄ (fr : Frame F A) where
  -- `Frames::interpolate`
  unfoldable pub interpolate : Frames D A → D → Option A
  interpolate f s = do
    let x0 = fd.to_int s
    let fract = wide.narrow (fd.sub s (fd.of_int x0))
    (a, b) ← get_pair fr f.samples x0
    some (lerp fr a b fract)

module _ {F : Type 0} ⦃fl : Float F⦄ where
  -- `f32::EPSILON`, 2^-23
  abbrev pub epsilon : F
  epsilon = fl.literal 1 (2 ^ 23)

module _ {F A : Type 0} ⦃fl : Float F⦄ (fr : Frame F A) where
  -- the fast path of `sample`, from index `i` on
  unfoldable pub sample_steps : List A → ℤ → F → ℕ → List A → Option (List A)
  sample_steps samples base fract i [] = some []
  sample_steps samples base fract i (o ∷ out) = do
    at ← add_isize base (pos i)
    (a, b) ← get_pair fr samples at
    rest ← sample_steps samples base fract (suc i) out
    some (lerp fr a b fract ∷ rest)

  -- the other path, from `offset` on
  unfoldable pub sample_offsets : List A → ℤ → F → F → List A → Option (List A)
  sample_offsets samples base ds offset [] = some []
  sample_offsets samples base ds offset (o ∷ out) = do
    whole ← fl.to_int_unchecked offset
    at ← add_isize base whole
    (a, b) ← get_pair fr samples at
    rest ← sample_offsets samples base ds (fl.add offset ds) out
    some (lerp fr a b (fl.sub offset (fl.of_int whole)) ∷ rest)

module _ {F D A : Type 0} ⦃fl : Float F⦄ ⦃fd : Float D⦄ ⦃wide : Widen F D⦄ (fr : Frame F A) where
  unfoldable pub sample : FramesSignal D A → F → List A → Option (List A × FramesSignal D A)
  sample s interval out = do
    let rate = s.frames.rate
    let s0 = fd.mul s.t rate
    let ds = fl.mul interval (wide.narrow rate)
    let base = fd.to_int s0
    let fract = wide.narrow (fd.sub s0 (fd.of_int base))
    let samples = s.frames.samples
    out' ←
        if fl.le (fl.abs (fl.sub ds one_f)) epsilon
        then sample_steps fr samples base fract 0 out
        else sample_offsets fr samples base ds fract out
    let t = fd.add s.t (fd.mul (wide.widen interval) (fd.of_nat (length out)))
    some (out', record s { t = t; sample_t = fd.to_int (fd.mul t rate) })

  unfoldable pub seek : FramesSignal D A → F → FramesSignal D A
  seek s seconds = record s { t = fd.add s.t (wide.widen seconds) }
