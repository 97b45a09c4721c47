-- ===== src/Signal.antt =====
-- src/signal.rs: the trait of audio signals, and the adapters that only pass frames on.
pub mod Counting
pub mod Stereo
pub mod Interleaved
mod Tests
use oddio.Base.{
  ℕ, zero, suc, ◌+◌, ◌*◌, ◌/◌, ◌≡◌, Bool, false, Option, none, some, List, [], ◌∷◌, ◌++◌, length,
  take, drop, get_elem?, set, map,
}
use oddio.Float.{Float, one_f}

-- `out` is a slice that `sample` writes; the result is what stands in it afterwards.
pub record Signal {ℓ} (F : Type 0) (A : Type 0) (S : Type ℓ) : Type ℓ where
  pub sample : S → F → List A → List A × S
  pub is_finished : S → Bool

-- `sample` cannot change the length of a slice.
abbrev pub KeepsLength {ℓ} : {F A : Type 0} {S : Type ℓ} → Signal F A S → Type ℓ
KeepsLength {F} {A} {S} sig =
    (s : S) (interval : F) (out : List A) → length (sig.sample s interval out).0 ≡ length out

pub record Seek {ℓ} (F : Type 0) (S : Type ℓ) : Type ℓ where
  pub seek : S → F → S

-- The instances for `Box` pass every call on.
abbrev pub boxed {ℓ} : {F A : Type 0} {S : Type ℓ} → Signal F A S → Signal F A S
boxed sig = record {
  sample = λ s interval out. sig.sample s interval out;
  is_finished = λ s. sig.is_finished s;
}

abbrev pub boxed_seek {ℓ} : {F : Type 0} {S : Type ℓ} → Seek F S → Seek F S
boxed_seek sk = record { seek = λ s seconds. sk.seek s seconds }

-- `run` of src/lib.rs
unfoldable pub run {ℓ} :
    {F A : Type 0} {S : Type ℓ} ⦃fl : Float F⦄ → Signal F A S → S → ℕ → List A → List A × S
run ⦃fl⦄ sig s sample_rate out = sig.sample s (fl.div one_f (fl.of_nat sample_rate)) out

module _ {F : Type 0} where
  -- `frame_stereo` and `flatten_stereo` of src/lib.rs
  unfoldable pub frame_stereo : List F → List (F × F)
  frame_stereo [] = []
  frame_stereo (x ∷ []) = []
  frame_stereo (x ∷ y ∷ xs) = (x, y) ∷ frame_stereo xs

  unfoldable pub flatten_stereo : List (F × F) → List F
  flatten_stereo [] = []
  flatten_stereo (x ∷ xs) = x.0 ∷ x.1 ∷ flatten_stereo xs

  -- `for i in (0..k).rev() { buf[i] = buf[i / 2]; }`; no index is out of range.
  unfoldable pub spread : ℕ → List F → List F
  spread zero buf = buf
  spread (suc i) buf = spread i (elim (get_elem? buf (i / 2)) [ none ↦ buf | some x ↦ set buf i x ])

  module _ {ℓ} {S : Type ℓ} where
    unfoldable pub mono_to_stereo_sample : Signal F F S → S → F → List (F × F) → List (F × F) × S
    mono_to_stereo_sample sig s interval out =
        let n = length out in
        let buf = flatten_stereo out in
        let (mono, s') = sig.sample s interval (take n buf) in
        let full = mono ++ drop n buf in (frame_stereo (spread (length full) full), s')

    -- `MonoToStereo`
    abbrev pub mono_to_stereo : Signal F F S → Signal F (F × F) S
    mono_to_stereo sig = record {
      sample = mono_to_stereo_sample sig;
      is_finished = sig.is_finished;
    }

    abbrev pub mono_to_stereo_seek : Seek F S → Seek F S
    mono_to_stereo_seek sk = record { seek = λ s seconds. sk.seek s seconds }
