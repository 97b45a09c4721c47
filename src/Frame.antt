-- ===== src/Frame.antt =====
-- src/frame.rs: a frame holds one sample for each channel.
pub mod Laws
mod Tests
use oddio.Base.{
  ℕ, suc, ◌≡◌, refl, ap, ◌∙◌, List, [], ◌∷◌, map as map_list, length, replicate, length-replicate,
}
use oddio.Float.{Float, zero_f}

-- `set_channels x ys` is `x` once `ys` have been written through `channels_mut`.
pub record Frame (F : Type 0) (A : Type 0) : Type 0 where
  pub nought : A
  pub channels : A → List F
  pub set_channels : A → List F → A

-- A loop over a zip with `channels_mut` writes as many channels as both sides have.
unfoldable pub overwrite {ℓ} : {B : Type ℓ} → List B → List B → List B
overwrite [] os = os
overwrite (y ∷ ys) [] = []
overwrite (y ∷ ys) (o ∷ os) = y ∷ overwrite ys os

pub length-overwrite {ℓ} : {B : Type ℓ} (ys os : List B) → length (overwrite ys os) ≡ length os
unfolding overwrite
length-overwrite [] os = refl
length-overwrite (y ∷ ys) [] = refl
length-overwrite (y ∷ ys) (o ∷ os) = ap suc (length-overwrite ys os)

unfoldable pub zip_with {ℓ} : {B : Type ℓ} → (B → B → B) → List B → List B → List B
zip_with f [] ys = []
zip_with f (x ∷ xs) [] = []
zip_with f (x ∷ xs) (y ∷ ys) = f x y ∷ zip_with f xs ys

module _ {F : Type 0} {A : Type 0} ⦃fl : Float F⦄ (fr : Frame F A) where
  open fl use {add, sub, mul}
  open fr use {nought, channels, set_channels}

  unfoldable pub map : A → (F → F) → A
  map x f = set_channels nought (overwrite (map_list f (channels x)) (channels nought))

  unfoldable pub bimap : A → A → (F → F → F) → A
  bimap x y f =
      set_channels nought (overwrite (zip_with f (channels x) (channels y)) (channels nought))

  unfoldable pub lerp : A → A → F → A
  lerp x y t = bimap x y (λ a b. add a (mul t (sub b a)))

  unfoldable pub mix : A → A → A
  mix x y = bimap x y add

  unfoldable pub scale : A → F → A
  scale x factor = map x (λ a. mul a factor)

module _ {F : Type 0} ⦃fl : Float F⦄ where
  -- `impl Frame for Sample`
  abbrev set_sample : F → List F → F
  set_sample x [] = x
  set_sample x (y ∷ ys) = y

  abbrev pub sample_frame : Frame F F
  sample_frame = record { nought = zero_f; channels = λ x. x ∷ []; set_channels = set_sample }

  -- `impl Frame for [Sample; N]` at N = 2, as a pair
  abbrev set_stereo : F × F → List F → F × F
  set_stereo x [] = x
  set_stereo x (l ∷ []) = (l, x.1)
  set_stereo x (l ∷ r ∷ ys) = (l, r)

  abbrev pub stereo_frame : Frame F (F × F)
  stereo_frame = record {
    nought = (zero_f, zero_f);
    channels = λ x. x.0 ∷ x.1 ∷ [];
    set_channels = set_stereo;
  }

-- `[Sample; N]`
abbrev pub Samples : Type 0 → ℕ → Type 0
Samples F n = (xs : List F) × (length xs ≡ n)

module _ {F : Type 0} ⦃fl : Float F⦄ where
  -- `impl Frame for [Sample; N]`; a write through `channels_mut` cannot change the length.
  abbrev set_samples : (n : ℕ) → Samples F n → List F → Samples F n
  set_samples n (xs, e) ys = (overwrite ys xs, length-overwrite ys xs ∙ e)

  abbrev pub samples_frame : (n : ℕ) → Frame F (Samples F n)
  samples_frame n = record {
    nought = (replicate n zero_f, length-replicate n zero_f);
    channels = λ x. x.0;
    set_channels = set_samples n;
  }
