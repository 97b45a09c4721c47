-- ===== src/Fader/Consumed.antt =====
-- How many frames a fade takes from the two signals.
use oddio.Base.{
  ℕ, zero, suc, ◌+◌, ◌-◌, ◌*◌, ◌/◌, ◌≤◌, min, ◌≡◌, refl, ap, ◌∙◌, List, [], ◌∷◌, arith, length,
  length-append, length-take, length-drop, length-replicate, take, drop, replicate,
}
use oddio.Float.{Float}
use oddio.Frame.{Frame}
use oddio.Signal.{Signal, KeepsLength}
use oddio.Downmix.Consumed.{counted}
use oddio.Fader.{Fading, buffer_size, blend, fade_loop}

module _ {F A : Type 0} ⦃fl : Float F⦄ (fr : Frame F A) where
  length-blend :
      (increment progress : F) (out xs : List A)
      → length (blend fr increment progress out xs).0 ≡ length out
  unfolding blend
  length-blend increment progress [] xs = refl
  length-blend increment progress (o ∷ out) [] = refl
  length-blend increment progress (o ∷ out) (x ∷ xs) =
      ap suc
        (length-blend increment (fl.min_of (fl.add progress increment) (fl.literal 1 1)) out xs)

module _ {ℓ} {F A : Type 0} {S : Type ℓ} ⦃fl : Float F⦄ (fr : Frame F A) (sig : Signal F A S)
    (keeps : KeepsLength sig) where
  -- If the signals keep the lengths of their slices and there is a round for each frame of `out`, the
  -- fade keeps the length of `out`, but takes from the old signal the next multiple of 1024 frames,
  -- and from the new one, beside the frames of `out`, at least all those past the first 1024 again.
  pub fader_consumed :
      (fuel : ℕ) (interval increment : F) (f : Fading F (S × ℕ)) (out : List A)
      → length out ≤ fuel
      → let (frames, end) = fade_loop fr (counted sig) fuel interval increment f out in
        (length frames ≡ length out)
        × (end.inner.1 ≡ f.inner.1 + buffer_size * ((length out + (buffer_size - 1)) / buffer_size))
        × (f.fade.1 + length out + (length out - buffer_size) ≤ end.fade.1)
  unfolding fade_loop
  fader_consumed zero interval increment f [] h = (refl, omega arith, omega arith)
  fader_consumed zero interval increment f (o ∷ out) h = absurd (omega arith)
  fader_consumed (suc fuel) interval increment f [] h = (refl, omega arith, omega arith)
  fader_consumed (suc fuel) interval increment f (o ∷ out) h =
      let n = min buffer_size (length (o ∷ out)) in
      let (buffer, inner') =
        (counted sig).sample f.inner interval (replicate buffer_size fr.nought) in
      let (out', fade') = (counted sig).sample f.fade interval (o ∷ out) in
      let blank = length-replicate buffer_size fr.nought in
      let mixed = (blend fr increment f.progress out' buffer).0 in
      let progress' = (blend fr increment f.progress out' buffer).1 in
      let all : length mixed ≡ length (o ∷ out) =
        length-blend fr increment f.progress out' buffer ∙ keeps f.fade.0 interval (o ∷ out) in
      let left = length-drop n mixed in
      let f' : Fading F (S × ℕ) = record { progress = progress'; inner = inner'; fade = fade' } in
      let (count, used, faded) =
        fader_consumed fuel interval increment f' (drop n mixed) (omega (arith, all, left)) in
      let rest = (fade_loop fr (counted sig) fuel interval increment f' (drop n mixed)).0 in
      (
        omega (arith, count, all, left, length-take n mixed, length-append (take n mixed) rest),
        omega (arith, used, all, left, blank),
        omega (arith, faded, all, left),
      )
