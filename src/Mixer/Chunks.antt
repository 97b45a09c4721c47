-- ===== src/Mixer/Chunks.antt =====
-- The mixer samples a signal into its buffer a chunk at a time; the output does not show it.
use oddio.Base.{
  ℕ, zero, suc, ◌≤◌, ◌<◌, min, ◌≡◌, refl, ap, ap₂, sym, ◌∙◌, List, [], ◌∷◌, ◌++◌, arith, length,
  length-append, length-take, length-drop, take, drop, take-append-drop,
}
use oddio.Float.{Float}
use oddio.Frame.{Frame, mix}
use oddio.Signal.{Signal, KeepsLength}
use oddio.Mixer.{mix_into, mix_chunks}

-- A signal whose frames do not depend on what stood in the slice, nor on how the slice is cut.
pub record IsStreaming {ℓ} {F A : Type 0} {S : Type ℓ} (sig : Signal F A S) : Type ℓ where
  pub keeps : KeepsLength sig
  pub idle : (s : S) (interval : F) → sig.sample s interval [] ≡ ([], s)
  pub overwrites :
      (s : S) (interval : F) (xs ys : List A)
      → length xs ≡ length ys
      → sig.sample s interval xs ≡ sig.sample s interval ys
  pub splits :
      (s : S) (interval : F) (xs ys : List A)
      → let (a, s1) = sig.sample s interval xs in
        let (b, s2) = sig.sample s1 interval ys in sig.sample s interval (xs ++ ys) ≡ (a ++ b, s2)

module _ {F A : Type 0} ⦃fl : Float F⦄ (fr : Frame F A) where
  mix_into-append :
      (xs ys os ps : List A)
      → length xs ≡ length os
      → mix_into fr (xs ++ ys) (os ++ ps) ≡ mix_into fr xs os ++ mix_into fr ys ps
  unfolding mix_into
  mix_into-append [] ys [] ps e = refl
  mix_into-append [] ys (o ∷ os) ps e = absurd (omega arith)
  mix_into-append (x ∷ xs) ys [] ps e = absurd (omega arith)
  mix_into-append (x ∷ xs) ys (o ∷ os) ps e =
      ap (◌∷◌ (mix fr o x)) (mix_into-append xs ys os ps (omega arith))

module _ {ℓ} {F A : Type 0} {S : Type ℓ} ⦃fl : Float F⦄ (fr : Frame F A) (sig : Signal F A S)
    (law : IsStreaming sig) where
  -- A slice cut after `n` frames, of which the first part is produced in a buffer.
  cut_at :
      (s : S) (interval : F) (n : ℕ) (buffer all : List A)
      → n ≤ length buffer
      → n ≤ length all
      → let (a, s1) = sig.sample s interval (take n buffer) in
        let (b, s2) = sig.sample s1 interval (drop n all) in
        sig.sample s interval all ≡ (a ++ b, s2)
  cut_at s interval n buffer all p q =
      let same =
        law.overwrites s interval (take n buffer) (take n all)
          (omega (arith, length-take n buffer, length-take n all)) in
      let glue : List A × S → List A × S =
        λ z. let (b, s2) = sig.sample z.1 interval (drop n all) in (z.0 ++ b, s2) in
      ap (sig.sample s interval) (sym (take-append-drop n all))
      ∙ law.splits s interval (take n all) (drop n all)
      ∙ ap glue (sym same)

  Mixes : S → F → List A → List A → List A × List A × S → Type ℓ
  Mixes s interval buffer out (mixed, last, s') =
      (mixed ≡ mix_into fr (sig.sample s interval out).0 out)
      × (length last ≡ length buffer)
      × (s' ≡ (sig.sample s interval out).1)

  mix_chunks-Mixes :
      (fuel : ℕ) (s : S) (interval : F) (buffer out : List A)
      → 0 < length buffer
      → length out ≤ fuel
      → Mixes s interval buffer out (mix_chunks fr sig fuel s interval buffer out)
  unfolding Mixes mix_chunks mix_into
  mix_chunks-Mixes zero s interval buffer [] b h =
      let nothing = law.idle s interval in rw nothing (refl, refl, refl)
  mix_chunks-Mixes zero s interval buffer (o ∷ out) b h = absurd (omega arith)
  mix_chunks-Mixes (suc fuel) s interval buffer [] b h =
      let nothing = law.idle s interval in rw nothing (refl, refl, refl)
  mix_chunks-Mixes (suc fuel) s interval buffer (o ∷ out) b h =
      let all = o ∷ out in
      let n = min (length all) (length buffer) in
      let (staging, s1) = sig.sample s interval (take n buffer) in
      let count : length staging ≡ length (take n all) =
        omega
          (arith, law.keeps s interval (take n buffer), length-take n buffer, length-take n all) in
      let buffer_count : length (staging ++ drop n buffer) ≡ length buffer = omega (
        arith,
        law.keeps s interval (take n buffer),
        length-take n buffer,
        length-drop n buffer,
        length-append staging (drop n buffer),
      ) in
      let (mixed, kept, end) =
        mix_chunks-Mixes fuel s1 interval (staging ++ drop n buffer) (drop n all)
          (omega (arith, buffer_count)) (omega (arith, length-drop n all)) in
      let whole = cut_at s interval n buffer all (omega arith) (omega arith) in
      let rest = (sig.sample s1 interval (drop n all)).0 in
      (
        ap (◌++◌ (mix_into fr staging (take n all))) mixed
            ∙ sym (mix_into-append fr staging rest (take n all) (drop n all) count)
            ∙ ap₂ (mix_into fr) (sym (ap (λ r. r.0) whole)) (take-append-drop n all),
        kept ∙ buffer_count,
        end ∙ sym (ap (λ r. r.1) whole),
      )

  -- From a buffer of at least one frame, mixing a signal into `out` a chunk at a time mixes the frames
  -- that the signal produces for the whole of `out` at once, and leaves it in the same state, if its
  -- frames do not depend on what stood in the slice nor on how the slice is cut.
  pub mix_chunks_lem :
      (s : S) (interval : F) (buffer out : List A)
      → 0 < length buffer
      → let (mixed, last, s') = mix_chunks fr sig (length out) s interval buffer out in
        (mixed ≡ mix_into fr (sig.sample s interval out).0 out)
        × (length last ≡ length buffer)
        × (s' ≡ (sig.sample s interval out).1)
  unfolding Mixes
  mix_chunks_lem s interval buffer out b =
      mix_chunks-Mixes (length out) s interval buffer out b (omega arith)
