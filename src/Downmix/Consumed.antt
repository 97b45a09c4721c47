-- ===== src/Downmix/Consumed.antt =====
-- How many frames `Downmix::sample` takes from its inner signal.
use oddio.Base.{
  ℕ, zero, suc, ◌+◌, ◌-◌, ◌*◌, ◌/◌, ◌≤◌, ◌≡◌, refl, ap, ◌∙◌, List, [], ◌∷◌, arith, length,
  length-append, length-take, length-drop, length-replicate, take, drop, replicate,
}
use oddio.Float.{Float}
use oddio.Frame.{Frame}
use oddio.Signal.{Signal, KeepsLength}
use oddio.Downmix.{chunk_size, sum_into, chunks, sample}

-- A signal that also counts the frames that it has produced.
abbrev pub counted {ℓ} : {F A : Type 0} {S : Type ℓ} → Signal F A S → Signal F A (S × ℕ)
counted sig = record {
  sample = λ s interval out.
      let (frames, s') = sig.sample s.0 interval out in (frames, (s', s.1 + length out));
  is_finished = λ s. sig.is_finished s.0;
}

module _ {F A : Type 0} ⦃fl : Float F⦄ (fr : Frame F A) where
  length-sum_into : (buf : List A) (chunk : List F) → length (sum_into fr buf chunk) ≡ length chunk
  unfolding sum_into
  length-sum_into [] chunk = refl
  length-sum_into (x ∷ buf) [] = refl
  length-sum_into (x ∷ buf) (o ∷ chunk) = ap suc (length-sum_into buf chunk)

module _ {ℓ} {F A : Type 0} {S : Type ℓ} ⦃fl : Float F⦄ (fr : Frame F A) (sig : Signal F A S)
    (keeps : KeepsLength sig) where
  chunks_consumed :
      (fuel : ℕ) (s : S) (k : ℕ) (interval : F) (buf : List A) (out : List F)
      → length buf ≡ chunk_size
      → length out ≤ fuel
      → let (frames, s') = chunks fr (counted sig) fuel (s, k) interval buf out in
        (length frames ≡ length out)
        × (s'.1 ≡ k + chunk_size * ((length out + (chunk_size - 1)) / chunk_size))
  unfolding chunks
  chunks_consumed zero s k interval buf [] e h = (refl, omega arith)
  chunks_consumed zero s k interval buf (o ∷ out) e h = absurd (omega arith)
  chunks_consumed (suc fuel) s k interval buf [] e h = (refl, omega arith)
  chunks_consumed (suc fuel) s k interval buf (o ∷ out) e h =
      let (buf', s') = sig.sample s interval buf in
      let left = length-drop chunk_size (o ∷ out) in
      let (count, used) =
        chunks_consumed fuel s' (k + length buf) interval buf' (drop chunk_size (o ∷ out))
          (keeps s interval buf ∙ e) (omega (arith, left)) in
      let first = sum_into fr buf' (take chunk_size (o ∷ out)) in
      (
        omega (
          arith,
          left,
          length-sum_into fr buf' (take chunk_size (o ∷ out)),
          length-take chunk_size (o ∷ out),
          length-append first
              (chunks fr (counted sig) fuel (s', k + length buf) interval buf'
                (drop chunk_size (o ∷ out))).0,
        ),
        omega (arith, left),
      )

  -- If the inner signal keeps the length of its slice, `sample` keeps the length of `out` but takes
  -- from the inner signal the next multiple of 256 frames, not as many as it puts out.
  pub downmix_consumed :
      (s : S) (k : ℕ) (interval : F) (out : List F)
      → let (frames, s') = sample fr (counted sig) (s, k) interval out in
        (length frames ≡ length out)
        × (s'.1 ≡ k + chunk_size * ((length out + (chunk_size - 1)) / chunk_size))
  unfolding sample
  downmix_consumed s k interval out =
      chunks_consumed (length out) s k interval (replicate chunk_size fr.nought) out
        (length-replicate chunk_size fr.nought) (omega arith)
