-- ===== src/Downmix.antt =====
-- src/downmix.rs: sums the channels of a signal, a chunk of 256 frames at a time.
pub mod Consumed
mod Tests
use oddio.Base.{ℕ, zero, suc, List, [], ◌∷◌, ◌++◌, length, take, drop, replicate}
use oddio.Float.{Float, zero_f}
use oddio.Frame.{Frame}
use oddio.Signal.{Signal, Seek}

abbrev pub chunk_size : ℕ
chunk_size = 256

module _ {F : Type 0} ⦃fl : Float F⦄ where
  -- `iter().copied().sum()`
  unfoldable pub sum : F → List F → F
  sum acc [] = acc
  sum acc (x ∷ xs) = sum (fl.add acc x) xs

module _ {F A : Type 0} ⦃fl : Float F⦄ (fr : Frame F A) where
  -- `for (i, o) in buf.iter_mut().zip(chunk) { *o = …sum(); }`
  unfoldable pub sum_into : List A → List F → List F
  sum_into [] chunk = chunk
  sum_into (x ∷ buf) [] = []
  sum_into (x ∷ buf) (o ∷ chunk) = sum zero_f (fr.channels x) ∷ sum_into buf chunk

module _ {ℓ} {F A : Type 0} {S : Type ℓ} ⦃fl : Float F⦄ (fr : Frame F A) (sig : Signal F A S) where
  -- The loop over the chunks of `out`; one round of fuel for each.
  unfoldable pub chunks : ℕ → S → F → List A → List F → List F × S
  chunks zero s interval buf out = (out, s)
  chunks (suc fuel) s interval buf [] = ([], s)
  chunks (suc fuel) s interval buf (o ∷ out) =
      let (buf', s') = sig.sample s interval buf in
      let (rest, s'') = chunks fuel s' interval buf' (drop chunk_size (o ∷ out)) in
      (sum_into fr buf' (take chunk_size (o ∷ out)) ++ rest, s'')

  unfoldable pub sample : S → F → List F → List F × S
  sample s interval out = chunks (length out) s interval (replicate chunk_size fr.nought) out

  abbrev pub downmix : Signal F F S
  downmix = record { sample = sample; is_finished = sig.is_finished }

abbrev pub downmix_seek {ℓ} : {F : Type 0} {S : Type ℓ} → Seek F S → Seek F S
downmix_seek sk = record { seek = sk.seek }
