-- ===== src/Mixer.antt =====
-- src/mixer.rs: mixes a set of signals.
-- The stop flags, which a handle and its signal share through an `Arc`, stand in the store `stops`; a
-- handle is the index of its flag. `none` is a panic.
pub mod Chunks
pub mod Live
pub mod Sample
pub mod Safe
pub mod Spread
pub mod Heard
pub mod Stops
mod Tests
use oddio.Base.{
  ℕ, zero, suc, min, Bool, true, false, Option, some, List, [], ◌∷◌, ◌++◌, length, take, drop, map,
  replicate, get_elem?, set, ◌||◌, if◌then◌else◌, ◌>>=◌,
}
use oddio.Float.{Float}
use oddio.Frame.{Frame, mix}
use oddio.Signal.{Signal}
use oddio.Set
use oddio.Set.{World}
use oddio.Set.Handle
use oddio.Set.Inner
use oddio.Set.Sweep.{Visit, sweep_all}

-- `MixedSignal`
pub record MixedSignal {ℓ} (S : Type ℓ) : Type ℓ where
  pub stop : ℕ
  pub inner : S

pub record Mixer {ℓ} (A : Type 0) (S : Type ℓ) : Type ℓ where
  pub signals : World (MixedSignal S)
  pub stops : List Bool
  pub buffer : List A

-- What the loop over the signals carries.
pub record Mixing (A : Type 0) : Type 0 where
  pub stops : List Bool
  pub buffer : List A
  pub out : List A

abbrev pub buffer_len : ℕ
buffer_len = 1024

module _ {ℓ} {A : Type 0} {S : Type ℓ} where
  unfoldable pub new : A → Mixer A S
  new nought = record { signals = Set.new; stops = []; buffer = replicate buffer_len nought }

  -- `MixerControl::play`
  unfoldable pub play : Mixer A S → S → Option (ℕ × Mixer A S)
  play m s = do
    let handle = length m.stops
    signals ← Handle.insert m.signals (record { stop = handle; inner = s })
    some (handle, record m { signals = signals; stops = m.stops ++ false ∷ [] })

  -- `Mixed::stop` and `Mixed::is_stopped`
  unfoldable pub stop : Mixer A S → ℕ → Mixer A S
  stop m handle = record m { stops = set m.stops handle true }

  unfoldable pub is_stopped : Mixer A S → ℕ → Option Bool
  is_stopped m handle = get_elem? m.stops handle

module _ {F A : Type 0} ⦃fl : Float F⦄ (fr : Frame F A) where
  -- `for (staged, o) in staging.iter().zip(&mut iter) { *o = frame::mix(o, staged); }`
  unfoldable pub mix_into : List A → List A → List A
  mix_into [] out = out
  mix_into (x ∷ staging) [] = []
  mix_into (x ∷ staging) (o ∷ out) = mix fr o x ∷ mix_into staging out

module _ {ℓ} {F A : Type 0} {S : Type ℓ} ⦃fl : Float F⦄ (fr : Frame F A) (sig : Signal F A S) where
  -- `while iter.len() > 0`: sample into the buffer, then mix into `out`; one round of fuel for each.
  unfoldable pub mix_chunks : ℕ → S → F → List A → List A → List A × List A × S
  mix_chunks zero s interval buffer out = (out, buffer, s)
  mix_chunks (suc fuel) s interval buffer [] = ([], buffer, s)
  mix_chunks (suc fuel) s interval buffer (o ∷ out) =
      let n = min (length (o ∷ out)) (length buffer) in
      let (staging, s') = sig.sample s interval (take n buffer) in
      let buffer' = staging ++ drop n buffer in
      let (rest, last, s'') = mix_chunks fuel s' interval buffer' (drop n (o ∷ out)) in
      (mix_into fr staging (take n (o ∷ out)) ++ rest, last, s'')

  -- the body of the loop over the signals
  unfoldable pub visit : F → Mixing A → MixedSignal S → Option (Visit (MixedSignal S) (Mixing A))
  visit interval m x = do
    stopped ← get_elem? m.stops x.stop
    let (out, buffer, inner) = mix_chunks (length m.out) x.inner interval m.buffer m.out
    if stopped || sig.is_finished x.inner
        then some (record {
          stays = false;
          item = x;
          state = record m { stops = set m.stops x.stop true };
        })
        else some (record {
          stays = true;
          item = record x { inner = inner };
          state = record m { out = out; buffer = buffer };
        })

  -- `sample`, with fuel for the update of the set
  unfoldable pub sample : ℕ → Mixer A S → F → List A → Option (List A × Mixer A S)
  sample fuel m interval out = do
    signals ← Inner.update fuel m.signals
    let start : Mixing A = record {
      stops = m.stops;
      buffer = m.buffer;
      out = map (λ _. fr.nought) out;
    }
    (signals', end) ← sweep_all (visit interval) signals start
    some (end.out, record { signals = signals'; stops = end.stops; buffer = end.buffer })
