-- ===== src/Mixer/Sample.antt =====
-- `Mixer::sample` as a whole.
use mathlib.Core.List.{Perm, reverse}
use oddio.Base.{
  ℕ, ◌+◌, ◌<◌, ◌≤◌, ◌≡◌, refl, ap, subst, Bool, not, Bool-cases, inl, inr, some, List, [], ◌∷◌,
  ◌++◌, arith, length, map, ◌>>=◌,
}
use oddio.Float.{Float}
use oddio.Frame.{Frame}
use oddio.Signal.{Signal}
use oddio.Set.{World, Free, signal}
use oddio.Set.Inner
use oddio.Set.Inner.Remove.{FreeQueue}
use oddio.Set.Sweep.Order.{sweep_all_lem, length-reverse}
use oddio.Mixer.{MixedSignal, Mixer, Mixing, visit, sample}
use oddio.Mixer.Chunks.{IsStreaming}
use oddio.Mixer.Live.{keep_if, is_live, played, mixed, Flags, Mixed, visits-Mixed}

length-keep_if {ℓ} : {B : Type ℓ} (p : B → Bool) (xs : List B) → length (keep_if p xs) ≤ length xs
unfolding keep_if
length-keep_if p [] = omega arith
length-keep_if p (x ∷ xs) = elim (Bool-cases (p x)) [
  | inl e ↦ rw (e, keep_if) (omega (arith, length-keep_if p xs))
  | inr e ↦ rw (e, keep_if) (omega (arith, length-keep_if p xs))
]

module _ {ℓ} {F A : Type 0} {S : Type ℓ} ⦃fl : Float F⦄ (fr : Frame F A) (sig : Signal F A S)
    (law : IsStreaming sig) where
  -- Once the set has been updated, `sample` returns and leaves in `out` the sum, from silence, of the
  -- frames of the signals that are neither stopped nor finished. Those are the signals that the set
  -- then holds, in some order, each advanced by the length of `out`; the others have been sent to the
  -- free queue. Every signal has a stop flag of its own, its frames do not depend on what stood in the
  -- slice nor on how the slice is cut, the mixing buffer has at least one frame, and the free queue has
  -- room for all signals of the set.
  pub mixer_sample_lem :
      (fuel : ℕ) (m : Mixer A S) (w : World (MixedSignal S)) (n : ℕ)
      (fs : List (Free (MixedSignal S))) (interval : F) (out : List A)
      → Inner.update fuel m.signals ≡ some w
      → 0 < length m.buffer
      → Flags (length m.stops) (reverse w.signals.items)
      → FreeQueue w n fs
      → length fs + length w.signals.items < n
      → let xs = reverse w.signals.items in
        let silence = map (λ _. fr.nought) out in
        let live = keep_if (is_live sig m.stops) xs in
        let gone = keep_if (λ x. not (is_live sig m.stops x)) xs in
        (m' : Mixer A S) × (sample fr sig fuel m interval out
          ≡ some (mixed fr sig interval silence live silence, m'))
        × Perm m'.signals.signals.items (map (played sig interval silence) live)
        × FreeQueue m'.signals n (fs ++ map signal gone)
  unfolding sample Mixed
  mixer_sample_lem fuel m w n fs interval out updated b flags q room =
      let xs = reverse w.signals.items in
      let silence = map (λ _. fr.nought) out in
      let start : Mixing A = record { stops = m.stops; buffer = m.buffer; out = silence } in
      let (o, met, (kept, gone, end)) =
        visits-Mixed fr sig interval law silence xs start refl b flags in
      let few = length-keep_if (λ x. not (is_live sig m.stops x)) xs in
      let fits : length fs + length o.gone < n =
        omega (arith, ap length gone, few, length-reverse w.signals.items, room) in
      let (w', swept, perm, free) =
        sweep_all_lem (visit fr sig interval) w start n fs o q met fits in
      (
        record { signals = w'; stops = o.state.stops; buffer = o.state.buffer },
        rw (updated, ◌>>=◌, swept, end) refl,
        subst (Perm w'.signals.items) kept perm,
        subst (λ g. FreeQueue w' n (fs ++ map signal g)) gone free,
      )
