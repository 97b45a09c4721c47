-- ===== src/Mixer/Stops.antt =====
-- `Mixed::stop` of src/mixer.rs takes effect at the next call of `sample`.
use mathlib.Core.HLevel.{¬_prop, ×_prop}
use mathlib.Core.Logic.{∥∥₁_elim}
use mathlib.Core.List.{Perm, Permᴰ, reverse}
use mathlib.Core.List.Perm
use oddio.Base.{
  ℕ, zero, suc, ◌+◌, ◌*◌, ◌<◌, ◌≤◌, ◌≡◌, ◌≢◌, refl, ap, sym, subst, ◌∙◌, Bool, true, false,
  Bool-cases, inl, inr, some, List, [], ◌∷◌, map, arith, get_or, set,
}
use oddio.Float.{Float}
use oddio.Frame.{Frame}
use oddio.Signal.{Signal}
use oddio.Set.Handle.Grow.{max_calls}
use oddio.Mixer
use oddio.Mixer.{MixedSignal, Mixer, new}
use oddio.Mixer.Chunks.{IsStreaming}
use oddio.Mixer.Live.{keep_if, is_live, played}
use oddio.Mixer.Safe.{Call, plays, calls}
use oddio.Mixer.Heard.{calls-Heard, stop-Heard, sample-Heard, new-Heard}

module _ {ℓ} {S : Type ℓ} (h : ℕ) where
  -- No signal has the flag `h`.
  abbrev pub Without : List (MixedSignal S) → Type 0
  Without [] = Unit
  Without (x ∷ xs) = (x.stop ≢ h) × Without xs

  Without-prop : (xs : List (MixedSignal S)) → IsProp (Without xs)
  Without-prop [] = λ a b. refl
  Without-prop (x ∷ xs) = ×_prop ¬_prop (Without-prop xs)

  Without-Permᴰ : {xs ys : List (MixedSignal S)} → Permᴰ xs ys → Without xs → Without ys
  Without-Permᴰ Permᴰ.nil a = a
  Without-Permᴰ (Permᴰ.cons e d) (p, a) = (subst (λ z. z.stop ≢ h) e p, Without-Permᴰ d a)
  Without-Permᴰ (Permᴰ.swap e f) (p, (q, a)) =
      (subst (λ z. z.stop ≢ h) f q, (subst (λ z. z.stop ≢ h) e p, a))
  Without-Permᴰ (Permᴰ.trans d e) a = Without-Permᴰ e (Without-Permᴰ d a)

  Without-Perm : {xs ys : List (MixedSignal S)} → Perm xs ys → Without xs → Without ys
  Without-Perm {ys = ys} p a = ∥∥₁_elim p (Without-prop ys) (λ d. Without-Permᴰ d a)

get_or-set-true : (stops : List Bool) (i : ℕ) → get_or (set stops i true) i true ≡ true
get_or-set-true [] i = refl
get_or-set-true (x ∷ stops) zero = refl
get_or-set-true (x ∷ stops) (suc i) = get_or-set-true stops i

module _ {ℓ} {F A : Type 0} {S : Type ℓ} (sig : Signal F A S) (h : ℕ) where
  -- A signal whose flag has been set is not kept.
  live-Without :
      (stops : List Bool) (xs : List (MixedSignal S))
      → Without h (keep_if (is_live sig (set stops h true)) xs)
  unfolding keep_if is_live
  live-Without stops [] = tt
  live-Without stops (x ∷ xs) = elim (Bool-cases (is_live sig (set stops h true) x)) [
    | inl e ↦
        rw (keep_if, e)
          (
            λ same.
                let on : get_or (set stops h true) x.stop true ≡ true =
                  ap (λ i. get_or (set stops h true) i true) same ∙ get_or-set-true stops h in
                let off : false ≡ true = sym (rw on refl) ∙ e in cc,
            live-Without stops xs,
          )
    | inr e ↦ rw (keep_if, e) (live-Without stops xs)
  ]

  played-Without :
      (interval : F) (out : List A) (xs : List (MixedSignal S))
      → Without h xs
      → Without h (map (played sig interval out) xs)
  unfolding played
  played-Without interval out [] a = tt
  played-Without interval out (x ∷ xs) (p, a) = (p, played-Without interval out xs a)

module _ {ℓ} {F A : Type 0} {S : Type ℓ} ⦃fl : Float F⦄ (fr : Frame F A) (sig : Signal F A S)
    (law : IsStreaming sig) where
  -- From the creation of a mixer on, after every sequence of calls of `play`, `stop` and `sample`, for at
  -- most 2^58 signals and with fuel for four messages a signal: when a signal is stopped, the next call
  -- of `sample` returns, and the mixer then holds no signal with that flag. The frames of a signal do
  -- not depend on what stood in the slice nor on how it is cut.
  pub mixer_stops :
      (fuel : ℕ) (nought : A) (cs : List (Call F A S)) (h : ℕ) (interval : F) (out : List A)
      → plays cs ≤ max_calls
      → plays cs * 4 < fuel
      → (m : Mixer A S) × (frames : List A) × (m' : Mixer A S) × (calls fr sig fuel (new nought) cs
          ≡ some m)
        × (Mixer.sample fr sig fuel (Mixer.stop m h) interval out ≡ some (frames, m'))
        × Without h m'.signals.signals.items
  unfolding Mixer.stop
  mixer_stops fuel nought cs h interval out small enough =
      let (m, ran, heard) =
        calls-Heard fr sig law fuel cs (new nought) 0 (new-Heard fr sig law nought) (omega arith)
          (omega arith) in
      let stopped : Mixer A S = record m { stops = set m.stops h true } in
      let (w, m', updated, (sampled, perm), next) =
        sample-Heard fr sig law fuel stopped (0 + plays cs) interval out
          (stop-Heard fr sig law m (0 + plays cs) h heard) (omega arith) in
      let silence = map (λ _. fr.nought) out in
      let xs = reverse w.signals.items in
      (
        m,
        _,
        m',
        ran,
        sampled,
        Without-Perm h (Perm.symm perm) (
            played-Without sig h interval silence (keep_if (is_live sig stopped.stops) xs)
              (live-Without sig h m.stops xs)),
      )
