-- ===== src/Mixer/Live.antt =====
-- What a call of `Mixer::sample` does to the signals of its set and to the output.
use oddio.Base.{
  ℕ, suc, ◌<◌, ◌≡◌, ◌≢◌, refl, ap, sym, subst, ◌∙◌, Bool, true, false, not, Bool-cases, inl, inr,
  some, List, [], ◌∷◌, arith, length, length-set, map, get_elem?-get_or, get_or, get_or-set_ne, set,
  ◌||◌, if◌then◌else◌, ◌>>=◌,
}
use oddio.Float.{Float}
use oddio.Frame.{Frame}
use oddio.Signal.{Signal}
use oddio.Mixer.{MixedSignal, Mixing, mix_into, mix_chunks, visit}
use oddio.Mixer.Chunks.{IsStreaming, mix_chunks_lem}
use oddio.Set.Sweep.Order.{Outcome, visits}

unfoldable pub keep_if {ℓ} : {B : Type ℓ} → (B → Bool) → List B → List B
keep_if p [] = []
keep_if p (x ∷ xs) = if p x then x ∷ keep_if p xs else keep_if p xs

not-true : (b : Bool) → not b ≡ true → b ≡ false
not-true true e = sym e
not-true false e = refl

not-false : (b : Bool) → not b ≡ false → b ≡ true
not-false true e = refl
not-false false e = sym e

module _ {ℓ} {S : Type ℓ} where
  -- Each signal has a stop flag in a store of `n`, of its own.
  abbrev pub Apart : MixedSignal S → List (MixedSignal S) → Type 0
  Apart x [] = Unit
  Apart x (y ∷ ys) = (x.stop ≢ y.stop) × Apart x ys

  abbrev pub Flags : ℕ → List (MixedSignal S) → Type 0
  Flags n [] = Unit
  Flags n (x ∷ xs) = (x.stop < n) × Apart x xs × Flags n xs

module _ {F A : Type 0} ⦃fl : Float F⦄ (fr : Frame F A) where
  pub length-mix_into : (xs out : List A) → length (mix_into fr xs out) ≡ length out
  unfolding mix_into
  length-mix_into [] out = refl
  length-mix_into (x ∷ xs) [] = refl
  length-mix_into (x ∷ xs) (o ∷ out) = ap suc (length-mix_into xs out)

module _ {ℓ} {F A : Type 0} {S : Type ℓ} (sig : Signal F A S) where
  -- A signal plays on unless its flag is set or it has finished.
  unfoldable pub is_live : List Bool → MixedSignal S → Bool
  is_live stops x = not (get_or stops x.stop true || sig.is_finished x.inner)

  keep_if-set :
      (p : Bool → Bool) (x : MixedSignal S) (ys : List (MixedSignal S)) (stops : List Bool)
      → Apart x ys
      → keep_if (λ y. p (is_live (set stops x.stop true) y)) ys
        ≡ keep_if (λ y. p (is_live stops y)) ys
  unfolding keep_if is_live
  keep_if-set p x [] stops a = refl
  keep_if-set p x (y ∷ ys) stops (ne, a) =
      rw (get_or-set_ne stops x.stop y.stop true true ne, keep_if-set p x ys stops a) refl

module _ {ℓ} {F A : Type 0} {S : Type ℓ} (sig : Signal F A S) (interval : F) where
  -- The signal after it has produced as many frames as there are in `out`.
  unfoldable pub played : List A → MixedSignal S → MixedSignal S
  played out x = record x { inner = (sig.sample x.inner interval out).1 }

module _ {ℓ} {F A : Type 0} {S : Type ℓ} ⦃fl : Float F⦄ (fr : Frame F A) (sig : Signal F A S)
    (interval : F) where
  -- The frames of the signals added to `acc`, each produced for the whole of `out`.
  unfoldable pub mixed : List A → List (MixedSignal S) → List A → List A
  mixed out [] acc = acc
  mixed out (x ∷ xs) acc = mixed out xs (mix_into fr (sig.sample x.inner interval out).0 acc)

  module _ (law : IsStreaming sig) where
    -- What `visits` comes to.
    unfoldable pub Mixed :
        List A → List (MixedSignal S) → Mixing A → Outcome (MixedSignal S) (Mixing A) → Type ℓ
    Mixed out xs m o =
        (o.kept ≡ map (played sig interval out) (keep_if (is_live sig m.stops) xs))
        × (o.gone ≡ keep_if (λ x. not (is_live sig m.stops x)) xs)
        × (o.state.out ≡ mixed out (keep_if (is_live sig m.stops) xs) m.out)

    visit_live :
        (out : List A) (m : Mixing A) (x : MixedSignal S)
        → length m.out ≡ length out
        → 0 < length m.buffer
        → x.stop < length m.stops
        → is_live sig m.stops x ≡ true
        → (buffer : List A) × (length buffer ≡ length m.buffer)
          × (visit fr sig interval m x
              ≡ some (record {
                stays = true;
                item = played sig interval out x;
                state = record {
                  stops = m.stops;
                  buffer = buffer;
                  out = mix_into fr (sig.sample x.inner interval out).0 m.out;
                };
              }))
    unfolding visit is_live played
    visit_live out m x same b inside live =
        let got = get_elem?-get_or m.stops x.stop true inside in
        let off = not-true (get_or m.stops x.stop true || sig.is_finished x.inner) live in
        let (frames, count, end) = mix_chunks_lem fr sig law x.inner interval m.buffer m.out b in
        let whole = law.overwrites x.inner interval m.out out same in
        let (out', buffer, s') = mix_chunks fr sig (length m.out) x.inner interval m.buffer m.out in
        (buffer, count, rw (got, ◌>>=◌, off, frames, end, whole) refl)

    visit_dead :
        (m : Mixing A) (x : MixedSignal S)
        → x.stop < length m.stops
        → is_live sig m.stops x ≡ false
        → visit fr sig interval m x
          ≡ some (record {
            stays = false;
            item = x;
            state = record m { stops = set m.stops x.stop true };
          })
    unfolding visit is_live
    visit_dead m x inside dead =
        let got = get_elem?-get_or m.stops x.stop true inside in
        let on = not-false (get_or m.stops x.stop true || sig.is_finished x.inner) dead in
        rw (got, ◌>>=◌, on) refl

    -- Visiting signals that have a stop flag each, with a mixing buffer of at least one frame: those
    -- whose flag is not set and that have not finished stay, advanced by the length of `out`, and
    -- their frames are added to the output; the others leave unchanged. Every signal's frames must not
    -- depend on what stood in the slice nor on how the slice is cut.
    pub visits-Mixed :
        (out : List A) (xs : List (MixedSignal S)) (m : Mixing A)
        → length m.out ≡ length out
        → 0 < length m.buffer
        → Flags (length m.stops) xs
        → (o : Outcome (MixedSignal S) (Mixing A)) × (visits (visit fr sig interval) xs m ≡ some o)
          × Mixed out xs m o
    unfolding visits Mixed keep_if mixed
    visits-Mixed out [] m same b flags =
        (record { kept = []; gone = []; state = m }, refl, (refl, refl, refl))
    visits-Mixed out (x ∷ xs) m same b (inside, apart, flags) =
        elim (Bool-cases (is_live sig m.stops x)) [
          | inl live ↦
              let (buffer, count, ran) = visit_live out m x same b inside live in
              let frames = (sig.sample x.inner interval out).0 in
              let m1 : Mixing A = record {
                stops = m.stops;
                buffer = buffer;
                out = mix_into fr frames m.out;
              } in
              let (o, more, (kept, gone, end)) =
                visits-Mixed out xs m1 (length-mix_into fr frames m.out ∙ same)
                  (omega (arith, count)) flags in
              (
                record o { kept = played sig interval out x ∷ o.kept },
                rw (ran, ◌>>=◌, more) refl,
                (rw live (ap (◌∷◌ (played sig interval out x)) kept), rw live gone, rw live end),
              )
          | inr dead ↦
              let ran = visit_dead m x inside dead in
              let m1 : Mixing A = record m { stops = set m.stops x.stop true } in
              let still = subst (λ n. Flags n xs) (sym (length-set m.stops x.stop true)) flags in
              let (o, more, (kept, gone, end)) = visits-Mixed out xs m1 same b still in
              let same_live = keep_if-set sig (λ p. p) x xs m.stops apart in
              let same_dead = keep_if-set sig not x xs m.stops apart in
              (
                record o { gone = x ∷ o.gone },
                rw (ran, ◌>>=◌, more) refl,
                (
                  rw dead (kept ∙ ap (map (played sig interval out)) same_live),
                  rw dead (ap (◌∷◌ x) (gone ∙ same_dead)),
                  rw dead (end ∙ ap (λ ys. mixed out ys m.out) same_live),
                ),
              )
        ]
