-- ===== src/Signal/Stereo.antt =====
-- `MonoToStereo` gives both channels of every frame the mono sample.
use oddio.Base.{
  ℕ, zero, suc, ◌+◌, ◌/◌, ◌≤◌, ◌<◌, ◌≡◌, refl, ap, ap₂, sym, ◌∙◌, some, List, [], ◌∷◌, ◌++◌, length,
  length-append, length-take, length-drop, length-set, length-map, take, drop, get_elem?, set, map,
  arith, get_elem?-set_self, get_elem?-set_ne, get_elem?-append_left, get_elem?_within,
  Option-cases, lt-of-get_elem?, inl, inr, some-injective, get_elem?-map,
}
use native.Mathlib.Decide.{dec_lt}
use oddio.Signal.{Signal, KeepsLength, frame_stereo, flatten_stereo, spread, mono_to_stereo_sample}

module _ {F : Type 0} where
  length-flatten_stereo : (xs : List (F × F)) → length (flatten_stereo xs) ≡ length xs + length xs
  unfolding flatten_stereo
  length-flatten_stereo [] = omega arith
  length-flatten_stereo (x ∷ xs) = omega (arith, length-flatten_stereo xs)

  -- The loop writes below its counter only.
  spread_above :
      (k : ℕ) (buf : List F) (j : ℕ) → k ≤ j → get_elem? (spread k buf) j ≡ get_elem? buf j
  unfolding spread
  spread_above zero buf j h = refl
  spread_above (suc i) buf j h = elim (Option-cases (get_elem? buf (i / 2))) [
    | inl e ↦ rw (e, spread) (spread_above i buf j (omega arith))
    | inr (x, e) ↦
        rw (e, spread)
          (spread_above i (set buf i x) j (omega arith) ∙ get_elem?-set_ne buf x (omega arith))
  ]

  -- Going down, the loop reads only samples that it has not yet overwritten.
  spread_below :
      (k : ℕ) (buf : List F) (j : ℕ)
      → k ≤ length buf
      → j < k
      → get_elem? (spread k buf) j ≡ get_elem? buf (j / 2)
  unfolding spread
  spread_below zero buf j h p = elim p [ ]
  spread_below (suc i) buf j h p = elim (Option-cases (get_elem? buf (i / 2))) [
    | inl e ↦ let (x, at) = get_elem?_within buf (i / 2) (omega arith) in cc
    | inr (x, at) ↦
        rw (at, spread)
          (elim (dec_lt j i) [
            | yes q ↦
                spread_below i (set buf i x) j (omega (arith, length-set buf i x)) q
                ∙ get_elem?-set_ne buf x (omega arith)
            | no q ↦
                let same : j ≡ i = omega arith in
                spread_above i (set buf i x) j (omega arith)
                ∙ rw same (get_elem?-set_self buf i x (omega arith) ∙ sym at)
          ])
  ]

  length-spread : (k : ℕ) (buf : List F) → length (spread k buf) ≡ length buf
  unfolding spread
  length-spread zero buf = refl
  length-spread (suc i) buf = elim (Option-cases (get_elem? buf (i / 2))) [
    | inl e ↦ rw (e, spread) (length-spread i buf)
    | inr (x, e) ↦ rw (e, spread) (length-spread i (set buf i x) ∙ length-set buf i x)
  ]

  -- Two lists that pair up: the first holds each frame's left and right sample in turn.
  frame_stereo_lem :
      (buf : List F) (frames : List (F × F))
      → length buf ≡ length frames + length frames
      → ((k : ℕ) (x : F × F)
          → get_elem? frames k ≡ some x
          → (get_elem? buf (k + k) ≡ some x.0) × (get_elem? buf (suc (k + k)) ≡ some x.1))
      → frame_stereo buf ≡ frames
  unfolding frame_stereo
  frame_stereo_lem [] [] e h = refl
  frame_stereo_lem [] (x ∷ xs) e h = absurd (omega arith)
  frame_stereo_lem (a ∷ []) [] e h = refl
  frame_stereo_lem (a ∷ []) (x ∷ xs) e h = absurd (omega arith)
  frame_stereo_lem (a ∷ b ∷ buf) [] e h = absurd (omega arith)
  frame_stereo_lem (a ∷ b ∷ buf) (x ∷ xs) e h =
      let (l, r) = h 0 x refl in
      ap₂ ◌∷◌ (ap₂ (λ l r. (l, r)) (some-injective _ _ l) (some-injective _ _ r)) (
        frame_stereo_lem buf xs (omega arith) (λ k y at.
          let next : suc k + suc k ≡ suc (suc (k + k)) = omega arith in
          rw next at (h (suc k) y at)))

  -- What the loop leaves of a buffer whose first half is the mono signal.
  spread_pairs :
      (mono rest : List F) (k : ℕ) (x : F)
      → length mono ≡ length rest
      → get_elem? mono k ≡ some x
      → let full = mono ++ rest in
        (get_elem? (spread (length full) full) (k + k) ≡ some x)
        × (get_elem? (spread (length full) full) (suc (k + k)) ≡ some x)
  spread_pairs mono rest k x e at =
      let full = mono ++ rest in
      let inside = lt-of-get_elem? mono k x at in
      let count = length-append mono rest in
      let here = get_elem?-append_left mono rest k inside ∙ at in
      let even : (k + k) / 2 ≡ k = omega arith in
      let odd : suc (k + k) / 2 ≡ k = omega arith in
      (
        spread_below (length full) full (k + k) (omega arith) (omega arith) ∙ rw even here,
        spread_below (length full) full (suc (k + k)) (omega arith) (omega arith) ∙ rw odd here,
      )

  -- If the mono signal keeps the length of its slice, both channels of every frame of the stereo signal
  -- are the sample that it wrote at that index into the first half of the flattened buffer.
  pub mono_to_stereo_lem {ℓ} :
      {S : Type ℓ} (sig : Signal F F S) (s : S) (interval : F) (out : List (F × F))
      → KeepsLength sig
      → let (mono, s') = sig.sample s interval (take (length out) (flatten_stereo out)) in
        mono_to_stereo_sample sig s interval out ≡ (map (λ x. (x, x)) mono, s')
  unfolding mono_to_stereo_sample
  mono_to_stereo_lem sig s interval out keeps =
      let n = length out in
      let flat = flatten_stereo out in
      let flat_count = length-flatten_stereo out in
      let mono = (sig.sample s interval (take n flat)).0 in
      let rest = drop n flat in
      let mono_count : length mono ≡ n =
        omega (arith, keeps s interval (take n flat), length-take n flat) in
      let full = mono ++ rest in
      let rest_count : length rest ≡ n = omega (arith, length-drop n flat) in
      ap (λ frames. (frames, (sig.sample s interval (take n flat)).1))
        (frame_stereo_lem (spread (length full) full) (map (λ x. (x, x)) mono)
          (omega (
            arith,
            length-spread (length full) full,
            length-append mono rest,
            length-map {B = F × F} mono (λ x. (x, x)),
          ))
          (λ k y at.
            let (x, here, e) = get_elem?-map (λ x. (x, x)) mono k y at in
            rw (← e) (spread_pairs mono rest k x (omega arith) here)))
