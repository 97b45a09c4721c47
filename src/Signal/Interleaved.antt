-- ===== src/Signal/Interleaved.antt =====
-- `frame_stereo` and `flatten_stereo` of src/lib.rs: interleaved samples as stereo frames and back.
use oddio.Base.{ℕ, suc, ◌+◌, ◌/◌, ◌≡◌, refl, ap, sym, subst, List, [], ◌∷◌, length, take, arith}
use oddio.Signal.{frame_stereo, flatten_stereo}

module _ {F : Type 0} where
  flatten-frame :
      (xs : List F) (k : ℕ) → length xs / 2 ≡ k → flatten_stereo (frame_stereo xs) ≡ take (k + k) xs
  unfolding frame_stereo flatten_stereo
  flatten-frame [] k e =
      let none_left : k ≡ 0 = omega (arith, e) in
      let empty : List F = [] in subst (λ z. empty ≡ take (z + z) empty) (sym none_left) refl
  flatten-frame (x ∷ []) k e =
      let none_left : k ≡ 0 = omega (arith, e) in
      let empty : List F = [] in subst (λ z. empty ≡ take (z + z) (x ∷ [])) (sym none_left) refl
  flatten-frame (x ∷ y ∷ xs) k e =
      let half = length xs / 2 in
      let more : k + k ≡ suc (suc (half + half)) = omega (arith, e) in
      subst (λ z. x ∷ y ∷ flatten_stereo (frame_stereo xs) ≡ take z (x ∷ y ∷ xs)) (sym more)
        (ap (λ zs. x ∷ y ∷ zs) (flatten-frame xs half refl))

  frame-flatten : (fs : List (F × F)) → frame_stereo (flatten_stereo fs) ≡ fs
  unfolding frame_stereo flatten_stereo
  frame-flatten [] = refl
  frame-flatten (f ∷ fs) = ap (◌∷◌ f) (frame-flatten fs)

  length-frame_stereo : (xs : List F) (k : ℕ) → length xs / 2 ≡ k → length (frame_stereo xs) ≡ k
  unfolding frame_stereo
  length-frame_stereo [] k e = omega (arith, e)
  length-frame_stereo (x ∷ []) k e = omega (arith, e)
  length-frame_stereo (x ∷ y ∷ xs) k e =
      let half = length xs / 2 in omega (arith, e, length-frame_stereo xs half refl)

  -- Stereo frames that are flattened and framed again are the same frames; interleaved samples that are
  -- framed and flattened again are the same samples, but for the last one of an odd number, which is
  -- dropped; and framing gives half as many frames as samples.
  pub stereo_round_trip :
      (fs : List (F × F)) (xs : List F)
      → (frame_stereo (flatten_stereo fs) ≡ fs)
        × (flatten_stereo (frame_stereo xs) ≡ take (length xs / 2 + length xs / 2) xs)
        × (length (frame_stereo xs) ≡ length xs / 2)
  stereo_round_trip fs xs = (
    frame-flatten fs,
    flatten-frame xs (length xs / 2) refl,
    length-frame_stereo xs (length xs / 2) refl,
  )
