-- ===== src/Frames/Pair.antt =====
-- `Frames::get_pair`: the two frames around a position.
use oddio.Base.{
  ℕ, zero, suc, ◌+◌, ◌-◌, ◌<◌, ◌≤◌, ◌≡◌, refl, true, none, some, List, [], arith, length,
  get_elem?-get_or, get_or_past, get_or, Bool-cases, inl, inr, ltb, sub_usize, max_len,
}
use oddio.Base.Int.{ℤ, pos, negsuc, ◌+ℤ◌, isize_end}
use oddio.Frame.{Frame}
use oddio.Frames.{get_pair}

step_pos : (i : ℕ) → pos i +ℤ pos 1 ≡ pos (i + 1)
unfolding ◌+ℤ◌
step_pos i = ground arith

step_zero : negsuc 0 +ℤ pos 1 ≡ pos 0
unfolding ◌+ℤ◌
step_zero = refl

step_neg : (i : ℕ) → negsuc (suc i) +ℤ pos 1 ≡ negsuc i
unfolding ◌+ℤ◌
step_neg i = ground arith

module _ {F A : Type 0} (fr : Frame F A) where
  open fr use {nought}

  -- The frame at a position, and silence out of range.
  unfoldable pub frame_at : List A → ℤ → A
  frame_at samples (pos i) = get_or samples i nought
  frame_at samples (negsuc i) = nought

  -- With at least one frame, no position panics: the pair are the frame at the position and the next
  -- one, and silence stands for every frame out of range.
  pub get_pair_lem :
      (samples : List A) (i : ℤ)
      → 0 < length samples
      → length samples ≤ max_len
      → get_pair fr samples i ≡ some (frame_at samples i, frame_at samples (i +ℤ pos 1))
  unfolding get_pair frame_at
  get_pair_lem samples (pos i) h small =
      let next : i + 1 ≡ suc i = omega arith in
      let last : sub_usize (length samples) 1 ≡ length samples - 1 = omega arith in
      let beyond = get_or_past samples (i + 1) nought in
      let here = get_elem?-get_or samples i nought in
      elim (Bool-cases (ltb i (length samples - 1))) [
        | inl e ↦
            rw
              (
                last,
                e,
                here (ground arith),
                get_elem?-get_or samples (i + 1) nought (ground arith),
                step_pos i,
              )
              refl
        | inr e ↦ elim (Bool-cases (ltb i (length samples))) [
          | inl e2 ↦ rw (last, e, e2, here (ground arith), step_pos i, beyond (ground arith)) refl
          | inr e2 ↦
              rw
                (
                  last,
                  e,
                  e2,
                  step_pos i,
                  beyond (ground arith),
                  get_or_past samples i nought (ground arith),
                )
                refl
        ]
      ]
  get_pair_lem samples (negsuc zero) h small =
      rw (get_elem?-get_or samples 0 nought h, step_zero) refl
  get_pair_lem samples (negsuc (suc i)) h small = rw (step_neg i) refl

  -- With no frames at all, the position just before the start and every isize from the start on panic,
  -- although they are out of range; only earlier positions give silence.
  pub get_pair-empty :
      (i : ℕ)
      → i < isize_end
      → (get_pair fr [] (pos i) ≡ none)
        × (get_pair fr [] (negsuc 0) ≡ none)
        × (get_pair fr [] (negsuc (suc i)) ≡ some (nought, nought))
  unfolding get_pair
  get_pair-empty i h =
      let inside : ltb i (sub_usize 0 1) ≡ true = ground arith in
      (rw (inside, get_pair), refl, refl)
