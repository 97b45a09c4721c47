-- ===== src/Frames/Play.antt =====
-- Playing frames: `FramesSignal::sample` is defined at every time, before the start and past the end too.
use oddio.Base.{
  arith, ◌+◌, ◌<◌, ℕ, suc, true, false, ◌+◌, ◌<◌, ◌≤◌, ◌≡◌, refl, ap, Bool-cases, inl, inr, some,
  List, [], ◌∷◌, length, max_len, Option, none, zero, get_elem?, get_elem?-values, ltb,
  if◌then◌else◌, subst, ◌>>=◌,
}
use oddio.Base.Int.{
  ℤ, pos, pos_part, neg_part, ◌+ℤ◌, isize_end, fits_isize, add_isize, add_isize-fits, fits-add,
}
use oddio.Float.{Float, Widen, one_f}
use oddio.Frame.{Frame, lerp}
use oddio.Frames.{FramesSignal, sample_steps, sample_offsets, epsilon, sample}
use oddio.Frames.Pair.{frame_at, get_pair_lem}

add_index :
    (base : ℤ) (i : ℕ)
    → fits_isize base ≡ true
    → pos_part base + i < isize_end
    → add_isize base (pos i) ≡ some (base +ℤ pos i)
add_index base i f near =
    let low : neg_part base ≤ isize_end = ground arith in
    add_isize-fits base (pos i) (fits-add base (pos i) (omega arith) (omega arith))

zero_add : (i : ℕ) → 0 + i ≡ i
zero_add i = omega arith

module _ {F : Type 0} ⦃fl : Float F⦄ where
  -- the offset at the index `i`, one step further at each
  unfoldable pub offset_at : F → F → ℕ → F
  offset_at ds offset zero = offset
  offset_at ds offset (suc i) = offset_at ds (fl.add offset ds) i

  -- At the first `n` offsets the conversion is defined and the position is an isize.
  unfoldable pub Converts : ℤ → F → F → ℕ → Type 0
  Converts base ds offset n =
      (i : ℕ)
      → i < n
      → (x : ℤ) × (fl.to_int_unchecked (offset_at ds offset i) ≡ some x)
        × (fits_isize (base +ℤ x) ≡ true)

module _ {F A : Type 0} ⦃fl : Float F⦄ (fr : Frame F A) where
  -- What is heard at a fraction past a position: between the frame there and the next one, with silence
  -- out of range.
  unfoldable pub heard : List A → ℤ → F → A
  heard samples at fract =
      lerp fr (frame_at fr samples at) (frame_at fr samples (at +ℤ pos 1)) fract

  -- what is heard at the index `i` on the fast path, which counts the positions
  abbrev pub counted : List A → ℤ → F → ℕ → Option A
  counted samples base fract i = some (heard samples (base +ℤ pos i) fract)

  -- and on the other path, from the whole part and the fraction of the offset
  unfoldable pub converted : List A → ℤ → F → F → ℕ → Option A
  converted samples base ds offset i = do
    x ← fl.to_int_unchecked (offset_at ds offset i)
    some (heard samples (base +ℤ x) (fl.sub (offset_at ds offset i) (fl.of_int x)))

  steps_lem :
      (samples : List A) (base : ℤ) (fract : F) (i : ℕ) (out : List A)
      → fits_isize base ≡ true
      → pos_part base + (i + length out) ≤ isize_end
      → 0 < length samples
      → length samples ≤ max_len
      → (frames : List A) × (sample_steps fr samples base fract i out ≡ some frames)
        × (length frames ≡ length out)
        × ((j : ℕ)
            → get_elem? frames j
              ≡ (if ltb j (length out) then counted samples base fract (i + j) else none))
  unfolding sample_steps heard
  steps_lem samples base fract i [] f near p small =
      ([], refl, refl, λ j. let e : ltb j 0 ≡ false = ground arith in rw e refl)
  steps_lem samples base fract i (o ∷ out) f near p small =
      let fits = add_index base i f (omega arith) in
      let pair = get_pair_lem fr samples (base +ℤ pos i) p small in
      let (rest, got, count, at) =
        steps_lem samples base fract (suc i) out f (omega arith) p small in
      (
        heard samples (base +ℤ pos i) fract ∷ rest,
        rw (fits, ◌>>=◌, pair, got) refl,
        ap suc count,
        get_elem?-values (heard samples (base +ℤ pos i) fract) rest (length out)
            (λ j. counted samples base fract (i + j))
            (ap (counted samples base fract) (omega arith))
            (λ j.
              let on : suc i + j ≡ i + suc j = omega arith in
              subst
                (λ k.
                  get_elem? rest j
                  ≡ (if ltb j (length out) then counted samples base fract k else none))
                on (at j)),
      )

  offsets_lem :
      (samples : List A) (base : ℤ) (ds offset : F) (out : List A)
      → Converts base ds offset (length out)
      → 0 < length samples
      → length samples ≤ max_len
      → (frames : List A) × (sample_offsets fr samples base ds offset out ≡ some frames)
        × (length frames ≡ length out)
        × ((j : ℕ)
            → get_elem? frames j
              ≡ (if ltb j (length out) then converted samples base ds offset j else none))
  unfolding sample_offsets heard Converts converted offset_at
  offsets_lem samples base ds offset [] c p small =
      ([], refl, refl, λ j. let e : ltb j 0 ≡ false = ground arith in rw e refl)
  offsets_lem samples base ds offset (o ∷ out) c p small =
      let (whole, e, f) = c 0 (omega arith) in
      let fits = add_isize-fits base whole f in
      let pair = get_pair_lem fr samples (base +ℤ whole) p small in
      let (rest, got, count, at) =
        offsets_lem samples base ds (fl.add offset ds) out (λ i q. c (suc i) (omega arith)) p
          small in
      let x = heard samples (base +ℤ whole) (fl.sub offset (fl.of_int whole)) in
      (
        x ∷ rest,
        rw (e, ◌>>=◌, fits, pair, got) refl,
        ap suc count,
        get_elem?-values x rest (length out) (converted samples base ds offset) (rw (e, ◌>>=◌) refl)
            at,
      )

module _ {F D A : Type 0} ⦃fl : Float F⦄ ⦃fd : Float D⦄ ⦃wide : Widen F D⦄ (fr : Frame F A) where
  -- With at least one frame, `sample` does not panic, before the start and past the end too, if the
  -- positions that the fast path counts through end within isize, and at every offset of the other path
  -- the unchecked conversion is defined and the position is an isize; `as isize` gives an isize. At the
  -- index `i` of the slice it leaves, on the fast path, what is heard between the frames at the
  -- position `i` after the first and the next one; on the other path, what is heard at the first
  -- position and the offset that has grown by one step `i` times. The time moves on by the interval
  -- for each frame, the frames stay, and the control reads the new time.
  pub frames_sample_lem :
      (s : FramesSignal D A) (interval : F) (out : List A)
      → 0 < length s.frames.samples
      → length s.frames.samples ≤ max_len
      → ((x : D) → fits_isize (fd.to_int x) ≡ true)
      → let rate = s.frames.rate in
        let s0 = fd.mul s.t rate in
        let ds = fl.mul interval (wide.narrow rate) in
        let base = fd.to_int s0 in
        let fract = wide.narrow (fd.sub s0 (fd.of_int base)) in
        pos_part base + length out ≤ isize_end
        → (fl.le (fl.abs (fl.sub ds one_f)) epsilon ≡ false → Converts base ds fract (length out))
        → let t = fd.add s.t (fd.mul (wide.widen interval) (fd.of_nat (length out))) in
          (frames : List A) × (sample fr s interval out
            ≡ some (frames, record s { t = t; sample_t = fd.to_int (fd.mul t s.frames.rate) }))
          × (length frames ≡ length out)
          × ((i : ℕ)
              → get_elem? frames i ≡ (
                  if ltb i (length out)
                  then (if fl.le (fl.abs (fl.sub ds one_f)) epsilon
                      then counted fr s.frames.samples base fract i
                      else converted fr s.frames.samples base ds fract i)
                  else none))
  unfolding sample
  frames_sample_lem s interval out p small whole near converts =
      let rate = s.frames.rate in
      let s0 = fd.mul s.t rate in
      let ds = fl.mul interval (wide.narrow rate) in
      let base = fd.to_int s0 in
      let fract = wide.narrow (fd.sub s0 (fd.of_int base)) in
      let samples = s.frames.samples in
      elim (Bool-cases (fl.le (fl.abs (fl.sub ds one_f)) epsilon)) [
        | inl e ↦
            let (frames, got, count, at) =
              steps_lem fr samples base fract 0 out (whole s0) (omega arith) p small in
            let from = counted fr samples base fract in
            let start = λ (i : ℕ).
              subst (λ k. get_elem? frames i ≡ (if ltb i (length out) then from k else none))
                (zero_add i) (at i) in
            (frames, rw (e, got) refl, count, λ i. rw e (start i))
        | inr e ↦
            let (frames, got, count, at) =
              offsets_lem fr samples base ds fract out (converts e) p small in
            (frames, rw (e, got) refl, count, λ i. rw e (at i))
      ]
