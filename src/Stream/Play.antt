-- ===== src/Stream/Play.antt =====
-- Playing a stream: every call reads only frames that were received, and releases those it has passed.
use oddio.Base.{
  ℕ, true, suc, ◌+◌, ◌<◌, ◌≤◌, ◌≡◌, refl, ap, Bool-cases, inl, inr, some, List, [], ◌∷◌, arith,
  length, get_elem?-get_or, get_or, drop, ltb, ◌>>=◌,
}
use oddio.Base.Int.{
  ℤ, pos, negsuc, pos_part, ◌+ℤ◌, add_isize, add_isize-fits, fits-add, fits_isize, isize_end,
}
use oddio.Float.{Float}
use oddio.Ring.Fill.{exact_len}
use oddio.Frame.{Frame, lerp}
use oddio.Spsc.Window.{Holds}
use oddio.Spsc.Receive.{update_lem, index_lem, release-Holds}
use oddio.Stream.{Stream, refresh, get, sample_single, singles, reached, advance, sample}

-- What `as isize` and `as usize` do: the result is in the range of the type, and a number that is cut
-- at a count is at most that count once it is converted, as far as f32 counts exactly.
pub record Whole {F : Type 0} (fl : Float F) : Type 0 where
  pub fits : (x : F) → fits_isize (fl.to_int x) ≡ true
  pub cut : (x : F) (n : ℕ) → n ≤ exact_len → fl.to_nat (fl.min_of x (fl.of_nat n)) ≤ n

add_one :
    (a : ℤ)
    → pos_part a + 1 < isize_end
    → fits_isize a ≡ true
    → add_isize a (pos 1) ≡ some (a +ℤ pos 1)
add_one (pos n) h f =
    add_isize-fits (pos n) (pos 1) (fits-add (pos n) (pos 1) (omega arith) (omega arith))
add_one (negsuc n) h f =
    let inside : n < isize_end = ground arith in
    add_isize-fits (negsuc n) (pos 1) (fits-add (negsuc n) (pos 1) (omega arith) (omega arith))

reached-eq :
    {F A : Type 0} ⦃fl : Float F⦄ (s : Stream F A) (dt : F) (n : ℕ)
    → s.inner.len ≡ n
    → reached s dt ≡ fl.min_of (fl.add s.t (fl.mul dt (fl.of_nat s.rate))) (fl.of_nat n)
unfolding reached
reached-eq ⦃fl⦄ s dt n e =
    ap (λ m. fl.min_of (fl.add s.t (fl.mul dt (fl.of_nat s.rate))) (fl.of_nat m)) e

module _ {F A : Type 0} ⦃fl : Float F⦄ (fr : Frame F A) (whole : Whole fl) where
  open fr use {nought}

  get_lem :
      (s : Stream F A) (xs : List A) (i : ℤ) → Holds s.inner xs → (x : A) × (get fr s i ≡ some x)
  unfolding get
  get_lem s xs (negsuc n) h = (nought, refl)
  get_lem s xs (pos i) h = elim (Bool-cases (ltb i s.inner.len)) [
    | inl e ↦
        let inside : i < s.inner.len = ground arith in
        let there = (index_lem s.inner xs i h).0 inside in
        let value = get_elem?-get_or xs i nought (omega (arith, h.seen)) in
        (get_or xs i nought, rw (e, there, ◌>>=◌, value) refl)
    | inr e ↦ (nought, rw (e, get) refl)
  ]

  -- At the index `i`, the position that is read has a successor.
  InRange : F → F → ℕ → Type 0
  InRange s0 ds i =
      pos_part (fl.to_int (fl.trunc (fl.add s0 (fl.mul ds (fl.of_nat i))))) + 1 < isize_end

  singles_lem :
      (s : Stream F A) (xs : List A) (s0 ds : F) (i : ℕ) (out : List A)
      → Holds s.inner xs
      → ((j : ℕ) → j < i + length out → InRange s0 ds j)
      → (frames : List A) × (singles fr s s0 ds i out ≡ some frames) × (length frames ≡ length out)
  unfolding singles sample_single InRange
  singles_lem s xs s0 ds i [] h near = ([], refl, refl)
  singles_lem s xs s0 ds i (o ∷ out) h near =
      let at = fl.add s0 (fl.mul ds (fl.of_nat i)) in
      let x0 = fl.to_int (fl.trunc at) in
      let (a, got_a) = get_lem s xs x0 h in
      let (b, got_b) = get_lem s xs (x0 +ℤ pos 1) h in
      let fits = add_one x0 (near i (omega arith)) (whole.fits (fl.trunc at)) in
      let (rest, got, count) = singles_lem s xs s0 ds (suc i) out h (λ j p. near j (omega arith)) in
      (lerp fr a b (fl.fract at) ∷ rest, rw (got_a, fits, ◌>>=◌, got_b, got) refl, ap suc count)

  advance_lem :
      (s : Stream F A) (xs : List A) (dt : F)
      → Holds s.inner xs
      → s.inner.len ≡ length xs
      → length xs ≤ exact_len
      → let t = fl.min_of (fl.add s.t (fl.mul dt (fl.of_nat s.rate))) (fl.of_nat (length xs)) in
        let k = fl.to_nat t in
        (s' : Stream F A) × (advance s dt ≡ some s')
        × (k ≤ length xs)
        × Holds s'.inner (drop k xs)
        × (s'.inner.len + k ≡ length xs)
        × (s'.t ≡ fl.fract t)
  unfolding advance
  advance_lem s xs dt held all few =
      let x = fl.add s.t (fl.mul dt (fl.of_nat s.rate)) in
      let t = fl.min_of x (fl.of_nat (length xs)) in
      let k = fl.to_nat t in
      let cut = whole.cut x (length xs) few in
      let there = reached-eq s dt (length xs) all in
      let (inner', ran, left, kept, same) =
        (release-Holds s.inner xs k held).0 (omega (arith, all, cut)) in
      (
        record s { inner = inner'; t = fl.fract t },
        rw (there, ran, ◌>>=◌) refl,
        cut,
        left,
        omega (arith, kept, all),
        refl,
      )

  -- On a stream whose channel holds given frames, `sample` does not panic nor read a slot that was not
  -- written, and fills the whole slice; it then drops the `k` oldest frames, where `k` is the whole part
  -- of the time that the playback has reached, but at most their number, and holds the others. The
  -- conversions of the float type give an isize, and for a number that is cut at a count at most that
  -- count; the positions that are read and the number of frames are in the range of both.
  pub stream_sample_lem :
      (s : Stream F A) (xs : List A) (interval : F) (out : List A)
      → Holds s.inner xs
      → length xs ≤ exact_len
      → ((i : ℕ)
          → i < length out
          → pos_part (
                fl.to_int (
                  fl.trunc
                    (fl.add s.t (fl.mul (fl.mul interval (fl.of_nat s.rate)) (fl.of_nat i)))))
              + 1
            < isize_end)
      → let dt = fl.mul interval (fl.of_nat (length out)) in
        let t = fl.min_of (fl.add s.t (fl.mul dt (fl.of_nat s.rate))) (fl.of_nat (length xs)) in
        let k = fl.to_nat t in
        (frames : List A) × (s' : Stream F A) × (sample fr s interval out ≡ some (frames, s'))
        × (length frames ≡ length out)
        × (k ≤ length xs)
        × Holds s'.inner (drop k xs)
        × (s'.inner.len + k ≡ length xs)
        × (s'.t ≡ fl.fract t)
  unfolding sample refresh InRange
  stream_sample_lem s xs interval out h few near =
      let s1 = refresh s in
      let (held, all, more) = update_lem s.inner xs h in
      let (frames, played, count) =
        singles_lem s1 xs s1.t (fl.mul interval (fl.of_nat s1.rate)) 0 out held
          (λ i p. near i (omega arith)) in
      let dt = fl.mul interval (fl.of_nat (length out)) in
      let (s', ran, cut, left, kept, moved) = advance_lem s1 xs dt held all few in
      (frames, s', rw (played, ◌>>=◌, ran) refl, count, cut, left, kept, moved)
