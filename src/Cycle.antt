-- ===== src/Cycle.antt =====
-- src/cycle.rs: frames looped end to end.
-- `none` is a panic, of an index out of range or of a remainder by zero, or an unchecked conversion
-- that is undefined.
use oddio.Base.{
  ℕ, ◌%◌, Option, none, some, List, [], ◌∷◌, length, get_elem?, ltb, ◌==◌, if◌then◌else◌, ◌>>=◌,
  add_usize, sub_usize,
}
use oddio.Float.{Float, Widen, zero_f}
use oddio.Frame.{Frame, lerp}
use oddio.Frames.{Frames, rate_of}

pub record Cycle (D : Type 0) (A : Type 0) : Type 0 where
  pub cursor : D
  pub frames : Frames D A

module _ {D A : Type 0} ⦃fd : Float D⦄ where
  unfoldable pub new : Frames D A → Cycle D A
  new frames = record { cursor = zero_f; frames = frames }

module _ {A : Type 0} where
  -- the frames at two indices
  unfoldable pub pair_of : List A → ℕ → ℕ → Option (A × A)
  pair_of frames i j = do a ← get_elem? frames i; b ← get_elem? frames j; some (a, b)

  -- the last `if` of the loop: the pair from `x` on, once `x` has been wrapped
  unfoldable pub wrapped_pair : List A → ℕ → Option (A × A)
  wrapped_pair frames x =
      if ltb x (sub_usize (length frames) 1)
      then pair_of frames x (add_usize x 1)
      else pair_of frames x 0

-- The cursor within a call of `sample`.
pub record Position (F : Type 0) : Type 0 where
  pub base : ℕ
  pub offset : F

module _ {F A : Type 0} ⦃fl : Float F⦄ (fr : Frame F A) where
  open fl use {add, sub, of_nat, to_nat_unchecked}

  -- The body of the loop from the whole part of the offset up to the interpolation: the pair of
  -- frames, the fraction and the position.
  unfoldable pub locate_at : List A → Position F → ℕ → Option ((A × A) × F × Position F)
  locate_at frames p whole =
      let fract = sub p.offset (of_nat whole) in
      let x = add_usize p.base whole in
      let n = length frames in
      let wrapped : Position F = record { base = 0; offset = add (of_nat (x % n)) fract } in
      if ltb x (sub_usize n 1)
      then (pair_of frames x (add_usize x 1) >>= λ ab. some (ab, fract, p))
      else if ltb x n
      then (pair_of frames x 0 >>= λ ab. some (ab, fract, p))
      else if n == 0
      then none
      else (to_nat_unchecked wrapped.offset >>= λ i.
          wrapped_pair frames i >>= λ ab. some (ab, fract, wrapped))

  unfoldable pub locate : List A → Position F → Option ((A × A) × F × Position F)
  locate frames p = to_nat_unchecked p.offset >>= locate_at frames p

  unfoldable pub steps : List A → F → Position F → List A → Option (List A × Position F)
  steps frames ds p [] = some ([], p)
  steps frames ds p (o ∷ out) = do
    (ab, fract, q) ← locate frames p
    (rest, last) ← steps frames ds (record q { offset = add q.offset ds }) out
    some (lerp fr ab.0 ab.1 fract ∷ rest, last)

module _ {F D A : Type 0} ⦃fl : Float F⦄ ⦃fd : Float D⦄ ⦃wide : Widen F D⦄ (fr : Frame F A) where
  unfoldable pub sample : Cycle D A → F → List A → Option (List A × Cycle D A)
  sample c interval out = do
    let ds = fl.mul interval (fl.of_nat (rate_of c.frames))
    let base = fd.to_nat c.cursor
    let start : Position F = record {
      base = base;
      offset = wide.narrow (fd.sub c.cursor (fd.of_nat base));
    }
    (out', p) ← steps fr c.frames.samples ds start out
    some (out', record c { cursor = fd.add (fd.of_nat p.base) (wide.widen p.offset) })

  unfoldable pub seek : Cycle D A → F → Cycle D A
  seek c seconds =
      let moved = fd.add c.cursor (fd.mul (wide.widen seconds) (fd.of_nat (rate_of c.frames))) in
      record c { cursor = fd.rem_euclid moved (fd.of_nat (length c.frames.samples)) }
