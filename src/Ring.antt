-- ===== src/Ring.antt =====
-- src/ring.rs: a ring of samples, written at a cursor and read at a time behind it.
-- `none` is a panic: an assertion, a slice or an index out of range, or a remainder by zero.
pub mod Wrap
pub mod Fill
mod Tests
use oddio.Base.{
  ℕ, Bool, ◌&&◌, ◌+◌, ◌-◌, ◌%◌, Option, none, some, List, [], ◌∷◌, ◌++◌, length, take, drop,
  replicate, ltb, leb, ◌==◌, if◌then◌else◌, ◌>>=◌, sub_usize,
}
use oddio.Float.{Float, zero_f, one_f}
use oddio.Frame.{lerp, sample_frame}
use oddio.Signal.{Signal}
use oddio.Cycle.{pair_of, wrapped_pair}

pub record Ring (F : Type 0) : Type 0 where
  pub buffer : List F
  pub write : F

-- `&mut buffer[start..end]`: what stands before, in and after the slice
unfoldable pub slice {ℓ} : {A : Type ℓ} → List A → ℕ → ℕ → Option (List A × List A × List A)
slice xs start end =
    if leb start end
    then (if leb end (length xs)
        then some (take start xs, take (end - start) (drop start xs), drop end xs)
        else none)
    else none

module _ {F : Type 0} ⦃fl : Float F⦄ where
  open fl use {
    add, sub, mul, div, rem, lt, le, of_nat, to_nat, to_nat_unchecked, abs, ceil, rem_euclid,
  }

  unfoldable pub new : ℕ → Ring F
  new capacity = record { buffer = replicate capacity zero_f; write = zero_f }

  unfoldable pub delay : Ring F → ℕ → F → Ring F
  delay r rate dt = record r {
    write = rem (add r.write (mul (of_nat rate) dt)) (of_nat (length r.buffer));
  }

  module _ {ℓ} {S : Type ℓ} (sig : Signal F F S) where
    -- `signal.sample(interval, &mut buffer[start..end])`
    unfoldable pub sample_slice : S → F → List F → ℕ → ℕ → Option (List F × S)
    sample_slice s interval buffer start end = do
      (before, middle, after) ← slice buffer start end
      let (middle', s') = sig.sample s interval middle
      some (before ++ (middle' ++ after), s')

    -- `write` after its assertion
    unfoldable pub fill : Ring F → S → ℕ → F → Option (Ring F × S)
    fill r s rate dt = do
      let n = length r.buffer
      let end = rem (add r.write (mul dt (of_nat rate))) (of_nat n)
      let start_idx = to_nat (ceil r.write)
      let end_idx = to_nat (ceil end)
      let interval = div one_f (of_nat rate)
      (buffer, s') ←
          if ltb start_idx end_idx
          then sample_slice s interval r.buffer start_idx end_idx
          else (sample_slice s interval r.buffer start_idx n >>= λ bs.
              sample_slice bs.1 interval bs.0 0 end_idx)
      some (record { buffer = buffer; write = end }, s')

    unfoldable pub write : Ring F → S → ℕ → F → Option (Ring F × S)
    write r s rate dt =
        if le (mul dt (of_nat rate)) (of_nat (length r.buffer)) then fill r s rate dt else none

  -- the body of the loop of `sample` at the whole part of the offset: the pair of samples, the
  -- fraction and the offset
  unfoldable pub locate_at : List F → F → ℕ → Option ((F × F) × F × F)
  locate_at buffer offset x =
      let fract = sub offset (of_nat x) in
      let n = length buffer in
      if ltb x (sub_usize n 1)
      then (pair_of buffer x (x + 1) >>= λ ab. some (ab, fract, offset))
      else if ltb x n
      then (pair_of buffer x 0 >>= λ ab. some (ab, fract, offset))
      else if n == 0
      then none
      else (wrapped_pair buffer (x % n) >>= λ ab. some (ab, fract, add (of_nat (x % n)) fract))

  -- `none` also where the unchecked conversion of the offset is undefined
  unfoldable pub locate : List F → F → Option ((F × F) × F × F)
  locate buffer offset = to_nat_unchecked offset >>= locate_at buffer offset

  unfoldable pub sample_from : List F → F → F → List F → Option (List F)
  sample_from buffer ds offset [] = some []
  sample_from buffer ds offset (o ∷ out) = do
    (ab, fract, offset') ← locate buffer offset
    rest ← sample_from buffer ds (add offset' ds) out
    some (lerp sample_frame ab.0 ab.1 fract ∷ rest)

  -- the two assertions of `sample`: the time is negative, and less than the ring's length ago
  abbrev pub reaches : Ring F → ℕ → F → Bool
  reaches r rate t =
      lt t zero_f && ltb (to_nat (ceil (abs (mul t (of_nat rate))))) (length r.buffer)

  unfoldable pub sample : Ring F → ℕ → F → F → List F → Option (List F)
  sample r rate t interval out =
      let start = rem_euclid (add r.write (mul t (of_nat rate))) (of_nat (length r.buffer)) in
      if reaches r rate t then sample_from r.buffer (mul interval (of_nat rate)) start out else none
