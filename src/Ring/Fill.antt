-- ===== src/Ring/Fill.antt =====
-- Writing to the delay ring: the cursor stays inside, so that no slice is out of range.
use oddio.Base.{
  ℕ, ◌-◌, ◌^◌, ◌<◌, ◌≤◌, ◌≡◌, refl, ◌∙◌, inl, inr, true, Bool-cases, some, List, ◌++◌, arith,
  length, length-append, length-take, length-drop, take, drop, ltb, leb, ◌>>=◌,
}
use oddio.Float.{Float, one_f}
use oddio.Signal.{Signal, KeepsLength}
use oddio.Ring.{Ring, slice, sample_slice, fill, write}

-- The lengths up to which f32 counts exactly.
abbrev pub exact_len : ℕ
exact_len = 2 ^ 24

-- A remainder by a length, rounded up and converted, is no index past the end. For f32, with its
-- saturating conversion, this holds for every length that it represents exactly.
pub record WrapsAround {F : Type 0} (fl : Float F) : Type 0 where
  pub within :
      (x : F) (n : ℕ) → 0 < n → n ≤ exact_len → fl.to_nat (fl.ceil (fl.rem x (fl.of_nat n))) ≤ n

module _ {F : Type 0} ⦃fl : Float F⦄ where
  -- The ring has at least one sample, and its cursor is inside.
  pub record IsReady (r : Ring F) : Type 0 where
    pub some_left : 0 < length r.buffer
    pub small : length r.buffer ≤ exact_len
    pub inside : fl.to_nat (fl.ceil r.write) ≤ length r.buffer

module _ {ℓ} {F : Type 0} {S : Type ℓ} ⦃fl : Float F⦄ (sig : Signal F F S)
    (keeps : KeepsLength sig) where
  sample_slice-total :
      (s : S) (interval : F) (buffer : List F) (start end : ℕ)
      → start ≤ end
      → end ≤ length buffer
      → (b : List F) × (s' : S) × (sample_slice sig s interval buffer start end ≡ some (b, s'))
        × (length b ≡ length buffer)
  unfolding sample_slice slice
  sample_slice-total s interval buffer start end p q =
      let e : leb start end ≡ true = ground arith in
      let f : leb end (length buffer) ≡ true = ground arith in
      let before = take start buffer in
      let middle = take (end - start) (drop start buffer) in
      let after = drop end buffer in
      let (got, s') = sig.sample s interval middle in
      (
        before ++ (got ++ after),
        s',
        rw (e, f, ◌>>=◌) refl,
        omega (
          arith,
          p,
          q,
          keeps s interval middle,
          length-append before (got ++ after),
          length-append got after,
          length-take start buffer,
          length-take (end - start) (drop start buffer),
          length-drop start buffer,
          length-drop end buffer,
        ),
      )

  -- On a float type whose remainders stay in the ring, `write` to a ring that is ready, of at most as
  -- many samples as the ring is long, does not panic, for a signal that fills the slice that it is
  -- given, and leaves the ring ready and as long as it was.
  pub ring_write_lem :
      (r : Ring F) (s : S) (rate : ℕ) (dt : F)
      → WrapsAround fl
      → IsReady r
      → fl.le (fl.mul dt (fl.of_nat rate)) (fl.of_nat (length r.buffer)) ≡ true
      → (r' : Ring F) × (s' : S) × (write sig r s rate dt ≡ some (r', s'))
        × IsReady r'
        × (length r'.buffer ≡ length r.buffer)
  unfolding write fill
  ring_write_lem r s rate dt wraps h short =
      let n = length r.buffer in
      let end = fl.rem (fl.add r.write (fl.mul dt (fl.of_nat rate))) (fl.of_nat n) in
      let i = fl.to_nat (fl.ceil r.write) in
      let j = fl.to_nat (fl.ceil end) in
      let interval = fl.div one_f (fl.of_nat rate) in
      let bound : j ≤ n =
        wraps.within (fl.add r.write (fl.mul dt (fl.of_nat rate))) n h.some_left h.small in
      let ready = λ (b : List F) (e : length b ≡ n).
        let z : Ring F = record { buffer = b; write = end } in
        let it : IsReady z = record {
          some_left = omega (arith, e, h.some_left);
          small = omega (arith, e, h.small);
          inside = omega (arith, e, bound);
        } in
        it in
      rw short (elim (Bool-cases (ltb i j)) [
        | inl e ↦
            let (b, s', ran, count) =
              sample_slice-total s interval r.buffer i j (ground arith) bound in
            (record { buffer = b; write = end }, s', rw (e, ran, ◌>>=◌) refl, ready b count, count)
        | inr e ↦
            let (b, s1, ran, count) =
              sample_slice-total s interval r.buffer i n h.inside (omega arith) in
            let (b2, s2, ran2, count2) =
              sample_slice-total s1 interval b 0 j (omega arith) (omega (arith, count, bound)) in
            let all = count2 ∙ count in
            (
              record { buffer = b2; write = end },
              s2,
              rw (e, ran, ◌>>=◌, ran2) refl,
              ready b2 all,
              all,
            )
      ])
