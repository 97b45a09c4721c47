-- ===== src/Stream.antt =====
-- src/stream.rs: audio that another thread supplies through a channel.
-- The channel is part of the state, so the control's operations act on it too.
pub mod Play
mod Tests
use oddio.Base.{
  ℕ, suc, Bool, true, false, Option, some, List, [], ◌∷◌, length, ltb, ◌&&◌, if◌then◌else◌, ◌>>=◌,
}
use oddio.Base.Int.{ℤ, pos, negsuc, add_isize}
use oddio.Float.{Float, zero_f}
use oddio.Frame.{Frame, lerp}
use oddio.Spsc
use oddio.Spsc.{Channel}

pub record Stream (F : Type 0) (A : Type 0) : Type 0 where
  pub rate : ℕ
  pub inner : Channel A
  pub t : F
  pub stopping : Bool

module _ {F A : Type 0} ⦃fl : Float F⦄ where
  open fl use {add, mul, eq, of_nat, to_nat, min_of, fract}

  unfoldable pub new : ℕ → ℕ → Stream F A
  new rate size = record { rate = rate; inner = Spsc.channel size; t = zero_f; stopping = false }

  -- `StreamControl::free` and `StreamControl::write`
  unfoldable pub free : Stream F A → ℕ
  free s = Spsc.free s.inner

  unfoldable pub write : Stream F A → List A → ℕ × Stream F A
  write s samples =
      let (n, inner') = Spsc.send_from_slice s.inner samples in (n, record s { inner = inner' })

  -- Dropping the control drops the sender.
  unfoldable pub drop_control : Stream F A → Stream F A
  drop_control s = record s { inner = Spsc.drop_sender s.inner }

  -- where the playback stands after `dt`, before the frames that it has passed are released
  unfoldable pub reached : Stream F A → F → F
  reached s dt = min_of (add s.t (mul dt (of_nat s.rate))) (of_nat s.inner.len)

  unfoldable pub advance : Stream F A → F → Option (Stream F A)
  advance s dt = do
    let t = reached s dt
    (gone, inner') ← Spsc.release s.inner (to_nat t)
    some (record s { inner = inner'; t = fract t })

  unfoldable pub is_finished : Stream F A → Bool
  is_finished s = s.stopping && eq s.t (of_nat s.inner.len)

  -- the start of `sample`
  unfoldable pub refresh : Stream F A → Stream F A
  refresh s =
      let inner' = Spsc.update s.inner in
      record s {
        inner = inner';
        stopping = if Spsc.receiver_is_closed inner' then true else s.stopping;
      }

module _ {F A : Type 0} ⦃fl : Float F⦄ (fr : Frame F A) where
  open fl use {add, mul, of_nat, to_int, trunc, fract}
  open fr use {nought}

  -- `Stream::get`; `none` is a panic or a read of an uninitialised slot.
  unfoldable pub get : Stream F A → ℤ → Option A
  get s (negsuc n) = some nought
  get s (pos i) = if ltb i s.inner.len then (Spsc.index s.inner i >>= λ x. x) else some nought

  unfoldable pub sample_single : Stream F A → F → Option A
  sample_single s at = do
    let x0 = to_int (trunc at)
    a ← get s x0
    x1 ← add_isize x0 (pos 1)
    b ← get s x1
    some (lerp fr a b (fract at))

  -- the loop of `sample`, from index `i` on
  unfoldable pub singles : Stream F A → F → F → ℕ → List A → Option (List A)
  singles s s0 ds i [] = some []
  singles s s0 ds i (o ∷ out) = do
    x ← sample_single s (add s0 (mul ds (of_nat i)))
    rest ← singles s s0 ds (suc i) out
    some (x ∷ rest)

  unfoldable pub sample : Stream F A → F → List A → Option (List A × Stream F A)
  sample s interval out = do
    let s' = refresh s
    out' ← singles s' s'.t (mul interval (of_nat s'.rate)) 0 out
    s'' ← advance s' (mul interval (of_nat (length out)))
    some (out', s'')
