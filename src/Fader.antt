-- ===== src/Fader.antt =====
-- src/fader.rs: cross-fades between signals that another thread supplies.
-- The triple buffer of the command is part of the state, so the control's `fade_to` acts on it too.
pub mod Safe
pub mod Consumed
mod Tests
use oddio.Base.{
  ℕ, zero, suc, min, Option, none, some, List, [], ◌∷◌, ◌++◌, length, take, drop, replicate,
  if◌then◌else◌, ◌>>=◌,
}
use oddio.Float.{Float, zero_f, one_f}
use oddio.Frame.{Frame, mix, scale}
use oddio.Signal.{Signal}
use oddio.Swap
use oddio.Swap.{Swap}

pub record Command {ℓ} (F : Type 0) (S : Type ℓ) : Type ℓ where
  pub fade_to : S
  pub duration : F

pub record Fader {ℓ} (F : Type 0) (S : Type ℓ) : Type ℓ where
  pub progress : F
  pub next : Swap (Option (Command F S))
  pub inner : S

abbrev pub buffer_size : ℕ
buffer_size = 1024

module _ {ℓ} {F : Type 0} {S : Type ℓ} ⦃fl : Float F⦄ where
  unfoldable pub new : S → Fader F S
  new inner = record { progress = one_f; next = Swap.swap none none none; inner = inner }

  -- `FaderControl::fade_to`
  unfoldable pub fade_to : Fader F S → S → F → Fader F S
  fade_to f signal duration = record f {
    next =
        Swap.flush
          (Swap.set_pending f.next (some (record { fade_to = signal; duration = duration })));
  }

module _ {F A : Type 0} ⦃fl : Float F⦄ (fr : Frame F A) where
  open fl use {add, sub, sqrt, min_of}

  -- the loop over `out.iter_mut().zip(&buffer)`
  unfoldable pub blend : F → F → List A → List A → List A × F
  blend increment progress [] xs = ([], progress)
  blend increment progress (o ∷ out) [] = (o ∷ out, progress)
  blend increment progress (o ∷ out) (x ∷ xs) =
      let fade_out = sqrt (sub one_f progress) in
      let fade_in = sqrt progress in
      let (rest, last) = blend increment (min_of (add progress increment) one_f) out xs in
      (mix fr (scale fr x fade_out) (scale fr o fade_in) ∷ rest, last)

-- What the loop of `sample` carries.
pub record Fading {ℓ} (F : Type 0) (S : Type ℓ) : Type ℓ where
  pub progress : F
  pub inner : S
  pub fade : S

module _ {ℓ} {F A : Type 0} {S : Type ℓ} ⦃fl : Float F⦄ (fr : Frame F A) (sig : Signal F A S) where
  open fl use {div, le}

  -- `while !out.is_empty()`; one round of fuel for each chunk.
  unfoldable pub fade_loop : ℕ → F → F → Fading F S → List A → List A × Fading F S
  fade_loop zero interval increment f out = (out, f)
  fade_loop (suc fuel) interval increment f [] = ([], f)
  fade_loop (suc fuel) interval increment f (o ∷ out) =
      let n = min buffer_size (length (o ∷ out)) in
      let (buffer, inner') = sig.sample f.inner interval (replicate buffer_size fr.nought) in
      let (out', fade') = sig.sample f.fade interval (o ∷ out) in
      let (mixed, progress') = blend fr increment f.progress out' buffer in
      let f' : Fading F S = record { progress = progress'; inner = inner'; fade = fade' } in
      let (rest, last) = fade_loop fuel interval increment f' (drop n mixed) in
      (take n mixed ++ rest, last)

  -- The part of `sample` past the fast path; `none` is the panic of `unwrap`.
  unfoldable pub fade_sample : Fader F S → F → List A → Option (List A × Fader F S)
  fade_sample f interval out = do
    slot ← Swap.received f.next
    cmd ← slot
    let increment = div interval cmd.duration
    let start : Fading F S = record { progress = f.progress; inner = f.inner; fade = cmd.fade_to }
    let (out', end) = fade_loop (length out) interval increment start out
    let done = le one_f end.progress
    let stashed = if done then end.inner else end.fade
    some (
      out',
      record {
        progress = end.progress;
        next = Swap.set_received f.next (some (record cmd { fade_to = stashed }));
        inner = if done then end.fade else end.inner;
      },
    )

  unfoldable pub sample : Fader F S → F → List A → Option (List A × Fader F S)
  sample f interval out =
      let (fresh, next') = Swap.refresh f.next in
      if le one_f f.progress
      then (if fresh
          then fade_sample (record f { progress = zero_f; next = next' }) interval out
          else (let (out', inner') = sig.sample f.inner interval out in
              some (out', record f { inner = inner' })))
      else fade_sample f interval out
