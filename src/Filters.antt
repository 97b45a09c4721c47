-- ===== src/Filters.antt =====
-- The stateless or nearly stateless signals: src/constant.rs, src/sine.rs, src/speed.rs,
-- src/reinhard.rs, src/tanh.rs and src/adapt.rs.
use oddio.Base.{ℕ, suc, false, List, [], ◌∷◌, length, map}
use oddio.Float.{Float, one_f}
use oddio.Frame.{Frame}
use oddio.Signal.{Signal, Seek}

-- `Constant`
module _ {F A : Type 0} where
  unfoldable pub constant_sample : A → F → List A → List A × A
  constant_sample x interval out = (map (λ _. x) out, x)

  abbrev pub constant : Signal F A A
  constant = record { sample = constant_sample; is_finished = λ x. false }

  abbrev pub constant_seek : Seek F A
  constant_seek = record { seek = λ x seconds. x }

-- `Sine`
pub record Sine (F : Type 0) : Type 0 where
  pub phase : F
  pub frequency : F

module _ {F : Type 0} ⦃fl : Float F⦄ where
  open fl use {literal, add, mul, div, rem, of_nat, sin, neg, sub}

  -- `TAU` of the standard library, to the precision of an f32
  abbrev tau : F
  tau = literal 6_283_185_307 1_000_000_000

  unfoldable pub sine_new : F → F → Sine F
  sine_new phase frequency_hz = record { phase = phase; frequency = mul frequency_hz tau }

  unfoldable pub seek_to : Sine F → F → Sine F
  seek_to s t = record s { phase = rem (add s.phase (mul t s.frequency)) tau }

  -- the loop of `sample`, from index `i` on
  unfoldable pub sine_from : Sine F → F → ℕ → List F → List F
  sine_from s interval i [] = []
  sine_from s interval i (x ∷ out) =
      let t = mul interval (of_nat i) in
      sin (add (mul t s.frequency) s.phase) ∷ sine_from s interval (suc i) out

  unfoldable pub sine_sample : Sine F → F → List F → List F × Sine F
  sine_sample s interval out =
      (sine_from s interval 0 out, seek_to s (mul interval (of_nat (length out))))

  abbrev pub sine : Signal F F (Sine F)
  sine = record { sample = sine_sample; is_finished = λ s. false }

  abbrev pub sine_seek : Seek F (Sine F)
  sine_seek = record { seek = seek_to }

-- `Speed`; the factor is the atomic that `SpeedControl` shares.
pub record Speed {ℓ} (F : Type 0) (S : Type ℓ) : Type ℓ where
  pub speed : F
  pub inner : S

module _ {ℓ} {F : Type 0} {S : Type ℓ} ⦃fl : Float F⦄ where
  unfoldable pub speed_new : S → Speed F S
  speed_new s = record { speed = one_f; inner = s }

  unfoldable pub set_speed : Speed F S → F → Speed F S
  set_speed s factor = record s { speed = factor }

module _ {ℓ} {F A : Type 0} {S : Type ℓ} ⦃fl : Float F⦄ where
  unfoldable pub speed_sample : Signal F A S → Speed F S → F → List A → List A × Speed F S
  speed_sample sig s interval out =
      let (out', inner') = sig.sample s.inner (fl.mul interval s.speed) out in
      (out', record s { inner = inner' })

  abbrev pub speed : Signal F A S → Signal F A (Speed F S)
  speed sig = record { sample = speed_sample sig; is_finished = λ s. sig.is_finished s.inner }

-- `Reinhard` and `Tanh`: a function on every channel.
module _ {F A : Type 0} (fr : Frame F A) where
  open fr use {channels, set_channels}

  -- `for channel in x.channels_mut() { *channel = f(*channel); }`
  unfoldable pub on_channels : (F → F) → A → A
  on_channels f x = set_channels x (map f (channels x))

module _ {F : Type 0} ⦃fl : Float F⦄ where
  open fl use {add, div, abs}

  abbrev pub compress : F → F
  compress x = div x (add one_f (abs x))

module _ {ℓ} {F A : Type 0} {S : Type ℓ} ⦃fl : Float F⦄ (fr : Frame F A) where
  open fl use {tanh}

  unfoldable pub reinhard_sample : Signal F A S → S → F → List A → List A × S
  reinhard_sample sig s interval out =
      let (out', s') = sig.sample s interval out in (map (on_channels fr compress) out', s')

  abbrev pub reinhard : Signal F A S → Signal F A S
  reinhard sig = record { sample = reinhard_sample sig; is_finished = sig.is_finished }

  abbrev pub reinhard_seek : Seek F S → Seek F S
  reinhard_seek sk = record { seek = λ s seconds. sk.seek s seconds }

  unfoldable pub tanh_sample : Signal F A S → S → F → List A → List A × S
  tanh_sample sig s interval out =
      let (out', s') = sig.sample s interval out in (map (on_channels fr tanh) out', s')

  abbrev pub tanh_signal : Signal F A S → Signal F A S
  tanh_signal sig = record { sample = tanh_sample sig; is_finished = sig.is_finished }

  abbrev pub tanh_seek : Seek F S → Seek F S
  tanh_seek sk = record { seek = λ s seconds. sk.seek s seconds }
