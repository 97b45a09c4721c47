-- ===== src/Gain.antt =====
-- src/gain.rs and src/smooth.rs: amplification by a constant, and by a factor that another thread
-- sets and that is approached smoothly.
use oddio.Base.{not, List, [], ◌∷◌, map, if◌then◌else◌}
use oddio.Float.{Float, zero_f, one_f}
use oddio.Frame.{Frame, scale}
use oddio.Signal.{Signal, Seek}

-- `Smoothed<f32>`
pub record Smoothed (F : Type 0) : Type 0 where
  pub prev : F
  pub next : F
  pub progress : F

-- `Gain`; `shared` is the atomic that `GainControl` also holds.
pub record Gain {ℓ} (F : Type 0) (S : Type ℓ) : Type ℓ where
  pub shared : F
  pub gain : Smoothed F
  pub inner : S

-- `FixedGain`
pub record FixedGain {ℓ} (F : Type 0) (S : Type ℓ) : Type ℓ where
  pub gain : F
  pub inner : S

module _ {F : Type 0} ⦃fl : Float F⦄ where
  open fl use {literal, add, sub, mul, div, eq, min_of, powf, log10}

  -- `Interpolate for f32`
  unfoldable pub interpolate : F → F → F → F
  interpolate a b t = let diff = sub b a in add a (mul t diff)

  unfoldable pub smoothed : F → Smoothed F
  smoothed x = record { prev = x; next = x; progress = one_f }

  unfoldable pub advance : Smoothed F → F → Smoothed F
  advance s proportion = record s { progress = min_of (add s.progress proportion) one_f }

  unfoldable pub get : Smoothed F → F
  get s = interpolate s.prev s.next s.progress

  unfoldable pub set_target : Smoothed F → F → Smoothed F
  set_target s x = record { prev = get s; next = x; progress = zero_f }

  -- `if self.gain.target() != &shared { self.gain.set(shared); }`
  unfoldable pub retarget : F → Smoothed F → Smoothed F
  retarget shared g = if not (eq g.next shared) then set_target g shared else g

  abbrev pub smoothing_period : F
  smoothing_period = literal 1 10

  abbrev pub ratio_of_decibels : F → F
  ratio_of_decibels db = powf (literal 10 1) (div db (literal 20 1))

module _ {ℓ} {F : Type 0} {S : Type ℓ} ⦃fl : Float F⦄ where
  open fl use {literal, add, sub, mul, div, eq, min_of, powf, log10}

  unfoldable pub new : S → Gain F S
  new s = record { shared = one_f; gain = smoothed one_f; inner = s }

  -- `Gain::set_amplitude_ratio`, before playback
  unfoldable pub set_initial_ratio : Gain F S → F → Gain F S
  set_initial_ratio g factor = record g { shared = factor; gain = smoothed factor }

  unfoldable pub set_initial_gain : Gain F S → F → Gain F S
  set_initial_gain g db = set_initial_ratio g (ratio_of_decibels db)

  -- `GainControl::set_amplitude_ratio`
  unfoldable pub set_amplitude_ratio : Gain F S → F → Gain F S
  set_amplitude_ratio g factor = record g { shared = factor }

  unfoldable pub set_gain : Gain F S → F → Gain F S
  set_gain g db = set_amplitude_ratio g (ratio_of_decibels db)

  unfoldable pub amplitude_ratio : Gain F S → F
  amplitude_ratio g = g.shared

  unfoldable pub decibels : Gain F S → F
  decibels g = mul (literal 20 1) (log10 (amplitude_ratio g))

  -- `FixedGain::new`
  unfoldable pub fixed_new : S → F → FixedGain F S
  fixed_new s db = record { gain = ratio_of_decibels db; inner = s }

module _ {F A : Type 0} ⦃fl : Float F⦄ (fr : Frame F A) where
  open fl use {div, eq}

  -- the last loop of `Gain::sample`
  unfoldable pub ramp : F → Smoothed F → List A → List A × Smoothed F
  ramp interval g [] = ([], g)
  ramp interval g (x ∷ xs) =
      let (ys, last) = ramp interval (advance g (div interval smoothing_period)) xs in
      (scale fr x (get g) ∷ ys, last)

  -- what `Gain::sample` does to the frames of the inner signal
  unfoldable pub amplify : F → Smoothed F → List A → List A × Smoothed F
  amplify interval g out =
      if eq g.progress one_f
      then (if not (eq (get g) one_f) then map (λ x. scale fr x (get g)) out else out, g)
      else ramp interval g out

module _ {ℓ} {F A : Type 0} {S : Type ℓ} ⦃fl : Float F⦄ (fr : Frame F A) where
  open fl use {literal, add, sub, mul, div, eq, min_of}

  unfoldable pub fixed_sample : Signal F A S → FixedGain F S → F → List A → List A × FixedGain F S
  fixed_sample sig s interval out =
      let (out', inner') = sig.sample s.inner interval out in
      (map (λ x. scale fr x s.gain) out', record s { inner = inner' })

  unfoldable pub sample : Signal F A S → Gain F S → F → List A → List A × Gain F S
  sample sig s interval out =
      let (out', inner') = sig.sample s.inner interval out in
      let (frames, g) = amplify fr interval (retarget s.shared s.gain) out' in
      (frames, record s { gain = g; inner = inner' })

  abbrev pub fixed_gain : Signal F A S → Signal F A (FixedGain F S)
  fixed_gain sig = record { sample = fixed_sample sig; is_finished = λ s. sig.is_finished s.inner }

  abbrev pub gain_signal : Signal F A S → Signal F A (Gain F S)
  gain_signal sig = record { sample = sample sig; is_finished = λ s. sig.is_finished s.inner }

-- The filters that pass a seek on.
abbrev pub fixed_gain_seek {ℓ} : {F : Type 0} {S : Type ℓ} → Seek F S → Seek F (FixedGain F S)
fixed_gain_seek sk = record { seek = λ s t. record s { inner = sk.seek s.inner t } }
