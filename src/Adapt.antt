-- ===== src/Adapt.antt =====
-- src/adapt.rs: gain that keeps the average level within a range.
use oddio.Base.{List, [], ◌∷◌, if◌then◌else◌}
use oddio.Float.{Float, zero_f, one_f}
use oddio.Frame.{Frame}
use oddio.Signal.{Signal}
use oddio.Filters.{on_channels}

pub record AdaptOptions (F : Type 0) : Type 0 where
  pub tau : F
  pub max_gain : F
  pub low : F
  pub high : F

pub record Adapt {ℓ} (F : Type 0) (S : Type ℓ) : Type ℓ where
  pub options : AdaptOptions F
  pub avg_squared : F
  pub inner : S

module _ {F : Type 0} ⦃fl : Float F⦄ where
  open fl use {literal, add, sub, mul, div, lt, sqrt, min_of}

  unfoldable pub new {ℓ} : {S : Type ℓ} → S → F → AdaptOptions F → Adapt F S
  new inner initial_rms options = record {
    options = options;
    avg_squared = mul initial_rms initial_rms;
    inner = inner;
  }

  -- the gain for an average peak
  unfoldable pub gain_for : AdaptOptions F → F → F
  gain_for o peak =
      if lt peak o.low
      then min_of (div o.low peak) o.max_gain
      else if lt o.high peak
      then div o.high peak
      else one_f

  -- `iter().sum::<f32>()`
  abbrev pub sum_from : F → List F → F
  sum_from acc [] = acc
  sum_from acc (x ∷ xs) = sum_from (add acc x) xs

  abbrev pub peak_of : F → F
  peak_of avg = mul (sqrt avg) (sqrt (literal 2 1))

  abbrev pub next_average : F → F → F → F
  next_average alpha avg sum = add (mul (mul sum sum) alpha) (mul avg (sub one_f alpha))

  -- the loop of `sample`
  unfoldable pub adapt_frames :
      {A : Type 0} → Frame F A → AdaptOptions F → F → F → List A → List A × F
  adapt_frames fr o alpha avg [] = ([], avg)
  adapt_frames fr o alpha avg (x ∷ xs) =
      let avg' = next_average alpha avg (sum_from zero_f (fr.channels x)) in
      let gain = gain_for o (peak_of avg') in
      let (ys, last) = adapt_frames fr o alpha avg' xs in
      (on_channels fr (λ c. mul c gain) x ∷ ys, last)

module _ {ℓ} {F A : Type 0} {S : Type ℓ} ⦃fl : Float F⦄ where
  open fl use {neg, sub, div, exp}

  unfoldable pub sample : Frame F A → Signal F A S → Adapt F S → F → List A → List A × Adapt F S
  sample fr sig s interval out =
      let alpha = sub one_f (exp (div (neg interval) s.options.tau)) in
      let (out', inner') = sig.sample s.inner interval out in
      let (frames, avg) = adapt_frames fr s.options alpha s.avg_squared out' in
      (frames, record s { avg_squared = avg; inner = inner' })

  abbrev pub adapt : Frame F A → Signal F A S → Signal F A (Adapt F S)
  adapt fr sig = record { sample = sample fr sig; is_finished = λ s. sig.is_finished s.inner }
