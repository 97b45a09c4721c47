-- ===== src/Spatial/Ears.antt =====
-- The ears of src/spatial.rs, and the mixing of a signal into one channel.
use oddio.Base.{ℕ, suc, List, [], ◌∷◌, if◌then◌else◌}
use oddio.Float.{Float, zero_f, one_f}
use oddio.Vector
use oddio.Vector.{Vec3}
use oddio.Spatial.{speed_of_sound}

pub data Ear : Type 0 where
  left right : Ear

pub record EarState (F : Type 0) : Type 0 where
  pub offset : F
  pub gain : F

module _ {F : Type 0} ⦃fl : Float F⦄ where
  open fl use {literal, neg, add, sub, mul, div, lt, max_of, sqrt, of_nat}

  -- `HEAD_RADIUS`
  abbrev head_radius : F
  head_radius = literal 1075 10000

  unfoldable pub ear_pos : Ear → Vec3 F
  ear_pos left = record { x = neg head_radius; y = zero_f; z = zero_f }
  ear_pos right = record { x = head_radius; y = zero_f; z = zero_f }

  abbrev side : Ear → F
  side left = neg one_f
  side right = one_f

  unfoldable pub ear_dir : Ear → Vec3 F
  ear_dir e = record {
    x = div (mul (side e) (literal 4 1)) (sqrt (literal 17 1));
    y = zero_f;
    z = div (neg one_f) (sqrt (literal 17 1));
  }

  unfoldable pub ear_state : Vec3 F → Ear → F → EarState F
  ear_state position ear radius =
      let distance = Vector.norm (Vector.sub position (ear_pos ear)) in
      let distance_gain = div radius (max_of distance radius) in
      let facing =
        if lt distance (literal 1 1000)
        then literal 1 2
        else Vector.dot (ear_dir ear) (Vector.scale position (div (literal 1 2) distance)) in
      record {
        offset = mul distance (div (neg one_f) speed_of_sound);
        gain = mul (add (literal 1 2) facing) distance_gain;
      }

  -- `o[ear as usize] += x`
  unfoldable pub add_to : Ear → F → F × F → F × F
  add_to left x o = (add o.0 x, o.1)
  add_to right x o = (o.0, add o.1 x)

  -- The loop over a chunk: sample `s` with the gain at index `i`.
  unfoldable pub mix_chunk : Ear → F → F → ℕ → List F → List (F × F) → List (F × F)
  mix_chunk ear gain d_gain i [] chunk = chunk
  mix_chunk ear gain d_gain i (s ∷ buf) [] = []
  mix_chunk ear gain d_gain i (s ∷ buf) (o ∷ chunk) =
      add_to ear (mul s (add gain (mul (of_nat i) d_gain))) o
      ∷ mix_chunk ear gain d_gain (suc i) buf chunk
