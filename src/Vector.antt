-- ===== src/Vector.antt =====
-- The vectors and quaternions of src/math/mod.rs. `mint::Point3` and `mint::Vector3` are both `Vec3`.
use oddio.Base.Int.{pos}
use oddio.Float.{Float, zero_f, one_f}

pub record Vec3 (F : Type 0) : Type 0 where
  pub x : F
  pub y : F
  pub z : F

pub record Quaternion (F : Type 0) : Type 0 where
  pub s : F
  pub v : Vec3 F

module _ {F : Type 0} ⦃fl : Float F⦄ where
  open fl use {neg, add as plus, sub as minus, mul, sqrt, powi}

  abbrev sum3 : F → F → F → F
  sum3 a b c = plus (plus (plus zero_f a) b) c

  unfoldable pub norm : Vec3 F → F
  norm a = sqrt (sum3 (powi a.x (pos 2)) (powi a.y (pos 2)) (powi a.z (pos 2)))

  unfoldable pub dot : Vec3 F → Vec3 F → F
  dot a b = sum3 (mul a.x b.x) (mul a.y b.y) (mul a.z b.z)

  unfoldable pub scale : Vec3 F → F → Vec3 F
  scale a f = record { x = mul a.x f; y = mul a.y f; z = mul a.z f }

  unfoldable pub sub : Vec3 F → Vec3 F → Vec3 F
  sub a b = record { x = minus a.x b.x; y = minus a.y b.y; z = minus a.z b.z }

  unfoldable pub add : Vec3 F → Vec3 F → Vec3 F
  add a b = record { x = plus a.x b.x; y = plus a.y b.y; z = plus a.z b.z }

  unfoldable pub mix : Vec3 F → Vec3 F → F → Vec3 F
  mix a b r =
      let ir = minus one_f r in
      record {
        x = plus (mul ir a.x) (mul r b.x);
        y = plus (mul ir a.y) (mul r b.y);
        z = plus (mul ir a.z) (mul r b.z);
      }

  unfoldable pub invert_quat : Quaternion F → Quaternion F
  invert_quat q = record { s = q.s; v = record { x = neg q.v.x; y = neg q.v.y; z = neg q.v.z } }

  unfoldable pub quat_mul : Quaternion F → Quaternion F → Quaternion F
  quat_mul q r = record {
    s = minus (minus (minus (mul q.s r.s) (mul q.v.x r.v.x)) (mul q.v.y r.v.y)) (mul q.v.z r.v.z);
    v = record {
      x = minus (plus (plus (mul q.s r.v.x) (mul q.v.x r.s)) (mul q.v.y r.v.z)) (mul q.v.z r.v.y);
      y = plus (plus (minus (mul q.s r.v.y) (mul q.v.x r.v.z)) (mul q.v.y r.s)) (mul q.v.z r.v.x);
      z = plus (minus (plus (mul q.s r.v.z) (mul q.v.x r.v.y)) (mul q.v.y r.v.x)) (mul q.v.z r.s);
    };
  }

  unfoldable pub rotate : Quaternion F → Vec3 F → Vec3 F
  rotate rot p = (quat_mul rot (quat_mul (record { s = zero_f; v = p }) (invert_quat rot))).v
