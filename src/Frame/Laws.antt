-- ===== src/Frame/Laws.antt =====
-- Frames that have as many channels as their type says work channel by channel.
use oddio.Base.{
  Option, some, none, zero, get_elem?, ◌>>=◌, ℕ, suc, length-replicate, ◌≡◌, refl, ap, sym, ◌∙◌,
  List, [], ◌∷◌, map as map_list, length, length-map, arith,
}
use oddio.Float.{Float, zero_f}
use oddio.Frame.{
  Frame, overwrite, zip_with, map, bimap, sample_frame, stereo_frame, samples_frame, set_sample,
  set_stereo,
}

-- Every frame of the type has the channels of the zero frame, and a write through all of them is
-- read back.
pub record IsFrame {F A : Type 0} (fr : Frame F A) : Type 0 where
  pub same_count : (x : A) → length (fr.channels x) ≡ length (fr.channels fr.nought)
  pub written :
      (x : A) (ys : List F)
      → length ys ≡ length (fr.channels x)
      → fr.channels (fr.set_channels x ys) ≡ ys

overwrite_all {ℓ} : {B : Type ℓ} (ys os : List B) → length ys ≡ length os → overwrite ys os ≡ ys
unfolding overwrite
overwrite_all [] [] e = refl
overwrite_all [] (o ∷ os) e = absurd (omega arith)
overwrite_all (y ∷ ys) [] e = absurd (omega arith)
overwrite_all (y ∷ ys) (o ∷ os) e = ap (◌∷◌ y) (overwrite_all ys os (omega arith))

length-zip_with {ℓ} :
    {B : Type ℓ} (f : B → B → B) (xs ys : List B)
    → length xs ≡ length ys
    → length (zip_with f xs ys) ≡ length xs
unfolding zip_with
length-zip_with f [] ys e = refl
length-zip_with f (x ∷ xs) [] e = absurd (omega arith)
length-zip_with f (x ∷ xs) (y ∷ ys) e = ap suc (length-zip_with f xs ys (omega arith))

nowhere {ℓ κ} :
    {A : Type ℓ} {B : Type κ} (o : Option A)
    → let nothing : Option B = none in (o >>= λ a. nothing) ≡ nothing
nowhere none = refl
nowhere (some a) = refl

get_elem?-zip_with {ℓ} :
    {B : Type ℓ} (f : B → B → B) (xs ys : List B) (i : ℕ)
    → get_elem? (zip_with f xs ys) i
      ≡ (get_elem? xs i >>= λ a. get_elem? ys i >>= λ b. some (f a b))
unfolding zip_with
get_elem?-zip_with f [] ys i = refl
get_elem?-zip_with f (x ∷ xs) [] i = sym (nowhere (get_elem? (x ∷ xs) i))
get_elem?-zip_with f (x ∷ xs) (y ∷ ys) zero = refl
get_elem?-zip_with f (x ∷ xs) (y ∷ ys) (suc i) = get_elem?-zip_with f xs ys i

module _ {F A : Type 0} ⦃fl : Float F⦄ (fr : Frame F A) (laws : IsFrame fr) where
  -- `map` applies its function to every channel.
  pub channels-map : (x : A) (f : F → F) → fr.channels (map fr x f) ≡ map_list f (fr.channels x)
  unfolding map
  channels-map x f =
      let ys = map_list f (fr.channels x) in
      let count = length-map (fr.channels x) f ∙ laws.same_count x in
      rw (overwrite_all ys (fr.channels fr.nought) count, map) (laws.written fr.nought ys count)

  channels-zip_with :
      (x y : A) (f : F → F → F)
      → fr.channels (bimap fr x y f) ≡ zip_with f (fr.channels x) (fr.channels y)
  unfolding bimap
  channels-zip_with x y f =
      let zs = zip_with f (fr.channels x) (fr.channels y) in
      let same = laws.same_count x ∙ sym (laws.same_count y) in
      let count = length-zip_with f (fr.channels x) (fr.channels y) same ∙ laws.same_count x in
      rw (overwrite_all zs (fr.channels fr.nought) count, bimap) (laws.written fr.nought zs count)

  -- For a type of frames that keeps its number of channels and reads back what is written, the channel
  -- `i` of `bimap` is the function of the channels `i` of the first and of the second frame, in this
  -- order, and past the channels of the type there is none.
  pub channels-bimap :
      (x y : A) (f : F → F → F) (i : ℕ)
      → get_elem? (fr.channels (bimap fr x y f)) i
        ≡ (get_elem? (fr.channels x) i >>= λ a. get_elem? (fr.channels y) i >>= λ b. some (f a b))
  channels-bimap x y f i =
      rw (channels-zip_with x y f) (get_elem?-zip_with f (fr.channels x) (fr.channels y) i)

-- The frames of the crate satisfy the laws.
module _ {F : Type 0} ⦃fl : Float F⦄ where
  set_sample-written : (x : F) (ys : List F) → length ys ≡ 1 → set_sample x ys ∷ [] ≡ ys
  set_sample-written x [] e = absurd (omega arith)
  set_sample-written x (y ∷ []) e = refl
  set_sample-written x (y ∷ z ∷ ys) e = absurd (omega arith)

  set_stereo-written :
      (x : F × F) (ys : List F)
      → length ys ≡ 2
      → (set_stereo x ys).0 ∷ (set_stereo x ys).1 ∷ [] ≡ ys
  set_stereo-written x [] e = absurd (omega arith)
  set_stereo-written x (l ∷ []) e = absurd (omega arith)
  set_stereo-written x (l ∷ r ∷ []) e = refl
  set_stereo-written x (l ∷ r ∷ y ∷ ys) e = absurd (omega arith)

  pub sample-IsFrame : IsFrame {F = F} sample_frame
  sample-IsFrame = record { same_count = λ x. refl; written = set_sample-written }

  pub stereo-IsFrame : IsFrame {F = F} stereo_frame
  stereo-IsFrame = record { same_count = λ x. refl; written = set_stereo-written }

  pub samples-IsFrame : (n : ℕ) → IsFrame {F = F} (samples_frame n)
  samples-IsFrame n = record {
    same_count = λ x. x.1 ∙ sym (length-replicate n zero_f);
    written = λ x ys e. overwrite_all ys x.0 e;
  }
