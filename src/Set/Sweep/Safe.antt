-- ===== src/Set/Sweep/Safe.antt =====
-- The loop over a set never fails if the visits do not, and keeps the state of a handle and its set
-- sound.
use oddio.Base.{
  ℕ, zero, suc, ◌+◌, ◌-◌, ◌≤◌, ◌≡◌, refl, ap, sym, subst, inl, inr, Bool-cases, Option, some,
  some-injective, List, [], ◌∷◌, ◌++◌, take, arith, length, length-set, get_elem?, set,
  get_elem?_within, ◌>>=◌,
}
use oddio.Set.{World, Msg}
use oddio.Set.Stock.{sigs, Fits}
use oddio.Set.Held.{Held}
use oddio.Set.Sound.{Sound}
use oddio.Set.Inner.Leave.{swap_remove-Swapped, remove-Left}
use oddio.Set.Sweep.{Visit, sweep, sweep_all}

module _ {ℓ κ} {T : Type ℓ} (P : T → Type κ) where
  abbrev pub Every : List T → Type κ
  Every [] = Unit
  Every (x ∷ xs) = P x × Every xs

  pub Every-append : (xs ys : List T) → Every xs → Every ys → Every (xs ++ ys)
  Every-append [] ys h k = k
  Every-append (x ∷ xs) ys (p, h) k = (p, Every-append xs ys h k)

  pub Every-get : (xs : List T) (i : ℕ) (x : T) → Every xs → get_elem? xs i ≡ some x → P x
  Every-get [] i x h e = cc
  Every-get (y ∷ xs) zero x (p, h) e = subst P (some-injective _ _ e) p
  Every-get (y ∷ xs) (suc i) x (p, h) e = Every-get xs i x h e

  pub Every-set : (xs : List T) (i : ℕ) (x : T) → P x → Every xs → Every (set xs i x)
  Every-set [] i x p h = tt
  Every-set (y ∷ xs) zero x p (q, h) = (p, h)
  Every-set (y ∷ xs) (suc i) x p (q, h) = (q, Every-set xs i x p h)

  pub Every-take : (n : ℕ) (xs : List T) → Every xs → Every (take n xs)
  Every-take zero xs h = tt
  Every-take (suc n) [] h = tt
  Every-take (suc n) (x ∷ xs) (p, h) = (p, Every-take n xs h)

module _ {ℓ κ} {T : Type ℓ} (P Q : T → Type κ) where
  pub Every-mono : ((x : T) → P x → Q x) → (xs : List T) → Every P xs → Every Q xs
  Every-mono f [] h = tt
  Every-mono f (x ∷ xs) (p, h) = (f x p, Every-mono f xs h)

module _ {ℓ} {T : Type ℓ} where
  -- The signals of the set are replaced, one by one.
  pub Sound-put :
      (w : World T) (most t : ℕ) (ms : List (Msg T)) (items : List T)
      → length items ≡ length w.signals.items
      → Sound w most t ms
      → Sound (record w { signals = record w.signals { items = items } }) most t ms
  Sound-put w most t ms items e s =
      let h = s.held in
      let held : Held w.frees w.free_sender (record w.signals { items = items }) w.signal_capacity
          w.active_signals ms s.left =
        record {
          queue = h.queue;
          freed = h.freed;
          at = h.at;
          holds = h.holds;
          is_open = h.is_open;
          extra = h.extra;
          slots = h.slots;
          few = h.few;
          fits =
              subst
                (λ k.
                  Fits w.frees w.free_sender (s.left + sigs h.freed + k) w.signals.capacity ms
                    w.signal_capacity)
                (sym e) h.fits;
          within = omega (arith, h.within, e);
          counted = omega (arith, h.counted, e);
        } in
      record {
        path = s.path;
        left = s.left;
        routed = s.routed;
        walk = s.walk;
        held = held;
        links = s.links;
        waiting = s.waiting;
        few = s.few;
        bounded = s.bounded;
        nonzero = s.nonzero;
      }

module _ {ℓ κ} {T : Type ℓ} {R : Type κ} (visit : R → T → Option (Visit T R)) (Ok : T → Type 0)
    (Good : R → Type 0)
    (visit_lem : (r : R) (x : T)
      → Good r
      → Ok x
      → (v : Visit T R) × (visit r x ≡ some v) × Ok v.item × Good v.state)
    (most t : ℕ) (ms : List (Msg T)) where
  Safe : Option (World T × R) → Type (ℓ ⊔ κ)
  Safe got =
      (w : World T) × (r : R) × (got ≡ some (w, r))
      × Sound w most t ms
      × Every Ok w.signals.items
      × Good r

  sweep-Safe :
      (i : ℕ) (w : World T) (r : R)
      → Sound w most t ms
      → Every Ok w.signals.items
      → Good r
      → i ≤ length w.signals.items
      → Safe (sweep visit i w r)
  unfolding sweep Safe
  sweep-Safe zero w r s ok good p = (w, r, refl, s, ok, good)
  sweep-Safe (suc i) w r s ok good p =
      let xs = w.signals.items in
      let (x, at) = get_elem?_within xs i (omega arith) in
      let (v, visited, ok_item, good') = visit_lem r x good (Every-get Ok xs i x ok at) in
      let ys = set xs i v.item in
      let count = length-set xs i v.item in
      let w1 : World T = record w { signals = record w.signals { items = ys } } in
      let s1 = Sound-put w most t ms ys count s in
      let ok1 = Every-set Ok xs i v.item ok_item ok in
      elim (Bool-cases v.stays) [
        | inl e ↦
            let (w', r', ran, s', ok', end) =
              sweep-Safe i w1 v.state s1 ok1 good' (omega (arith, count)) in
            (w', r', rw (at, ◌>>=◌, visited, e) ran, s', ok', end)
        | inr e ↦
            let z = swap_remove-Swapped ys i (omega (arith, count)) in
            let left = take (length ys - 1) (set ys i z.end) in
            let k = remove-Left w1 most t ms i z.item left s1 z.ran z.less in
            let ok2 =
              Every-take Ok (length ys - 1) (set ys i z.end) (
                Every-set Ok ys i z.end (Every-get Ok ys (length ys - 1) z.end ok1 z.end_at) ok1) in
            let (w', r', ran, s', ok', end) =
              sweep-Safe i k.world v.state k.sound (subst (Every Ok) (sym k.items_eq) ok2) good'
                (omega (arith, ap length k.items_eq, z.less, count)) in
            (w', r', rw (at, ◌>>=◌, visited, e, k.ran) ran, s', ok', end)
      ]

  -- The loop over the whole set.
  pub sweep_all-Safe :
      (w : World T) (r : R)
      → Sound w most t ms
      → Every Ok w.signals.items
      → Good r
      → (w' : World T) × (r' : R) × (sweep_all visit w r ≡ some (w', r'))
        × Sound w' most t ms
        × Every Ok w'.signals.items
        × Good r'
  unfolding sweep_all Safe
  sweep_all-Safe w r s ok good = sweep-Safe (length w.signals.items) w r s ok good (omega arith)
