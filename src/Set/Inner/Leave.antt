-- ===== src/Set/Inner/Leave.antt =====
-- `Set::remove` keeps the state of the handle and its set sound: the free queue has room for every
-- signal of the set.
use oddio.Base.{
  ℕ, ◌+◌, ◌-◌, ◌<◌, ◌≡◌, refl, subst, ◌∙◌, ◌⊎◌, inl, inr, Bool-cases, Option, none, some, List, [],
  ◌∷◌, ◌++◌, ltb, arith, length, length-take, length-set, length-append, get_elem?, take, set,
  get_elem?-set_self, get_elem?_within, get_elem?_past, get_elem?-set_past, get_elem?-set_before,
  lt-of-get_elem?, ◌>>=◌,
}
use oddio.Spsc
use oddio.Spsc.{Channel, size, sent}
use oddio.Spsc.Send.{send_lem, size-send}
use oddio.Set.{World, Msg, signal}
use oddio.Set.Stock.{sigs, sigs-append, Fits, Fits-same}
use oddio.Set.Walk.{Walk-same}
use oddio.Set.Held.{Held}
use oddio.Set.Sound.{Sound}
use oddio.Set.Inner.{swap_remove, remove}
use oddio.Set.Inner.Take.{send-sender}

module _ {ℓ} {T : Type ℓ} where
  -- The removed signal, the last one, and what is left.
  pub record Swapped (xs : List T) (i : ℕ) : Type ℓ where
    pub item : T
    pub end : T
    pub end_at : get_elem? xs (length xs - 1) ≡ some end
    pub ran : swap_remove xs i ≡ some (item, take (length xs - 1) (set xs i end))
    pub less : length (take (length xs - 1) (set xs i end)) + 1 ≡ length xs

  pub swap_remove-Swapped : (xs : List T) (i : ℕ) → i < length xs → Swapped xs i
  unfolding swap_remove
  swap_remove-Swapped xs i p =
      let (x, at) = get_elem?_within xs i p in
      let (last, last_at) = get_elem?_within xs (length xs - 1) (omega arith) in
      record {
        item = x;
        end = last;
        end_at = last_at;
        ran = rw (at, ◌>>=◌, last_at) refl;
        less = omega (arith, length-take (length xs - 1) (set xs i last), length-set xs i last, p);
      }

  pub swap_remove-cases :
      (xs : List T) (i : ℕ)
      → (swap_remove xs i ≡ none)
        ⊎ ((x : T) × (rest : List T) × (swap_remove xs i ≡ some (x, rest))
            × (length rest + 1 ≡ length xs))
  unfolding swap_remove
  swap_remove-cases xs i = elim (Bool-cases (ltb i (length xs))) [
    | inl e ↦ let s = swap_remove-Swapped xs i (ground arith) in inr (s.item, _, s.ran, s.less)
    | inr e ↦ inl (rw (get_elem?_past xs i (ground arith)) refl)
  ]

  pub remove-none : (w : World T) (i : ℕ) → swap_remove w.signals.items i ≡ none → remove w i ≡ none
  unfolding remove
  remove-none w i e = rw (e, ◌>>=◌) refl

  -- The set has `items`, and the messages `ms` are still under way.
  pub record Left (got : Option (World T)) (most t : ℕ) (ms : List (Msg T)) (items : List T)
      : Type ℓ where
    pub world : World T
    pub ran : got ≡ some world
    pub sound : Sound world most t ms
    pub items_eq : world.signals.items ≡ items

  pub remove-Left :
      (w : World T) (most t : ℕ) (ms : List (Msg T)) (i : ℕ) (x : T) (rest : List T)
      → Sound w most t ms
      → swap_remove w.signals.items i ≡ some (x, rest)
      → length rest + 1 ≡ length w.signals.items
      → Left (remove w i) most t ms rest
  unfolding remove
  remove-Left w most t ms i x rest s e less =
      let h = s.held in
      let fs = w.free_sender in
      let c = h.queue in
      let fits : length h.freed + 1 + 0 < size c = omega (arith, h.slots, h.few, h.within, less) in
      let (ok, holds) = (send_lem c h.freed (signal x) 0 h.holds (omega (arith, fits))).0 fits in
      let c' = (Spsc.send c (signal x) 0).1 in
      let frees = set w.frees fs c' in
      let more : sigs (h.freed ++ signal x ∷ []) ≡ sigs h.freed + 1 =
        sigs-append h.freed (signal x ∷ []) in
      let same : s.left + sigs h.freed + length w.signals.items
          ≡ s.left + sigs (h.freed ++ signal x ∷ []) + length rest =
        omega (arith, more, less) in
      let held : Held frees fs (record w.signals { items = rest }) w.signal_capacity
          w.active_signals ms s.left =
        record {
          queue = c';
          freed = h.freed ++ signal x ∷ [];
          at = get_elem?-set_self w.frees fs c' (lt-of-get_elem? w.frees fs c h.at);
          holds = holds;
          is_open = send-sender c (signal x) 0 ∙ h.is_open;
          extra = h.extra;
          slots = size-send c (signal x) 0 ∙ h.slots;
          few = omega (arith, h.few, more, length-append h.freed (signal x ∷ []));
          fits =
              subst (λ k. Fits frees fs k w.signals.capacity ms w.signal_capacity) same
                (Fits-same (λ k p q. get_elem?-set_past w.frees fs k c' p) h.fits);
          within = omega (arith, h.within, same);
          counted = omega (arith, h.counted, same);
        } in
      record {
        world = record w { signals = record w.signals { items = rest }; frees = frees };
        ran = rw (e, ◌>>=◌, h.at, ok) refl;
        sound = record {
          path = s.path;
          left = s.left;
          routed = s.routed;
          walk = Walk-same (λ k p q. get_elem?-set_before w.frees fs k c' q) s.walk;
          held = held;
          links = s.links;
          waiting = s.waiting;
          few = s.few;
          bounded = s.bounded;
          nonzero = s.nonzero;
        };
        items_eq = refl;
      }
