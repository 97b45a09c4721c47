-- ===== src/Set/Handle/Empty.antt =====
-- `SetHandle::gc_inner` takes everything out of a free queue.
use oddio.Base.{
  ℕ, zero, suc, ◌+◌, ◌-◌, ◌%◌, ◌<◌, ◌≤◌, ◌≡◌, refl, ap, sym, subst, ◌∙◌, inl, inr, Bool-cases, ◌==◌,
  true, false, Option, none, some, List, [], ◌∷◌, map, take, drop, take-all, arith, length, get_or,
  get_elem?, set, ◌>>=◌, usize_mod, add_usize, sub_usize,
}
use oddio.Spsc
use oddio.Spsc.{Channel, size}
use oddio.Spsc.Window.{Holds}
use oddio.Spsc.Receive.{update_lem, drain_lem}
use oddio.Set.{World, Free, table, signal}
use oddio.Set.Stock.{sigs}
use oddio.Set.Handle.{count_free, gc_inner}

drop-all {ℓ} : {A : Type ℓ} (xs : List A) → drop (length xs) xs ≡ []
drop-all [] = refl
drop-all (x ∷ xs) = drop-all xs

module _ {ℓ} {A : Type ℓ} where
  abbrev pub passed_one : Channel A → Channel A
  passed_one c = record c { read = add_usize c.read 1 % size c; len = sub_usize c.len 1 }

  pub pop-empty : (c : Channel A) → (c.len == 0) ≡ true → Spsc.pop c ≡ (none, c)
  unfolding Spsc.pop
  pop-empty c e = rw e refl

  pub pop-filled :
      (c : Channel A)
      → (c.len == 0) ≡ false
      → Spsc.pop c ≡ (some (get_or c.slots c.read none), passed_one c)
  unfolding Spsc.pop
  pop-filled c e = rw e refl

  -- Receiving leaves the slots and the flags.
  drain_kept :
      (fuel : ℕ) (c : Channel A)
      → ((Spsc.drain fuel c).1.sender ≡ c.sender) × ((Spsc.drain fuel c).1.slots ≡ c.slots)
  unfolding Spsc.drain
  drain_kept zero c = (refl, refl)
  drain_kept (suc fuel) c =
      let Kept : Option (Option A) × Channel A → Type ℓ = λ popped.
        let rest = Spsc.drain fuel popped.1 in
        let result : List (Option A) × Channel A = elim popped.0 [
          | none ↦ ([], popped.1)
          | some v ↦ (v ∷ rest.0, rest.1)
        ] in
        (result.1.sender ≡ c.sender) × (result.1.slots ≡ c.slots) in
      elim (Bool-cases (c.len == 0)) [
        | inl e ↦ subst Kept (sym (pop-empty c e)) (refl, refl)
        | inr e ↦ subst Kept (sym (pop-filled c e)) (drain_kept fuel (passed_one c))
      ]

module _ {ℓ} {T : Type ℓ} where
  count_free-map :
      (active : ℕ) (xs : List (Free T))
      → sigs xs ≤ active
      → active < usize_mod
      → count_free active (map some xs) ≡ some (active - sigs xs)
  unfolding count_free
  count_free-map active [] p q = ap some (omega arith)
  count_free-map active (table t ∷ xs) p q = count_free-map active xs p q
  count_free-map active (signal x ∷ xs) p q =
      let one : (active + usize_mod - 1) % usize_mod ≡ active - 1 = omega arith in
      let rest : active - 1 - sigs xs ≡ active - suc (sigs xs) = omega arith in
      rw (count_free, one)
        (count_free-map (active - 1) xs (omega arith) (omega arith) ∙ ap some rest)

  pub record Emptied (w : World T) (c : Channel (Free T)) (xs : List (Free T)) : Type ℓ where
    pub queue : Channel (Free T)
    pub ran :
        gc_inner w
        ≡ some (record w {
          frees = set w.frees w.free queue;
          active_signals = w.active_signals - sigs xs;
        })
    pub holds : Holds queue []
    pub sender : queue.sender ≡ c.sender
    pub slots : size queue ≡ size c

  pub gc_inner-Emptied :
      (w : World T) (c : Channel (Free T)) (xs : List (Free T))
      → get_elem? w.frees w.free ≡ some c
      → Holds c xs
      → sigs xs ≤ w.active_signals
      → w.active_signals < usize_mod
      → Emptied w c xs
  unfolding gc_inner Spsc.update
  gc_inner-Emptied w c xs at h p q =
      let u = Spsc.update c in
      let (held, all, more) = update_lem c xs h in
      let (got, left, none_left) = drain_lem u xs (suc u.len) held (omega arith) in
      let (sender, slots) = drain_kept (suc u.len) u in
      let everything : take u.len xs ≡ xs = ap (λ k. take k xs) all ∙ take-all xs in
      let nothing : drop u.len xs ≡ [] = ap (λ k. drop k xs) all ∙ drop-all xs in
      let queue = (Spsc.drain (suc u.len) u).1 in
      record {
        queue = queue;
        ran = rw (at, ◌>>=◌, got, everything, count_free-map w.active_signals xs p q) refl;
        holds = subst (Holds queue) nothing left;
        sender = sender;
        slots = ap length slots;
      }
