-- ===== src/Set/Handle/Gather.antt =====
-- The second loop of `SetHandle::gc`: it empties the free queues up to the one that the set fills.
use oddio.Base.{
  ℕ, ◌+◌, ◌-◌, ◌<◌, ◌≤◌, ◌≡◌, refl, ap, sym, subst, ◌∙◌, inl, inr, true, false, not, Bool-cases,
  Option, some, List, [], ◌∷◌, arith, length, length-set, get_elem?, set, get_elem?-set_self,
  get_elem?-set_past, lt-of-get_elem?, ◌>>=◌, if◌then◌else◌, usize_mod,
}
use oddio.Spsc
use oddio.Spsc.{Channel}
use oddio.Spsc.Window.{Holds}
use oddio.Set.{World, Msg, Free}
use oddio.Set.Stock.{sigs}
use oddio.Set.Walk.{Walk, arrived, passed, SameBetween, Walk-same, Walk-le}
use oddio.Set.Held.{Held, Held-fewer, Held-emptied}
use oddio.Set.Handle.{gc_inner, must_switch, switch_free, gc_loop}
use oddio.Set.Handle.Empty.{gc_inner-Emptied}

module _ {ℓ} {T : Type ℓ} where
  -- `got` is `w` with some signals less in its free queues.
  pub record Gathered (w : World T) (fs : ℕ) (waiting : List ℕ) (ms : List (Msg T))
      (got : Option (World T)) : Type ℓ where
    pub frees : List (Channel (Free T))
    pub free : ℕ
    pub next_free : List ℕ
    pub active : ℕ
    pub left : ℕ
    pub ran :
        got
        ≡ some (record w {
          frees = frees;
          free = free;
          next_free = next_free;
          active_signals = active;
        })
    pub walk : Walk frees free next_free fs waiting left
    pub held : Held frees fs w.signals w.signal_capacity active ms left
    pub same_count : length frees ≡ length w.frees
    pub less : active ≤ w.active_signals

  gc_loop-stops :
      (w w1 : World T) (gs : List ℕ)
      → gc_inner w ≡ some w1
      → must_switch w1 ≡ some false
      → gc_loop w gs ≡ some w1
  unfolding gc_loop
  gc_loop-stops w w1 [] e f = rw (e, ◌>>=◌, f) refl
  gc_loop-stops w w1 (g ∷ gs) e f = rw (e, ◌>>=◌, f) refl

  gc_loop-goes :
      (w w1 w2 w3 : World T) (g : ℕ) (gs : List ℕ)
      → gc_inner w ≡ some w1
      → must_switch w1 ≡ some true
      → gc_inner w1 ≡ some w2
      → switch_free w2 g gs ≡ some w3
      → gc_loop w (g ∷ gs) ≡ gc_loop w3 gs
  unfolding gc_loop
  gc_loop-goes w w1 w2 w3 g gs e f e2 e3 = rw (e, ◌>>=◌, f, e2, e3) refl

  must_switch_lem :
      (w : World T) (q : Channel (Free T)) (s : Channel (Msg T))
      → get_elem? w.frees w.free ≡ some q
      → get_elem? w.msgs w.sender ≡ some s
      → must_switch w ≡ some (if q.sender then false else not (Spsc.sender_is_closed s))
  unfolding must_switch Spsc.receiver_is_closed
  must_switch_lem w q s at there = elim (Bool-cases q.sender) [
    | inl e ↦ rw (at, ◌>>=◌, there, e) refl
    | inr e ↦ elim (Bool-cases (Spsc.sender_is_closed s)) [
      | inl f ↦ rw (at, ◌>>=◌, there, e, f) refl
      | inr f ↦ rw (at, ◌>>=◌, there, e, f) refl
    ]
  ]

  -- the loop at the queue that the set fills
  gather_last :
      (w : World T) (f : ℕ) (waiting : List ℕ) (ms : List (Msg T)) (s : Channel (Msg T))
      → Held w.frees f w.signals w.signal_capacity w.active_signals ms 0
      → get_elem? w.msgs w.sender ≡ some s
      → w.active_signals < usize_mod
      → Gathered w f waiting ms (gc_loop (record w { free = f; next_free = waiting }) waiting)
  gather_last w f waiting ms s h there small =
      let w0 : World T = record w { free = f; next_free = waiting } in
      let enough : sigs h.freed ≤ w.active_signals = omega (arith, h.counted) in
      let e = gc_inner-Emptied w0 h.queue h.freed h.at h.holds enough small in
      let q = e.queue in
      let active = w.active_signals - sigs h.freed in
      let w1 : World T = record w0 { frees = set w.frees f q; active_signals = active } in
      let at = get_elem?-set_self w.frees f q (lt-of-get_elem? w.frees f h.queue h.at) in
      let is_open = e.sender ∙ h.is_open in
      let stop : must_switch w1 ≡ some false = must_switch_lem w1 q s at there ∙ rw is_open refl in
      record {
        frees = set w.frees f q;
        free = f;
        next_free = waiting;
        active = active;
        left = 0;
        ran = gc_loop-stops w0 w1 waiting e.ran stop;
        walk = arrived f waiting;
        held =
            Held-emptied (set w.frees f q) active q h (λ k p. get_elem?-set_past w.frees f k q p) at
              e.holds e.sender e.slots (omega (arith, enough));
        same_count = length-set w.frees f q;
        less = omega arith;
      }

  Gathered-later :
      (w w' : World T) (fs : ℕ) (waiting : List ℕ) (ms : List (Msg T)) (got : Option (World T))
      → w' ≡ record w { frees = w'.frees; active_signals = w'.active_signals }
      → length w'.frees ≡ length w.frees
      → w'.active_signals ≤ w.active_signals
      → Gathered w' fs waiting ms got
      → Gathered w fs waiting ms got
  Gathered-later w w' fs waiting ms got e count less g =
      let x : World T = record w { frees = w'.frees; active_signals = w'.active_signals } in
      let g' : Gathered x fs waiting ms got = subst (λ z. Gathered z fs waiting ms got) e g in
      record {
        frees = g'.frees;
        free = g'.free;
        next_free = g'.next_free;
        active = g'.active;
        left = g'.left;
        ran = g'.ran;
        walk = g'.walk;
        held = g'.held;
        same_count = g'.same_count ∙ count;
        less = omega (arith, g'.less, less);
      }

  -- The loop goes on from the emptied queue `f` to the next one, and drops its end of `f`.
  gather_next :
      (w : World T) (f g : ℕ) (gs : List ℕ) (q : Channel (Free T)) (s : Channel (Msg T))
      → get_elem? w.frees f ≡ some q
      → Holds q []
      → q.sender ≡ false
      → get_elem? w.msgs w.sender ≡ some s
      → Spsc.sender_is_closed s ≡ false
      → w.active_signals < usize_mod
      → (frees : List (Channel (Free T))) × ((k : ℕ)
          → f < k
          → get_elem? frees k ≡ get_elem? w.frees k)
        × (length frees ≡ length w.frees)
        × ((w0 : World T)
            → gc_inner w0 ≡ some (record w { free = f; next_free = g ∷ gs })
            → gc_loop w0 (g ∷ gs)
              ≡ gc_loop (record w { frees = frees; free = g; next_free = gs }) gs)
  unfolding switch_free
  gather_next w f g gs q s at holds shut there alive small =
      let w1 : World T = record w { free = f; next_free = g ∷ gs } in
      let go : must_switch w1 ≡ some true =
        must_switch_lem w1 q s at there ∙ rw (shut, alive) refl in
      let e = gc_inner-Emptied w1 q [] at holds (omega arith) small in
      let q2 = e.queue in
      let frees1 = set w.frees f q2 in
      let drop = Spsc.drop_receiver q2 in
      let frees2 = set frees1 f drop in
      let stays : w.active_signals - 0 ≡ w.active_signals = omega arith in
      let w2 : World T = record w1 { frees = frees1 } in
      let counting : ℕ → World T = λ n. record w2 { active_signals = n } in
      let emptied : gc_inner w1 ≡ some w2 = e.ran ∙ ap (λ n. some (counting n)) stays in
      let inside = lt-of-get_elem? w.frees f q at in
      let at2 = get_elem?-set_self w.frees f q2 inside in
      let w3 : World T = record w { frees = frees2; free = g; next_free = gs } in
      (
        frees2,
        λ k p. get_elem?-set_past frees1 f k drop p ∙ get_elem?-set_past w.frees f k q2 p,
        length-set frees1 f drop ∙ length-set w.frees f q2,
        λ w0 e0. gc_loop-goes w0 w1 w2 w3 g gs e0 go emptied (rw (at2, ◌>>=◌) refl),
      )

  -- The loop reads the stored queues of `frees`, and may have changed those before `f`.
  pub gc_loop-Gathered :
      (frees : List (Channel (Free T))) (w : World T) {f fs n : ℕ} {gs waiting : List ℕ}
      (ms : List (Msg T)) (s : Channel (Msg T))
      → SameBetween frees w.frees f fs
      → Walk frees f gs fs waiting n
      → Held w.frees fs w.signals w.signal_capacity w.active_signals ms n
      → get_elem? w.msgs w.sender ≡ some s
      → w.active_signals < usize_mod
      → Gathered w fs waiting ms (gc_loop (record w { free = f; next_free = gs }) gs)
  gc_loop-Gathered frees w ms s same (arrived f waiting) h there small =
      gather_last w f waiting ms s h there small
  gc_loop-Gathered frees w ms s same (passed f g gs fs waiting n c xs at held shut lt more) h there
        small =
      let past = Walk-le more in
      let w0 : World T = record w { free = f; next_free = g ∷ gs } in
      let at0 = same f (omega arith) (omega (arith, past)) ∙ at in
      let inside = lt-of-get_elem? w.frees f c at0 in
      let enough : sigs xs ≤ w.active_signals = omega (arith, h.counted) in
      let e = gc_inner-Emptied w0 c xs at0 held enough small in
      let q = e.queue in
      let frees1 = set w.frees f q in
      let active = w.active_signals - sigs xs in
      let w1 : World T = record w0 { frees = frees1; active_signals = active } in
      let at1 = get_elem?-set_self w.frees f q inside in
      let count1 = length-set w.frees f q in
      let other1 = λ (k : ℕ) (p : f < k). get_elem?-set_past w.frees f k q p in
      let shut1 = e.sender ∙ shut in
      let switch = must_switch_lem w1 q s at1 there in
      elim (Bool-cases (Spsc.sender_is_closed s)) [
        | inl closed ↦
            let stop : must_switch w1 ≡ some false = switch ∙ rw (shut1, closed) refl in
            record {
              frees = frees1;
              free = f;
              next_free = g ∷ gs;
              active = active;
              left = 0 + n;
              ran = gc_loop-stops w0 w1 (g ∷ gs) e.ran stop;
              walk =
                  passed f g gs fs waiting n q [] at1 e.holds shut1 lt
                    (Walk-same (λ k p r. other1 k (omega arith) ∙ same k (omega arith) r) more);
              held =
                  Held-fewer frees1 active (0 + n) (λ k p r. other1 k (omega (arith, past)))
                    (omega (arith, enough)) (omega arith) h;
              same_count = count1;
              less = omega arith;
            }
        | inr alive ↦
            let (frees2, other2, count2, goes) =
              gather_next w1 f g gs q s at1 e.holds shut1 there alive (omega (arith, small)) in
            let w2 : World T = record w { frees = frees2; active_signals = active } in
            let next : World T = record w2 { free = g; next_free = gs } in
            let other = λ (k : ℕ) (p : f < k). other2 k p ∙ other1 k p in
            let held2 =
              Held-fewer frees2 active n (λ k p r. other k (omega (arith, past)))
                (omega (arith, enough)) (omega arith) h in
            let rest =
              gc_loop-Gathered frees w2 ms s
                (λ k p r. other k (omega arith) ∙ same k (omega arith) r) more held2 there
                (omega (arith, small)) in
            subst (Gathered w fs waiting ms) (sym (goes w0 e.ran)) (
              Gathered-later w w2 fs waiting ms (gc_loop next gs) refl (count2 ∙ count1)
                (omega arith) rest)
      ]
