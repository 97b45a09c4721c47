-- ===== src/Fader/Safe.antt =====
-- The `unwrap` of `Fader::sample` never fails: while a fade runs, and whenever a fresh slot is taken,
-- the slot holds a command.
use oddio.Base.{
  ℕ, ◌≡◌, refl, ap, sym, subst, ◌∙◌, Bool, true, false, Bool-cases, inl, inr, Option, none, some,
  List, [], ◌∷◌, arith, length, get_elem?, get_elem?-set_self, get_elem?-set_ne, ◌>>=◌,
  if◌then◌else◌,
}
use oddio.Float.{Float, zero_f, one_f}
use oddio.Frame.{Frame}
use oddio.Signal.{Signal}
use oddio.Swap
use oddio.Swap.{Swap}
use oddio.Swap.Slots.{
  Owns, swap-Owns, flush-Owns, exchange-Owns, set_pending-Owns, set_received-Owns,
}
use oddio.Fader.{Command, Fader, new, fade_to, Fading, fade_loop, fade_sample, sample}

module _ {ℓ} {F : Type 0} {S : Type ℓ} ⦃fl : Float F⦄ where
  -- The slot `i` holds a command.
  abbrev pub HoldsCommand : Swap (Option (Command F S)) → ℕ → Type ℓ
  HoldsCommand sw i = (cmd : Command F S) × (get_elem? sw.slots i ≡ some (some cmd))

  -- The shared slot holds a command if it is fresh, and the receiver's if a fade is in progress.
  pub record IsSafe (f : Fader F S) : Type ℓ where
    pub mid : ℕ
    pub fresh : Bool
    pub owns : Owns f.next mid fresh
    pub offered : fresh ≡ true → HoldsCommand f.next mid
    pub fading : fl.le one_f f.progress ≡ false → HoldsCommand f.next f.next.receiver

  new-IsSafe : (s : S) → fl.le one_f one_f ≡ true → IsSafe (new s)
  unfolding new Swap.swap
  new-IsSafe s one = record {
    mid = 1;
    fresh = false;
    owns = swap-Owns none none none;
    offered = λ e. cc;
    fading = λ e. cc;
  }

  fade_to-IsSafe : (f : Fader F S) (s : S) (d : F) → IsSafe f → IsSafe (fade_to f s d)
  unfolding fade_to Swap.flush Swap.set_pending
  fade_to-IsSafe f s d h =
      let cmd : Command F S = record { fade_to = s; duration = d } in
      let sw = f.next in
      record {
        mid = sw.sender;
        fresh = true;
        owns =
            flush-Owns (Swap.set_pending sw (some cmd)) h.mid h.fresh
              (set_pending-Owns sw h.mid h.fresh (some cmd) h.owns);
        offered = λ e. (
          cmd,
          get_elem?-set_self sw.slots sw.sender (some cmd)
              (omega (arith, h.owns.count, h.owns.sender_in)),
        );
        fading = λ e.
            let (old, at) = h.fading e in
            (old, get_elem?-set_ne sw.slots (some cmd) h.owns.apart ∙ at);
      }

  -- What a fade leaves, if it began on a buffer whose shared slot keeps to the invariant.
  faded-IsSafe :
      (f : Fader F S) (sw : Swap (Option (Command F S))) (mid : ℕ) (fresh : Bool)
      (cmd : Command F S)
      → Owns sw mid fresh
      → (fresh ≡ true → HoldsCommand sw mid)
      → f.next ≡ Swap.set_received sw (some cmd)
      → IsSafe f
  unfolding Swap.set_received
  faded-IsSafe f sw mid fresh cmd o offered e =
      let here =
        get_elem?-set_self sw.slots sw.receiver (some cmd)
          (omega (arith, o.count, o.receiver_in)) in
      record {
        mid = mid;
        fresh = fresh;
        owns = subst (λ z. Owns z mid fresh) (sym e) (set_received-Owns sw mid fresh (some cmd) o);
        offered = λ t.
            let (old, at) = offered t in
            subst (λ z. HoldsCommand z mid) (sym e)
              (old, get_elem?-set_ne sw.slots (some cmd) o.receiver_mid ∙ at);
        fading = λ t. subst (λ z. HoldsCommand z z.receiver) (sym e) (cmd, here);
      }

module _ {ℓ} {F A : Type 0} {S : Type ℓ} ⦃fl : Float F⦄ (fr : Frame F A) (sig : Signal F A S) where
  Fades : Option (List A × Fader F S) → Swap (Option (Command F S)) → Type ℓ
  Fades r sw =
      (frames : List A) × (f' : Fader F S) × (r ≡ some (frames, f'))
      × (cmd : Command F S) × (f'.next ≡ Swap.set_received sw (some cmd))

  fade_sample-Fades :
      (f : Fader F S) (interval : F) (out : List A) (cmd : Command F S)
      → Swap.received f.next ≡ some (some cmd)
      → Fades (fade_sample fr sig f interval out) f.next
  unfolding Fades fade_sample
  fade_sample-Fades f interval out cmd at =
      let increment = fl.div interval cmd.duration in
      let start : Fading F S = record {
        progress = f.progress;
        inner = f.inner;
        fade = cmd.fade_to;
      } in
      let (out', end) = fade_loop fr sig (length out) interval increment start out in
      let done = fl.le one_f end.progress in
      let cmd' : Command F S = record cmd { fade_to = if done then end.inner else end.fade } in
      let f' : Fader F S = record {
        progress = end.progress;
        next = Swap.set_received f.next (some cmd');
        inner = if done then end.fade else end.inner;
      } in
      (out', f', rw (at, ◌>>=◌) refl, cmd', refl)

  -- `sample` on a safe fader returns, and the fader is safe again.
  abbrev Returns : Fader F S → F → List A → Type ℓ
  Returns f interval out =
      (frames : List A) × (f' : Fader F S) × (sample fr sig f interval out ≡ some (frames, f'))
      × IsSafe f'

  -- a fade begins
  sample-begins :
      (f : Fader F S) (interval : F) (out : List A)
      → (h : IsSafe f) → fl.le one_f f.progress ≡ true
      → h.fresh ≡ true
      → Returns f interval out
  unfolding sample Fades Swap.refresh Swap.received Swap.exchange
  sample-begins f interval out h p t =
      let sw = Swap.exchange f.next in
      let f1 : Fader F S = record f { progress = zero_f; next = sw } in
      let (cmd, at) = h.offered t in
      let there = ap (get_elem? f.next.slots) h.owns.word.slot_at ∙ at in
      let (frames, f', ran, cmd', e) = fade_sample-Fades f1 interval out cmd there in
      let fresh = h.owns.word.fresh_at ∙ t in
      (
        frames,
        f',
        rw (p, fresh) ran,
        faded-IsSafe f' sw f.next.receiver false cmd' (exchange-Owns f.next h.mid h.fresh h.owns)
            (λ z. cc) e,
      )

  -- no fade
  sample-passes :
      (f : Fader F S) (interval : F) (out : List A)
      → (h : IsSafe f) → fl.le one_f f.progress ≡ true
      → h.fresh ≡ false
      → Returns f interval out
  unfolding sample Swap.refresh
  sample-passes f interval out h p t =
      let (frames, inner') = sig.sample f.inner interval out in
      let stale = h.owns.word.fresh_at ∙ t in
      (
        frames,
        record f { inner = inner' },
        rw (p, stale) refl,
        record {
          mid = h.mid;
          fresh = h.fresh;
          owns = h.owns;
          offered = h.offered;
          fading = h.fading;
        },
      )

  sample-IsSafe : (f : Fader F S) (interval : F) (out : List A) → IsSafe f → Returns f interval out
  unfolding sample Fades Swap.received
  sample-IsSafe f interval out h = elim (Bool-cases (fl.le one_f f.progress)) [
    | inl p ↦ elim (Bool-cases h.fresh) [
      | inl t ↦ sample-begins f interval out h p t
      | inr t ↦ sample-passes f interval out h p t
    ]
    | inr p ↦
        let (cmd, at) = h.fading p in
        let (frames, f', ran, cmd', e) = fade_sample-Fades f interval out cmd at in
        (frames, f', rw p ran, faded-IsSafe f' f.next h.mid h.fresh cmd' h.owns h.offered e)
  ]

-- The calls of the two threads, in the order in which they take effect.
pub data Call {ℓ} (F A : Type 0) (S : Type ℓ) : Type ℓ where
  fade : S → F → Call F A S
  play : F → List A → Call F A S

module _ {ℓ} {F A : Type 0} {S : Type ℓ} ⦃fl : Float F⦄ (fr : Frame F A) (sig : Signal F A S) where
  -- The frames that the calls of `sample` leave.
  unfoldable pub run : Fader F S → List (Call F A S) → Option (List (List A))
  run f [] = some []
  run f (fade s d ∷ calls) = run (fade_to f s d) calls
  run f (play interval out ∷ calls) = do
    (frames, f') ← sample fr sig f interval out
    rest ← run f' calls
    some (frames ∷ rest)

  run-IsSafe :
      (calls : List (Call F A S)) (f : Fader F S)
      → IsSafe f
      → (frames : List (List A)) × (run f calls ≡ some frames)
  unfolding run
  run-IsSafe [] f h = ([], refl)
  run-IsSafe (fade s d ∷ calls) f h = run-IsSafe calls (fade_to f s d) (fade_to-IsSafe f s d h)
  run-IsSafe (play interval out ∷ calls) f h =
      let (frames, f', ran, safe) = sample-IsSafe fr sig f interval out h in
      let (rest, more) = run-IsSafe calls f' safe in (frames ∷ rest, rw (ran, ◌>>=◌, more) refl)

  -- Whatever calls of `fade_to` and `sample` follow in whatever order, a new fader answers every
  -- `sample`: the `unwrap` of the command never panics. Of the float type this needs only that one is
  -- at least one.
  pub fader_total :
      (s : S) (calls : List (Call F A S))
      → fl.le one_f one_f ≡ true
      → (frames : List (List A)) × (run (new s) calls ≡ some frames)
  fader_total s calls one = run-IsSafe calls (new s) (new-IsSafe s one)
