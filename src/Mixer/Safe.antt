-- ===== src/Mixer/Safe.antt =====
-- A mixer and its control (src/mixer.rs) from their creation on.
use oddio.Base.{
  ℕ, suc, ◌+◌, ◌*◌, ◌<◌, ◌≤◌, ◌≡◌, refl, ap, sym, subst, ◌∙◌, inl, inr, Bool-cases, true, false,
  ◌||◌, Option, some, List, [], ◌∷◌, ◌++◌, map, arith, length, length-set, length-append,
  get_elem?_within, set, ◌>>=◌,
}
use oddio.Float.{Float}
use oddio.Frame.{Frame}
use oddio.Signal.{Signal}
use oddio.Set
use oddio.Set.{World, Msg}
use oddio.Set.Stock.{inserted}
use oddio.Set.Sound.{Sound, new-Sound}
use oddio.Set.Handle.Grow.{max_calls}
use oddio.Set.Handle.Renew.{insert-Sound}
use oddio.Set.Inner.Drain.{update-Drained}
use oddio.Set.Sweep.{Visit}
use oddio.Set.Sweep.Safe.{Every, Every-append, Every-mono, sweep_all-Safe}
use oddio.Mixer
use oddio.Mixer.{MixedSignal, Mixer, Mixing, new, visit, mix_chunks}

-- a call on the control (`play`), on a handle (`stop`) or on the mixer (`sample`)
pub data Call {ℓ} (F A : Type 0) (S : Type ℓ) : Type ℓ where
  play : S → Call F A S
  stop : ℕ → Call F A S
  sample : F → List A → Call F A S

module _ {ℓ} {F A : Type 0} {S : Type ℓ} where
  -- how many signals are played
  abbrev pub plays : List (Call F A S) → ℕ
  plays [] = 0
  plays (play s ∷ cs) = suc (plays cs)
  plays (stop h ∷ cs) = plays cs
  plays (sample i out ∷ cs) = plays cs

module _ {ℓ} {F A : Type 0} {S : Type ℓ} ⦃fl : Float F⦄ (fr : Frame F A) (sig : Signal F A S) where
  unfoldable pub call : ℕ → Mixer A S → Call F A S → Option (Mixer A S)
  call fuel m (play s) = Mixer.play m s >>= λ r. some r.1
  call fuel m (stop h) = some (Mixer.stop m h)
  call fuel m (sample i out) = Mixer.sample fr sig fuel m i out >>= λ r. some r.1

  unfoldable pub calls : ℕ → Mixer A S → List (Call F A S) → Option (Mixer A S)
  calls fuel m [] = some m
  calls fuel m (c ∷ cs) = call fuel m c >>= λ m'. calls fuel m' cs

  -- The signal has a stop flag.
  abbrev pub Flagged : ℕ → MixedSignal S → Type 0
  Flagged n x = x.stop < n

  -- The mixer after `n` signals have been played.
  pub record Playing (m : Mixer A S) (n : ℕ) : Type ℓ where
    pub ms : List (Msg (MixedSignal S))
    pub sound : Sound m.signals (n + n) n ms
    pub flagged : Every (Flagged n) m.signals.signals.items
    pub waiting : Every (Flagged n) (inserted ms)
    pub stops : length m.stops ≡ n

  pub play-Playing :
      (m : Mixer A S) (n : ℕ) (s : S) (p : Playing m n)
      → n < max_calls
      → (m' : Mixer A S) × ((Mixer.play m s >>= λ r. some r.1) ≡ some m')
        × (p' : Playing m' (n + 1)) × (inserted p'.ms
            ≡ inserted p.ms ++ record { stop = n; inner = s } ∷ [])
        × (m'.signals.signals.items ≡ m.signals.signals.items)
        × (m'.buffer ≡ m.buffer)
  unfolding Mixer.play
  play-Playing m n s p small =
      let x : MixedSignal S = record { stop = length m.stops; inner = s } in
      let k = insert-Sound m.signals x (n + n) n p.ms p.sound (omega arith) small in
      let h = k.handled in
      let old = Every-mono (Flagged n) (Flagged (n + 1)) (λ y q. omega arith) in
      (
        record { signals = h.world; stops = m.stops ++ false ∷ []; buffer = m.buffer },
        rw (h.ran, ◌>>=◌) refl,
        record {
          ms = k.more;
          sound = subst (λ z. Sound h.world z (n + 1) k.more) (omega arith) h.sound;
          flagged =
              subst (Every (Flagged (n + 1))) (sym (ap (λ t. t.items) h.signals))
                (old m.signals.signals.items p.flagged);
          waiting = subst (Every (Flagged (n + 1))) (sym k.news) (
              Every-append (Flagged (n + 1)) (inserted p.ms) (x ∷ [])
                (old (inserted p.ms) p.waiting) (omega (arith, p.stops), tt));
          stops = omega (arith, length-append m.stops (false ∷ []), p.stops);
        },
        k.news ∙ ap (λ i. inserted p.ms ++ record { stop = i; inner = s } ∷ []) p.stops,
        ap (λ t. t.items) h.signals,
        refl,
      )

  -- A visit keeps what is true of the buffer, if mixing in chunks does.
  visit_lem :
      (Size : List A → Type 0) (n : ℕ) (interval : F) (m : Mixing A) (x : MixedSignal S)
      → ((s : S) (buffer out : List A)
          → Size buffer
          → Size (mix_chunks fr sig (length out) s interval buffer out).1)
      → Size m.buffer
      → length m.stops ≡ n
      → x.stop < n
      → (v : Visit (MixedSignal S) (Mixing A)) × (visit fr sig interval m x ≡ some v)
        × (v.item.stop < n)
        × ((length v.state.stops ≡ n) × Size v.state.buffer)
  unfolding visit
  visit_lem Size n interval m x keeps size count p =
      let (flag, at) = get_elem?_within m.stops x.stop (omega (arith, count)) in
      let (out, buffer, inner) = mix_chunks fr sig (length m.out) x.inner interval m.buffer m.out in
      elim (Bool-cases (flag || sig.is_finished x.inner)) [
        | inl e ↦ (
          record { stays = false; item = x; state = record m { stops = set m.stops x.stop true } },
          rw (at, ◌>>=◌, e) refl,
          p,
          (length-set m.stops x.stop true ∙ count, size),
        )
        | inr e ↦ (
          record {
            stays = true;
            item = record x { inner = inner };
            state = record m { out = out; buffer = buffer };
          },
          rw (at, ◌>>=◌, e) refl,
          p,
          (count, keeps x.inner m.buffer m.out size),
        )
      ]

  pub sample-Playing :
      (Size : List A → Type 0) (fuel : ℕ) (m : Mixer A S) (n : ℕ) (interval : F) (out : List A)
      → ((s : S) (buffer out : List A)
          → Size buffer
          → Size (mix_chunks fr sig (length out) s interval buffer out).1)
      → Size m.buffer
      → Playing m n
      → n * 4 < fuel
      → (m' : Mixer A S) × ((Mixer.sample fr sig fuel m interval out >>= λ r. some r.1) ≡ some m')
        × (p : Playing m' n) × (inserted p.ms ≡ [])
        × Size m'.buffer
  unfolding Mixer.sample
  sample-Playing Size fuel m n interval out keeps size p enough =
      let d = update-Drained fuel m.signals (n + n) n p.ms p.sound (omega arith) in
      let items = m.signals.signals.items in
      let all =
        subst (Every (Flagged n)) (sym d.items_eq)
          (Every-append (Flagged n) items (inserted p.ms) p.flagged p.waiting) in
      let start : Mixing A = record {
        stops = m.stops;
        buffer = m.buffer;
        out = map (λ _. fr.nought) out;
      } in
      let (w, end, ran, sound, flagged, (count, size')) =
        sweep_all-Safe (visit fr sig interval) (Flagged n)
          (λ r. (length r.stops ≡ n) × Size r.buffer)
          (λ r x q h. visit_lem Size n interval r x keeps q.1 q.0 h) (n + n) n [] d.world start
          d.sound all (p.stops, size) in
      (
        record { signals = w; stops = end.stops; buffer = end.buffer },
        rw (d.ran, ◌>>=◌, ran) refl,
        record { ms = []; sound = sound; flagged = flagged; waiting = tt; stops = count },
        refl,
        size',
      )

  call-Playing :
      (fuel : ℕ) (m : Mixer A S) (n : ℕ) (c : Call F A S)
      → Playing m n
      → n + plays (c ∷ []) ≤ max_calls
      → n * 4 < fuel
      → (m' : Mixer A S) × (call fuel m c ≡ some m') × Playing m' (n + plays (c ∷ []))
  unfolding call Mixer.stop
  call-Playing fuel m n (play s) p small enough =
      let (m', ran, q, news, items, buffer) = play-Playing m n s p (omega arith) in (m', ran, q)
  call-Playing fuel m n (stop h) p small enough =
      let stopped : Mixer A S = record m { stops = set m.stops h true } in
      (
        stopped,
        refl,
        subst (Playing stopped) (omega arith) (record {
          ms = p.ms;
          sound = p.sound;
          flagged = p.flagged;
          waiting = p.waiting;
          stops = length-set m.stops h true ∙ p.stops;
        }),
      )
  call-Playing fuel m n (sample i out) p small enough =
      let (m', ran, q, none_left, size) =
        sample-Playing (λ b. Unit) fuel m n i out (λ s b o u. u) tt p enough in
      (m', ran, subst (Playing m') (omega arith) q)

  pub plays-cons :
      (c : Call F A S) (cs : List (Call F A S)) → plays (c ∷ cs) ≡ plays (c ∷ []) + plays cs
  plays-cons (play s) cs = omega arith
  plays-cons (stop h) cs = omega arith
  plays-cons (sample i out) cs = omega arith

  calls-Playing :
      (fuel : ℕ) (cs : List (Call F A S)) (m : Mixer A S) (n : ℕ)
      → Playing m n
      → n + plays cs ≤ max_calls
      → (n + plays cs) * 4 < fuel
      → (m' : Mixer A S) × (calls fuel m cs ≡ some m') × Playing m' (n + plays cs)
  unfolding calls
  calls-Playing fuel [] m n p small enough = (m, refl, subst (Playing m) (omega arith) p)
  calls-Playing fuel (c ∷ cs) m n p small enough =
      let split = plays-cons c cs in
      let (m1, ran, p1) = call-Playing fuel m n c p (omega (arith, split)) (omega (arith, split)) in
      let (m2, rest, p2) =
        calls-Playing fuel cs m1 (n + plays (c ∷ [])) p1 (omega (arith, split))
          (omega (arith, split)) in
      (m2, rw (ran, ◌>>=◌) rest, subst (Playing m2) (omega (arith, split)) p2)

  new-Playing : (nought : A) → Playing (new nought) 0
  unfolding new Set.new
  new-Playing nought = record {
    ms = [];
    sound = new-Sound;
    flagged = tt;
    waiting = tt;
    stops = refl;
  }

  -- A mixer never panics: from its creation on, every sequence of calls of `play` on its control, `stop`
  -- on handles and `sample` on the mixer returns, for at most 2^58 signals and with fuel for four
  -- messages a signal, whatever the signals do. Every signal that was played has a stop flag, and the
  -- mixer holds at most as many signals as were played.
  pub mixer_total :
      (fuel : ℕ) (nought : A) (cs : List (Call F A S))
      → plays cs ≤ max_calls
      → plays cs * 4 < fuel
      → (m : Mixer A S) × (calls fuel (new nought) cs ≡ some m)
        × (length m.stops ≡ plays cs)
        × (length m.signals.signals.items ≤ plays cs)
  mixer_total fuel nought cs small enough =
      let (m, ran, p) =
        calls-Playing fuel cs (new nought) 0 (new-Playing nought) (omega arith) (omega arith) in
      let h = p.sound.held in
      (m, ran, omega (arith, p.stops), omega (arith, h.counted, p.sound.few))
