-- ===== src/Mixer/Heard.antt =====
-- What a mixer (src/mixer.rs) plays, from its creation on.
use mathlib.Core.List.{Perm, reverse, reverse-cons, reverse_perm}
use mathlib.Core.List.Perm
use oddio.Base.{
  ℕ, ◌+◌, ◌*◌, ◌<◌, ◌≤◌, ◌≡◌, refl, ap, sym, subst, ◌∙◌, true, some, some-injective, List, [], ◌∷◌,
  ◌++◌, map, append-nil, append_assoc, arith, length, length-set, ◌>>=◌, length-replicate,
}
use oddio.Float.{Float}
use oddio.Frame.{Frame}
use oddio.Signal.{Signal}
use oddio.Set.{World, Msg, Free}
use oddio.Set.Inner
use oddio.Set.Stock.{inserted}
use oddio.Set.Sound.{new-Sound}
use oddio.Set.Handle.Grow.{max_calls}
use oddio.Set.Inner.Drain.{update-Drained}
use oddio.Set.Inner.Remove.{FreeQueue}
use oddio.Set.Sweep.Safe.{Every, Every-append}
use oddio.Set
use oddio.Mixer
use oddio.Mixer.Safe
use oddio.Mixer.{MixedSignal, Mixer, new, buffer_len}
use oddio.Mixer.Chunks.{IsStreaming, mix_chunks_lem}
use oddio.Mixer.Live.{Flags, keep_if, is_live, played, mixed}
use oddio.Mixer.Sample.{mixer_sample_lem}
use oddio.Mixer.Safe.{
  Call, plays, plays-cons, call, calls, Flagged, Playing, play-Playing, sample-Playing,
}
use oddio.Mixer.Spread.{
  Spread, Spread-Perm, Spread-snoc, Spread-Flags, Spread-keep_if, Spread-played,
}

Every-reverse {ℓ κ} :
    {T : Type ℓ} (P : T → Type κ) (xs : List T) → Every P xs → Every P (reverse xs)
Every-reverse P [] h = tt
Every-reverse P (x ∷ xs) (p, h) =
    subst (Every P) (sym (reverse-cons x xs))
      (Every-append P (reverse xs) (x ∷ []) (Every-reverse P xs h) (p, tt))

module _ {ℓ} {F A : Type 0} {S : Type ℓ} ⦃fl : Float F⦄ (fr : Frame F A) (sig : Signal F A S)
    (law : IsStreaming sig) where
  -- The mixer is sound, can mix, and no two of its signals share a flag.
  pub record Heard (m : Mixer A S) (n : ℕ) : Type ℓ where
    playing : Playing fr sig m n
    buffer : 0 < length m.buffer
    spread : Spread (m.signals.signals.items ++ inserted playing.ms)

  play-Heard :
      (m : Mixer A S) (n : ℕ) (s : S)
      → Heard m n
      → n < max_calls
      → (m' : Mixer A S) × ((Mixer.play m s >>= λ r. some r.1) ≡ some m') × Heard m' (n + 1)
  play-Heard m n s h small =
      let p = h.playing in
      let (m', ran, p', news, items, buffer) = play-Playing fr sig m n s p small in
      let x : MixedSignal S = record { stop = n; inner = s } in
      let old = m.signals.signals.items in
      let placed = Every-append (Flagged fr sig n) old (inserted p.ms) p.flagged p.waiting in
      let snoc = Spread-snoc n (old ++ inserted p.ms) x placed refl h.spread in
      (
        m',
        ran,
        record {
          playing = p';
          buffer = omega (arith, h.buffer, ap length buffer);
          spread =
              subst (λ z. Spread (z ++ inserted p'.ms)) (sym items)
                (subst (λ z. Spread (old ++ z)) (sym news)
                  (subst Spread (append_assoc old (inserted p.ms) (x ∷ [])) snoc));
        },
      )

  -- What a call of `sample` does.
  abbrev pub Sampled : ℕ → Mixer A S → F → List A → World (MixedSignal S) → Mixer A S → Type ℓ
  Sampled fuel m interval out w m' =
      let silence = map (λ _. fr.nought) out in
      let live = keep_if (is_live sig m.stops) (reverse w.signals.items) in
      (Mixer.sample fr sig fuel m interval out
        ≡ some (mixed fr sig interval silence live silence, m'))
      × Perm m'.signals.signals.items (map (played sig interval silence) live)

  pub sample-Heard :
      (fuel : ℕ) (m : Mixer A S) (n : ℕ) (interval : F) (out : List A)
      → Heard m n
      → n * 4 < fuel
      → (w : World (MixedSignal S)) × (m' : Mixer A S) × (Inner.update fuel m.signals ≡ some w)
        × Sampled fuel m interval out w m'
        × Heard m' n
  sample-Heard fuel m n interval out h enough =
      let p = h.playing in
      let items = m.signals.signals.items in
      let d = update-Drained fuel m.signals (n + n) n p.ms p.sound (omega arith) in
      let w = d.world in
      let all : Every (Flagged fr sig n) w.signals.items =
        subst (Every (Flagged fr sig n)) (sym d.items_eq)
          (Every-append (Flagged fr sig n) items (inserted p.ms) p.flagged p.waiting) in
      let spread = subst Spread (sym d.items_eq) h.spread in
      let xs = reverse w.signals.items in
      let back = Spread-Perm (Perm.symm (reverse_perm w.signals.items)) spread in
      let held = d.sound.held in
      let q : FreeQueue w (w.signals.capacity + 1 + held.extra) held.freed = record {
        chan = held.queue;
        at = held.at;
        holds = held.holds;
        slots = held.slots;
      } in
      let flags =
        subst (λ k. Flags k xs) (sym p.stops)
          (Spread-Flags n xs (Every-reverse (Flagged fr sig n) w.signals.items all) back) in
      let (m', ran, perm, free) =
        mixer_sample_lem fr sig law fuel m w (w.signals.capacity + 1 + held.extra) held.freed
          interval out d.ran h.buffer flags q (omega (arith, held.few, held.within)) in
      let (m2, ran2, p2, none_left, buffer) =
        sample-Playing fr sig (λ b. 0 < length b) fuel m n interval out
          (λ s b o pos.
            let (frames, count, end) = mix_chunks_lem fr sig law s interval b o pos in
            omega (arith, count, pos))
          h.buffer p enough in
      let same : m' ≡ m2 = some-injective _ _ (sym (rw (ran, ◌>>=◌) refl) ∙ ran2) in
      let silence = map (λ _. fr.nought) out in
      let live = keep_if (is_live sig m.stops) xs in
      let after : Spread m'.signals.signals.items =
        Spread-Perm (Perm.symm perm) (
          Spread-played sig interval silence live (Spread-keep_if (is_live sig m.stops) xs back)) in
      let after2 = subst (λ z. Spread z.signals.signals.items) same after in
      let next : Heard m2 n = record {
        playing = p2;
        buffer = buffer;
        spread =
            subst (λ z. Spread (m2.signals.signals.items ++ z)) (sym none_left)
              (subst Spread (sym (append-nil m2.signals.signals.items)) after2);
      } in
      (w, m', d.ran, (ran, perm), subst (λ z. Heard z n) (sym same) next)

  pub stop-Heard : (m : Mixer A S) (n i : ℕ) → Heard m n → Heard (Mixer.stop m i) n
  unfolding Mixer.stop
  stop-Heard m n i h =
      let p = h.playing in
      let q : Playing fr sig (Mixer.stop m i) n = record {
        ms = p.ms;
        sound = p.sound;
        flagged = p.flagged;
        waiting = p.waiting;
        stops = length-set m.stops i true ∙ p.stops;
      } in
      record { playing = q; buffer = h.buffer; spread = h.spread }

  call-Heard :
      (fuel : ℕ) (m : Mixer A S) (n : ℕ) (c : Call F A S)
      → Heard m n
      → n + plays (c ∷ []) ≤ max_calls
      → n * 4 < fuel
      → (m' : Mixer A S) × (call fr sig fuel m c ≡ some m') × Heard m' (n + plays (c ∷ []))
  unfolding call Mixer.stop
  call-Heard fuel m n (Safe.play s) h small enough = play-Heard m n s h (omega arith)
  call-Heard fuel m n (Safe.stop i) h small enough =
      (Mixer.stop m i, refl, subst (Heard (Mixer.stop m i)) (omega arith) (stop-Heard m n i h))
  call-Heard fuel m n (Safe.sample interval out) h small enough =
      let (w, m', updated, (ran, perm), next) = sample-Heard fuel m n interval out h enough in
      (m', rw (ran, ◌>>=◌) refl, subst (Heard m') (omega arith) next)

  pub calls-Heard :
      (fuel : ℕ) (cs : List (Call F A S)) (m : Mixer A S) (n : ℕ)
      → Heard m n
      → n + plays cs ≤ max_calls
      → (n + plays cs) * 4 < fuel
      → (m' : Mixer A S) × (calls fr sig fuel m cs ≡ some m') × Heard m' (n + plays cs)
  unfolding calls
  calls-Heard fuel [] m n h small enough = (m, refl, subst (Heard m) (omega arith) h)
  calls-Heard fuel (c ∷ cs) m n h small enough =
      let split = plays-cons fr sig c cs in
      let (m1, ran, h1) = call-Heard fuel m n c h (omega (arith, split)) (omega (arith, split)) in
      let (m2, rest, h2) =
        calls-Heard fuel cs m1 (n + plays (c ∷ [])) h1 (omega (arith, split))
          (omega (arith, split)) in
      (m2, rw (ran, ◌>>=◌) rest, subst (Heard m2) (omega (arith, split)) h2)

  pub new-Heard : (nought : A) → Heard (new nought) 0
  unfolding new Set.new
  new-Heard nought = record {
    playing = record { ms = []; sound = new-Sound; flagged = tt; waiting = tt; stops = refl };
    buffer = omega (arith, length-replicate buffer_len nought);
    spread = tt;
  }

  -- From the creation of a mixer on, after every sequence of calls of `play`, `stop` and `sample`, for at
  -- most 2^58 signals and with fuel for four messages a signal, the next call of `sample` returns: it
  -- updates the set, leaves in `out` the sum, from silence, of the frames of the signals that are
  -- neither stopped nor finished, and keeps exactly those, in some order, each advanced by the length of
  -- `out`. The frames of a signal do not depend on what stood in the slice nor on how it is cut.
  pub mixer_outputs :
      (fuel : ℕ) (nought : A) (cs : List (Call F A S)) (interval : F) (out : List A)
      → plays cs ≤ max_calls
      → plays cs * 4 < fuel
      → (m : Mixer A S) × (w : World (MixedSignal S)) × (m' : Mixer A S) × (calls fr sig fuel
            (new nought)
            cs
          ≡ some m)
        × (Inner.update fuel m.signals ≡ some w)
        × Sampled fuel m interval out w m'
  mixer_outputs fuel nought cs interval out small enough =
      let (m, ran, h) =
        calls-Heard fuel cs (new nought) 0 (new-Heard nought) (omega arith) (omega arith) in
      let (w, m', updated, outputs, next) =
        sample-Heard fuel m (0 + plays cs) interval out h (omega arith) in
      (m, w, m', ran, updated, outputs)
