-- ===== src/Set/Handle/Trim.antt =====
-- The first loop of `SetHandle::gc`: it only drops senders.
use oddio.Base.{
  ℕ, ◌<◌, ◌≤◌, ◌≡◌, refl, ap, sym, subst, ◌∙◌, ◌≢◌, inl, inr, Bool, false, Bool-cases, ◌==◌, Option,
  some, some-injective, List, [], ◌∷◌, arith, length, length-set, get_elem?, set,
  get_elem?-set_self, get_elem?-set_ne, get_elem?_within, ◌>>=◌,
}
use oddio.Spsc
use oddio.Spsc.{Channel, size, readable_len}
use oddio.Spsc.Window.{Holds}
use oddio.Set.{World, Msg}
use oddio.Set.Chain.{Chain-Keeps}
use oddio.Set.Route.{Routed, Below, Below-le}
use oddio.Set.Handle.{drop_closed}

module _ {ℓ} {A : Type ℓ} where
  pub sender-Holds :
      (b : Bool) (c : Channel A) (xs : List A) → Holds c xs → Holds (record c { sender = b }) xs
  sender-Holds b c xs h = record {
    small = h.small;
    read_in = h.read_in;
    room = h.room;
    write_at = h.write_at;
    seen = h.seen;
    held = h.held;
  }

  pub receiver-Holds :
      (b : Bool) (c : Channel A) (xs : List A) → Holds c xs → Holds (record c { receiver = b }) xs
  receiver-Holds b c xs h = record {
    small = h.small;
    read_in = h.read_in;
    room = h.room;
    write_at = h.write_at;
    seen = h.seen;
    held = h.held;
  }

  -- The channels differ at most in the flag of the sender.
  abbrev pub Flags : List (Channel A) → List (Channel A) → Type ℓ
  Flags cs cs' =
      (k : ℕ) (c : Channel A)
      → get_elem? cs k ≡ some c
      → (b : Bool) × (get_elem? cs' k ≡ some (record c { sender = b }))

  set-Flags :
      (cs : List (Channel A)) (i : ℕ) (c : Channel A)
      → i < length cs
      → get_elem? cs i ≡ some c
      → Flags cs (set cs i (Spsc.drop_sender c))
  unfolding Spsc.drop_sender
  set-Flags cs i c lt at k d there = elim (Bool-cases (i == k)) [
    | inl e ↦
        let same : i ≡ k = ground arith in
        let it : c ≡ d = some-injective _ _ (sym at ∙ ap (get_elem? cs) same ∙ there) in
        let shut : Channel A → Channel A = λ z. record z { sender = false } in
        (
          false,
          subst (λ j. get_elem? (set cs i (shut c)) j ≡ some (shut c)) same
                (get_elem?-set_self cs i (shut c) lt)
              ∙ ap (λ z. some (shut z)) it,
        )
    | inr e ↦
        let ne : i ≢ k = λ z. ground (arith, z) in
        (d.sender, get_elem?-set_ne cs (record c { sender = false }) ne ∙ there)
  ]

module _ {ℓ} {T : Type ℓ} where
  pub record Trimmed (w : World T) (got : Option (World T)) : Type ℓ where
    pub msgs : List (Channel (Msg T))
    pub old_senders : List ℕ
    pub ran : got ≡ some (record w { msgs = msgs; old_senders = old_senders })
    pub flags : Flags w.msgs msgs
    pub longer : length w.msgs ≤ length msgs
    pub olds : Below (length w.msgs) old_senders

  drop_closed-Trimmed :
      (w : World T) (is : List ℕ) → Below (length w.msgs) is → Trimmed w (drop_closed w is)
  unfolding drop_closed
  drop_closed-Trimmed w [] below = record {
    msgs = w.msgs;
    old_senders = [];
    ran = refl;
    flags = λ k c at. (c.sender, at);
    longer = omega arith;
    olds = tt;
  }
  drop_closed-Trimmed w (i ∷ is) (lt, below) =
      let (c, at) = get_elem?_within w.msgs i lt in
      let msgs = set w.msgs i (Spsc.drop_sender c) in
      let kept = length-set w.msgs i (Spsc.drop_sender c) in
      let flags = set-Flags w.msgs i c lt at in
      elim (Bool-cases (Spsc.sender_is_closed c)) [
        | inl e ↦
            let rest =
              drop_closed-Trimmed (record w { msgs = msgs }) is
                (Below-le (length w.msgs) (length msgs) is (omega (arith, kept)) below) in
            record {
              msgs = rest.msgs;
              old_senders = rest.old_senders;
              ran = rw (at, ◌>>=◌, e) rest.ran;
              flags = λ k d there.
                  let (b, after) = flags k d there in rest.flags k (record d { sender = b }) after;
              longer = omega (arith, kept, rest.longer);
              olds =
                  Below-le (length msgs) (length w.msgs) rest.old_senders (omega (arith, kept))
                    rest.olds;
            }
        | inr e ↦ record {
          msgs = w.msgs;
          old_senders = i ∷ is;
          ran = rw (at, ◌>>=◌, e) refl;
          flags = λ k d there. (d.sender, there);
          longer = omega arith;
          olds = (lt, below);
        }
      ]

  -- The loop keeps the messages under way.
  pub drop_closed-Routed :
      (w : World T) (bound : ℕ) (path : List ℕ) (ms : List (Msg T))
      → Routed w.msgs w.recv w.sender w.old_senders bound path ms
      → (t : Trimmed w (drop_closed w w.old_senders)) × Routed t.msgs w.recv w.sender t.old_senders
          bound path ms
  unfolding readable_len
  drop_closed-Routed w bound path ms r =
      let t = drop_closed-Trimmed w w.old_senders r.olds in
      let (b, there) = t.flags w.sender r.tail r.tail_at in
      (
        t,
        record {
          chain =
              Chain-Keeps
                (λ k c p at.
                  let (s, after) = t.flags k c at in
                  (record c { sender = s }, after, λ xs. sender-Holds s c xs))
                r.chain;
          newest = r.newest;
          tail = record r.tail { sender = b };
          tail_at = there;
          spare = r.spare;
          few = r.few;
          olds = Below-le (length w.msgs) (length t.msgs) t.old_senders t.longer t.olds;
        },
      )
