-- ===== src/Swap/Mailbox.antt =====
-- What the two ends promise together: a mailbox that keeps only the last value sent.
use oddio.Base.{
  ℕ, ◌≡◌, refl, ap, ap₂, ◌∙◌, Bool, true, false, Option, none, some, List, [], ◌∷◌, arith,
  get_elem?, get_elem?-set_self, get_elem?-set_ne,
}
use oddio.Swap.{Swap, swap, set_pending, flush, refresh, exchange, received}
use oddio.Swap.Slots.{Owns, swap-Owns, flush-Owns, exchange-Owns, set_pending-Owns}

pub data Op {ℓ} (A : Type ℓ) : Type ℓ where
  send : A → Op A
  refresh_now : Op A
  read : Op A

pub data Reply {ℓ} (A : Type ℓ) : Type ℓ where
  done : Reply A
  renewed : Bool → Reply A
  value : Option A → Reply A

pub record Mailbox {ℓ} (A : Type ℓ) : Type ℓ where
  pub current : A
  pub waiting : Option A

module _ {ℓ} {A : Type ℓ} where
  unfoldable pub deliver : Mailbox A → Op A → Reply A × Mailbox A
  deliver m (send x) = (done, record m { waiting = some x })
  deliver m refresh_now = elim m.waiting [
    | none ↦ (renewed false, m)
    | some x ↦ (renewed true, record { current = x; waiting = none })
  ]
  deliver m read = (value (some m.current), m)

  unfoldable pub deliver_all : Mailbox A → List (Op A) → List (Reply A)
  deliver_all m [] = []
  deliver_all m (op ∷ ops) = let (r, m') = deliver m op in r ∷ deliver_all m' ops

  -- The calls of the program: a sender writes its pending value and flushes it.
  call : Swap A → Op A → Reply A × Swap A
  call s (send x) = (done, flush (set_pending s x))
  call s refresh_now = let (r, s') = refresh s in (renewed r, s')
  call s read = (value (received s), s)

  pub run : Swap A → List (Op A) → List (Reply A)
  run s [] = []
  run s (op ∷ ops) = let (r, s') = call s op in r ∷ run s' ops

  -- What the shared slot holds: the waiting value, if it is marked fresh.
  abbrev Waits : Swap A → ℕ → Bool → Option A → Type ℓ
  Waits s mid true w = (x : A) × (get_elem? s.slots mid ≡ some x) × (w ≡ some x)
  Waits s mid false w = w ≡ none

  record Shows (s : Swap A) (m : Mailbox A) : Type ℓ where
    mid : ℕ
    fresh : Bool
    owns : Owns s mid fresh
    now : received s ≡ some m.current
    next : Waits s mid fresh m.waiting

  Agrees : Reply A × Swap A → Reply A × Mailbox A → Type ℓ
  Agrees rs rm = (rs.0 ≡ rm.0) × Shows rs.1 rm.1

  send-Agrees :
      (s : Swap A) (m : Mailbox A) (x : A)
      → Shows s m
      → Agrees (call s (send x)) (deliver m (send x))
  unfolding call deliver Agrees received flush set_pending
  send-Agrees s m x h =
      let kept = set_pending-Owns s h.mid h.fresh x h.owns in
      (
        refl,
        record {
          mid = s.sender;
          fresh = true;
          owns = flush-Owns (set_pending s x) h.mid h.fresh kept;
          now = get_elem?-set_ne s.slots x h.owns.apart ∙ h.now;
          next = (
            x,
            get_elem?-set_self s.slots s.sender x (omega (arith, h.owns.count, h.owns.sender_in)),
            refl,
          );
        },
      )

  refresh-Agrees :
      (s : Swap A) (m : Mailbox A) (mid : ℕ) (fresh : Bool)
      → Owns s mid fresh
      → received s ≡ some m.current
      → Waits s mid fresh m.waiting
      → Agrees (call s refresh_now) (deliver m refresh_now)
  unfolding call deliver Agrees refresh received exchange
  refresh-Agrees s m mid true o now (x, at, w) =
      rw (o.word.fresh_at, w, refresh, deliver)
        (
          refl,
          record {
            mid = s.receiver;
            fresh = false;
            owns = exchange-Owns s mid true o;
            now = rw o.word.slot_at at;
            next = refl;
          },
        )
  refresh-Agrees s m mid false o now next =
      rw (o.word.fresh_at, next, refresh, deliver)
        (refl, record { mid = mid; fresh = false; owns = o; now = now; next = next })

  call-Agrees :
      (s : Swap A) (m : Mailbox A) (op : Op A) → Shows s m → Agrees (call s op) (deliver m op)
  unfolding call deliver Agrees
  call-Agrees s m (send x) h = send-Agrees s m x h
  call-Agrees s m refresh_now h = refresh-Agrees s m h.mid h.fresh h.owns h.now h.next
  call-Agrees s m read h = (ap value h.now, h)

  run-Shows :
      (ops : List (Op A)) (s : Swap A) (m : Mailbox A) → Shows s m → run s ops ≡ deliver_all m ops
  unfolding run deliver_all Agrees
  run-Shows [] s m h = refl
  run-Shows (op ∷ ops) s m h =
      let (same, next) = call-Agrees s m op h in
      ap₂ ◌∷◌ same (run-Shows ops (call s op).1 (deliver m op).1 next)

  -- Whatever the calls of the two ends, a fresh triple buffer answers them as a mailbox that starts
  -- with the third initial value and keeps only the last value sent.
  pub mailbox_refines :
      (a b c : A) (ops : List (Op A))
      → run (swap a b c) ops ≡ deliver_all (record { current = c; waiting = none }) ops
  unfolding swap received
  mailbox_refines a b c ops =
      run-Shows ops (swap a b c) (record { current = c; waiting = none })
        (record { mid = 1; fresh = false; owns = swap-Owns a b c; now = refl; next = refl })
