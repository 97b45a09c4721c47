-- ===== src/Spsc/Run.antt =====
-- No sequence of calls tells a channel from the bounded queue.
use oddio.Base.{
  ℕ, suc, ◌+◌, ◌<◌, ◌≤◌, min, ◌≡◌, refl, ap, ap₂, sym, ◌∙◌, Bool, true, false, inl, inr, Option,
  none, some, List, [], ◌∷◌, ◌++◌, arith, length, length-set, take, drop, ltb, leb, ◌==◌,
  Bool-cases, Option-cases, max_len, subst, set, checked_sub, length-replicate, add_usize,
}
use oddio.Spsc.{
  free_regions, Channel, SendResult, sent, refused, size, channel, free, send_from_slice, copy_to,
  copy_rest, send, update, release, pop, index,
}
use oddio.Spsc.Window.{Holds}
use oddio.Spsc.Send.{channel-Holds, free-Holds, send_lem, size-send}
use oddio.Spsc.SendSlice.{send_from_slice_lem}
use oddio.Spsc.Receive.{update_lem, pop_lem, index_lem, release-Holds}
use oddio.Spsc.Queue.{
  Op, Reply, Queue, accepted, number, item, items, done, panicked, room, HasReserves,
}
use oddio.Spsc.Queue

module _ {ℓ} {A : Type ℓ} where
  is_sent : SendResult A → Bool
  is_sent sent = true
  is_sent (refused x) = false

  answer : Channel A → Option (List (Option A) × Channel A) → Reply A × Channel A
  answer c none = (panicked, c)
  answer c (some (gone, c')) = (items gone, c')

  -- One call of an end of the channel.
  call : Channel A → Op A → Reply A × Channel A
  unfolding is_sent answer
  call c (Op.send x reserve) = let (r, c') = send c x reserve in (accepted (is_sent r), c')
  call c (Op.send_slice xs) = let (n, c') = send_from_slice c xs in (number n, c')
  call c Op.free = (number (free c), c)
  call c Op.update = (done, update c)
  call c Op.pop = let (r, c') = pop c in (item r, c')
  call c (Op.release n) = answer c (release c n)
  call c (Op.index i) = (item (index c i), c)

  pub run : Channel A → List (Op A) → List (Reply A)
  run c [] = []
  run c (op ∷ ops) = let (r, c') = call c op in r ∷ run c' ops

  -- No call changes the number of slots.
  length-copy_to :
      (slots : List (Option A)) (i : ℕ) (xs : List A) → length (copy_to slots i xs) ≡ length slots
  unfolding copy_to
  length-copy_to slots i [] = refl
  length-copy_to slots i (x ∷ xs) =
      length-copy_to (set slots i (some x)) (suc i) xs ∙ length-set slots i (some x)

  record Refines (c : Channel A) (q : Queue A) : Type ℓ where
    holds : Holds c q.content
    view : q.seen ≡ c.len
    ring : q.cap + 1 ≡ size c

  room-eq : (c : Channel A) (q : Queue A) → Refines c q → room q ≡ free c
  room-eq c q h = omega (arith, free-Holds c q.content h.holds)

  len-send : (c : Channel A) (x : A) (n : ℕ) → (send c x n).1.len ≡ c.len
  unfolding send
  len-send c x n = ground arith

  length-copy_rest :
      (xs : List A) (n1 len1 : ℕ) (slots : List (Option A))
      → length (copy_rest xs n1 len1 slots).1 ≡ length slots
  unfolding copy_rest
  length-copy_rest xs n1 len1 slots = elim (Option-cases (checked_sub (length xs) n1)) [
    | inl e ↦ rw (e, copy_rest)
    | inr (rest, e) ↦ rw (e, copy_rest) (length-copy_to slots 0 (take (min len1 rest) (drop n1 xs)))
  ]

  size-send_from_slice : (c : Channel A) (xs : List A) → size (send_from_slice c xs).1 ≡ size c
  unfolding send_from_slice
  size-send_from_slice c xs =
      let (len0, len1) = free_regions c in
      let n1 = min len0 (length xs) in
      let slots = copy_to c.slots c.write (take n1 xs) in
      length-copy_rest xs n1 len1 slots ∙ length-copy_to c.slots c.write (take n1 xs)

  size-pop : (c : Channel A) → size (pop c).1 ≡ size c
  unfolding pop
  size-pop c = ground arith

  Agrees : Reply A × Channel A → Reply A × Queue A → Type ℓ
  Agrees rc rq = (rc.0 ≡ rq.0) × Refines rc.1 rq.1

  send-Agrees :
      (c : Channel A) (q : Queue A) (x : A) (reserve : ℕ)
      → Refines c q
      → reserve ≤ room q
      → Agrees (call c (Op.send x reserve)) (Queue.step q (Op.send x reserve))
  unfolding call Queue.step Agrees
  send-Agrees c q x reserve h left =
      let free_eq = free-Holds c q.content h.holds in
      let ring = h.ring in
      let (fits, full) =
        send_lem c q.content x reserve h.holds (omega (arith, h.holds.room, left, ring)) in
      elim (Bool-cases (leb (room q) reserve)) [
        | inl e ↦
            let same = full (ground arith) in
            let still : Refines (send c x reserve).1 q = rw (ap (λ r. r.1) same) h in
            rw (e, Queue.step) (ap (λ r. accepted (is_sent r.0)) same, still)
        | inr e ↦
            let (ok, held) = fits (ground arith) in
            rw (e, Queue.step)
              (
                ap (λ r. accepted (is_sent r)) ok,
                record {
                  holds = held;
                  view = h.view ∙ sym (len-send c x reserve);
                  ring = h.ring ∙ sym (size-send c x reserve);
                },
              )
      ]

  send_slice-Agrees :
      (c : Channel A) (q : Queue A) (xs : List A)
      → Refines c q
      → Agrees (call c (Op.send_slice xs)) (Queue.step q (Op.send_slice xs))
  unfolding call Queue.step Agrees send_from_slice
  send_slice-Agrees c q xs h =
      let (count, held) = send_from_slice_lem c q.content xs h.holds in
      let same = count ∙ ap (λ n. min n (length xs)) (sym (room-eq c q h)) in
      (
        ap number same,
        record {
          holds = subst (λ n. Holds (send_from_slice c xs).1 (q.content ++ take n xs)) same held;
          view = h.view;
          ring = h.ring ∙ sym (size-send_from_slice c xs);
        },
      )

  pop-Agrees :
      (c : Channel A) (q : Queue A) → Refines c q → Agrees (call c Op.pop) (Queue.step q Op.pop)
  unfolding call Queue.step Agrees
  pop-Agrees c q h =
      let (nothing, oldest) = pop_lem c q.content h.holds in
      elim (Bool-cases (q.seen == 0)) [
        | inl e ↦
            let same = nothing (ground arith) in
            let still : Refines (pop c).1 q = rw (ap (λ r. r.1) same) h in
            rw (e, Queue.step) (ap (λ r. item r.0) same, still)
        | inr e ↦
            let (got, held, count) = oldest (ground arith) in
            rw (e, Queue.step)
              (
                ap item got,
                record { holds = held; view = omega arith; ring = h.ring ∙ sym (size-pop c) },
              )
      ]

  release-Agrees :
      (c : Channel A) (q : Queue A) (n : ℕ)
      → Refines c q
      → Agrees (call c (Op.release n)) (Queue.step q (Op.release n))
  unfolding call answer Queue.step Agrees
  release-Agrees c q n h =
      let (fits, over) = release-Holds c q.content n h.holds in
      elim (Bool-cases (leb n q.seen)) [
        | inl e ↦
            let (c', ran, held, count, same) = fits (ground (arith, h.view)) in
            rw (ran, e, call, answer)
              (
                refl,
                record { holds = held; view = omega (arith, h.view); ring = h.ring ∙ sym same },
              )
        | inr e ↦ rw (over (ground (arith, h.view)), e, call, answer) (refl, h)
      ]

  index-Agrees :
      (c : Channel A) (q : Queue A) (i : ℕ)
      → Refines c q
      → Agrees (call c (Op.index i)) (Queue.step q (Op.index i))
  unfolding call Queue.step Agrees
  index-Agrees c q i h =
      let (inside, outside) = index_lem c q.content i h.holds in
      elim (Bool-cases (ltb i q.seen)) [
        | inl e ↦ rw (e, Queue.step) (ap item (inside (ground arith)), h)
        | inr e ↦ rw (e, Queue.step) (ap item (outside (ground arith)), h)
      ]

  call-Agrees :
      (c : Channel A) (q : Queue A) (op : Op A) (ops : List (Op A))
      → Refines c q
      → HasReserves q (op ∷ ops)
      → Agrees (call c op) (Queue.step q op)
  unfolding call Queue.step Agrees update HasReserves
  call-Agrees c q (Op.send x reserve) ops h (left, more) = send-Agrees c q x reserve h left
  call-Agrees c q (Op.send_slice xs) ops h k = send_slice-Agrees c q xs h
  call-Agrees c q Op.free ops h k = (ap number (sym (room-eq c q h)), h)
  call-Agrees c q Op.update ops h k =
      let (held, all, more) = update_lem c q.content h.holds in
      (refl, record { holds = held; view = sym all; ring = h.ring })
  call-Agrees c q Op.pop ops h k = pop-Agrees c q h
  call-Agrees c q (Op.release n) ops h k = release-Agrees c q n h
  call-Agrees c q (Op.index i) ops h k = index-Agrees c q i h

  run-Refines :
      (ops : List (Op A)) (c : Channel A) (q : Queue A)
      → Refines c q
      → HasReserves q ops
      → run c ops ≡ Queue.run q ops
  unfolding run Queue.run Agrees HasReserves
  run-Refines [] c q h left = refl
  run-Refines (op ∷ ops) c q h left =
      let (same, next) = call-Agrees c q op ops h left in
      ap₂ ◌∷◌ same (run-Refines ops (call c op).1 (Queue.step q op).1 next left.1)

  -- From its creation on, a channel answers the calls of `send`, `send_from_slice`, `free`, `update`,
  -- `pop`, `release` and `index`, in every sequence, as a bounded queue does, if its capacity is below
  -- the largest allocation and each `send` with a reserve finds that much room in the queue. A
  -- `release` of more items than were seen panics in both.
  pub channel_refines :
      (n : ℕ) (ops : List (Op A))
      → n < max_len
      → HasReserves (record { cap = n; content = []; seen = 0 }) ops
      → run (channel n) ops ≡ Queue.run (record { cap = n; content = []; seen = 0 }) ops
  unfolding channel
  channel_refines n ops h left =
      run-Refines ops (channel n) (record { cap = n; content = []; seen = 0 })
        (record {
          holds = channel-Holds n h;
          view = refl;
          ring = omega (arith, length-replicate {A = Option A} (add_usize n 1) none);
        })
        left
