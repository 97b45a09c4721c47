-- ===== src/Set/Handle.antt =====
-- The control side of src/set.rs: `SetHandle`.
pub mod Send
pub mod Post
pub mod Trim
pub mod Empty
pub mod Gather
pub mod Grow
pub mod Renew
use oddio.Base.{
  ℕ, suc, ◌*◌, ◌%◌, Bool, true, false, not, Option, none, some, List, [], ◌∷◌, ◌++◌, length,
  get_elem?, set, ◌==◌, ◌||◌, if◌then◌else◌, ◌>>=◌, ◌>>◌, add_usize, sub_usize, usize_mod,
}
use oddio.Spsc
use oddio.Spsc.{Channel, SendResult, sent, refused}
use oddio.Set.{
  Msg, realloc_channel, realloc_signals, insert as insert_msg, Free, table, signal, World,
  with_capacity,
}

abbrev pub mul_usize : ℕ → ℕ → ℕ
mul_usize a b = a * b % usize_mod

-- `unwrap_or_else(|_| unreachable!(…))`
abbrev pub expect_sent {ℓ} : {A : Type ℓ} → SendResult A → Option (Unit {0})
expect_sent sent = some tt
expect_sent (refused x) = none

module _ {ℓ} {T : Type ℓ} where
  -- The branch of `SetHandle::send` for a channel that would become full.
  unfoldable pub grow : World T → Channel (Msg T) → Msg T → Option (World T)
  grow w c msg = do
    let id = length w.msgs
    let (r, c') = Spsc.send c (realloc_channel id) 0
    let (r', n) = Spsc.send (Spsc.channel (add_usize (mul_usize 2 (Spsc.capacity c)) 1)) msg 0
    expect_sent r
    expect_sent r'
    some (record w {
      msgs = set w.msgs w.sender c' ++ n ∷ [];
      sender = id;
      old_senders = w.old_senders ++ w.sender ∷ [];
    })

  -- `SetHandle::send`
  unfoldable pub send : World T → Msg T → Option (World T)
  send w msg = do
    c ← get_elem? w.msgs w.sender
    let (r, c') = Spsc.send c msg 1
    elim r [ sent ↦ some (record w { msgs = set w.msgs w.sender c' }) | refused m ↦ grow w c m ]

  -- The first loop of `gc`: senders whose receiver is gone are dropped from the front.
  unfoldable pub drop_closed : World T → List ℕ → Option (World T)
  drop_closed w [] = some (record w { old_senders = [] })
  drop_closed w (i ∷ is) = do
    c ← get_elem? w.msgs i
    let rest = drop_closed (record w { msgs = set w.msgs i (Spsc.drop_sender c) }) is
    if Spsc.sender_is_closed c then rest else some (record w { old_senders = i ∷ is })

  -- the body of the loop of `gc_inner`, over what the free queue yields
  unfoldable pub count_free : ℕ → List (Option (Free T)) → Option ℕ
  count_free active [] = some active
  count_free active (none ∷ xs) = none
  count_free active (some (signal x) ∷ xs) = count_free (sub_usize active 1) xs
  count_free active (some (table t) ∷ xs) = count_free active xs

  unfoldable pub gc_inner : World T → Option (World T)
  gc_inner w = do
    c ← get_elem? w.frees w.free
    let u = Spsc.update c
    let (got, c') = Spsc.drain (suc u.len) u
    active ← count_free w.active_signals got
    some (record w { frees = set w.frees w.free c'; active_signals = active })

  -- `self.free.is_closed() && !self.sender.is_closed()`, the condition to go on
  unfoldable pub must_switch : World T → Option Bool
  must_switch w = do
    f ← get_elem? w.frees w.free
    s ← get_elem? w.msgs w.sender
    some (if not (Spsc.receiver_is_closed f) || Spsc.sender_is_closed s then false else true)

  -- The old free queue is dropped when the handle goes over to the next one.
  unfoldable pub switch_free : World T → ℕ → List ℕ → Option (World T)
  switch_free w f fs = do
    c ← get_elem? w.frees w.free
    some (record w { frees = set w.frees w.free (Spsc.drop_receiver c); free = f; next_free = fs })

  -- The second loop of `gc`. Every round but the last takes a queue from `next_free`, the list that
  -- is passed; the `none` for an empty one is the panic of `expect`.
  unfoldable pub gc_loop : World T → List ℕ → Option (World T)
  gc_loop w [] = do w1 ← gc_inner w; again ← must_switch w1; if again then none else some w1
  gc_loop w (f ∷ fs) = do
    w1 ← gc_inner w
    again ← must_switch w1
    let rest = (do w2 ← gc_inner w1; w3 ← switch_free w2 f fs; gc_loop w3 fs)
    if again then rest else some w1

  unfoldable pub gc : World T → Option (World T)
  gc w = do w' ← drop_closed w w.old_senders; gc_loop w' w'.next_free

  -- The branch of `insert` for a set that is full.
  unfoldable pub realloc : World T → Option (World T)
  realloc w = do
    let cap = mul_usize w.signal_capacity 2
    let id = length w.frees
    let w1 = record w {
      signal_capacity = cap;
      frees = w.frees ++ Spsc.channel (add_usize cap 1) ∷ [];
    }
    w2 ← send w1 (realloc_signals (with_capacity cap) id)
    some (record w2 { next_free = w2.next_free ++ id ∷ [] })

  unfoldable pub insert : World T → T → Option (World T)
  insert w x = do
    w1 ← gc w
    w2 ← if w1.active_signals == w1.signal_capacity then realloc w1 else some w1
    w3 ← send w2 (insert_msg x)
    some (record w3 { active_signals = add_usize w3.active_signals 1 })
