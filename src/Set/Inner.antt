-- ===== src/Set/Inner.antt =====
-- The audio side of src/set.rs: `SetInner` and `Set`.
pub mod Remove
pub mod Take
pub mod Switch
pub mod Drain
pub mod Leave
use oddio.Base.{
  ℕ, zero, suc, ◌+◌, ◌-◌, Bool, true, false, Option, none, some, List, [], ◌∷◌, ◌++◌, length,
  get_elem?, set, take, ltb, leb, ◌==◌, if◌then◌else◌, ◌>>=◌, ◌>>◌, sub_usize,
}
use oddio.Spsc
use oddio.Spsc.{Channel}
use oddio.Set.{
  Table, Msg, realloc_channel, realloc_signals, insert as insert_msg, Free, table, signal, World,
}
use oddio.Set.Handle.{expect_sent}

module _ {ℓ} {T : Type ℓ} where
  -- `Vec::push` and `Vec::append`; past its capacity a `Vec` grows to hold what it must.
  abbrev grown : ℕ → List T → ℕ
  grown cap xs = if ltb cap (length xs) then length xs else cap

  unfoldable pub push : Table T → T → Table T
  push t x = let xs = t.items ++ x ∷ [] in record { items = xs; capacity = grown t.capacity xs }

  unfoldable pub append : Table T → Table T → Table T
  append t old =
      let xs = t.items ++ old.items in record { items = xs; capacity = grown t.capacity xs }

  -- `Vec::swap_remove`, which panics out of range
  unfoldable pub swap_remove : List T → ℕ → Option (T × List T)
  swap_remove xs i = do
    x ← get_elem? xs i
    last ← get_elem? xs (length xs - 1)
    some (x, take (length xs - 1) (set xs i last))

  -- `ReallocChannel`: the old receiver is dropped and the new one updated.
  unfoldable pub switch_channel : World T → ℕ → Option (World T)
  switch_channel w id = do
    old ← get_elem? w.msgs w.recv
    let msgs = set w.msgs w.recv (Spsc.drop_receiver old)
    c ← get_elem? msgs id
    some (record w { msgs = set msgs id (Spsc.update c); recv = id })

  -- `ReallocSignals`: the signals move to the new table, the old free sender is dropped, and the
  -- emptied table is the first item of the new free queue.
  unfoldable pub switch_signals : World T → Table T → ℕ → Option (World T)
  switch_signals w new id = do
    old ← get_elem? w.frees w.free_sender
    let frees = set w.frees w.free_sender (Spsc.drop_sender old)
    c ← get_elem? frees id
    let (r, c') = Spsc.send c (table (record w.signals { items = [] })) 0
    expect_sent r
    some (record w { signals = append new w.signals; frees = set frees id c'; free_sender = id })

  -- the `match` of `drain_msgs`
  unfoldable pub handle_msg : World T → Msg T → Option (World T)
  handle_msg w (realloc_channel id) = switch_channel w id
  handle_msg w (realloc_signals new id) = switch_signals w new id
  handle_msg w (insert_msg x) =
      if ltb (length w.signals.items) w.signals.capacity
      then some (record w { signals = push w.signals x })
      else none

  -- The loop of `drain_msgs`, on fuel; `none` also when the fuel runs out.
  unfoldable pub drain_loop : ℕ → World T → Option (World T)
  drain_loop zero w = none
  drain_loop (suc fuel) w = do
    c ← get_elem? w.msgs w.recv
    let (r, c') = Spsc.pop c
    let w1 = record w { msgs = set w.msgs w.recv c' }
    elim r [
      | none ↦ some w1
      | some none ↦ none
      | some (some msg) ↦ (handle_msg w1 msg >>= drain_loop fuel)
    ]

  unfoldable pub drain_msgs : ℕ → World T → Option (World T)
  drain_msgs fuel w = do
    c ← get_elem? w.msgs w.recv
    drain_loop fuel (record w { msgs = set w.msgs w.recv (Spsc.update c) })

  -- `Set::update`
  unfoldable pub update : ℕ → World T → Option (World T)
  update fuel w = drain_msgs fuel w

  -- `Set::remove`
  unfoldable pub remove : World T → ℕ → Option (World T)
  remove w i = do
    (x, rest) ← swap_remove w.signals.items i
    c ← get_elem? w.frees w.free_sender
    let (r, c') = Spsc.send c (signal x) 0
    expect_sent r
    some (record w {
      signals = record w.signals { items = rest };
      frees = set w.frees w.free_sender c';
    })
