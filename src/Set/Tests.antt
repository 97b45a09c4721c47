-- ===== src/Set/Tests.antt =====
-- The unit tests of src/set.rs, with fewer signals.
use oddio.Base.{
  ◌⊎◌, ◌++◌, ◌<◌, length, true, none, ℕ, zero, suc, ◌+◌, ◌≡◌, refl, Option, some, List, [], ◌∷◌,
  ltb, arith, ◌>>=◌, ◌≤◌,
}
use oddio.Spsc
use oddio.Set.Handle
use oddio.Set.Inner
use mathlib.Core.List.{Perm}
use oddio.Spsc.Send.{channel-Holds}
use oddio.Set.{World, Msg, insert as insert_msg, signal, with_capacity, new}
use oddio.Set.Bag
use oddio.Set.Bag.{Call, Bag, promise, promises, call, calls}
use oddio.Set.Run.{set_refines, set_counts}
use oddio.Set.Inner.Remove.{FreeQueue, remove_lem}
use oddio.Set.Sweep.{Visit, sweep_all}
use oddio.Set.Sweep.Order.{visits, sweep_all_lem}
use oddio.Set.Handle.{insert, send}
use oddio.Set.Handle.Send.{Sending, Announces, set_send_lem}
use oddio.Set.Inner.{update, remove}

-- A set with small initial capacities, as under Miri.
abbrev small : World ℕ
small = record {
  msgs = Spsc.channel 3 ∷ [];
  frees = Spsc.channel 4 ∷ [];
  sender = 0;
  free = 0;
  next_free = [];
  old_senders = [];
  signal_capacity = 4;
  active_signals = 0;
  recv = 0;
  free_sender = 0;
  signals = with_capacity 4;
}

abbrev insert_updating : ℕ → World ℕ → Option (World ℕ)
insert_updating zero w = some w
insert_updating (suc n) w = insert w n >>= λ w'. update 20 w' >>= insert_updating n

abbrev insert_all : ℕ → World ℕ → Option (World ℕ)
insert_all zero w = some w
insert_all (suc n) w = insert w n >>= insert_all n

abbrev items_of : Option (World ℕ) → Option (List ℕ)
items_of o = o >>= λ w. some w.signals.items

realloc_signals_test : items_of (insert_updating 6 small) ≡ some (5 ∷ 4 ∷ 3 ∷ 2 ∷ 1 ∷ 0 ∷ [])
unfolding insert update Handle.gc Handle.drop_closed Handle.gc_loop Handle.gc_inner
    Handle.count_free Handle.must_switch Handle.send Handle.grow Handle.realloc Handle.switch_free
    Inner.drain_msgs Inner.drain_loop Inner.handle_msg Inner.append Inner.push Inner.switch_channel
    Inner.switch_signals Spsc.drain Spsc.pop Spsc.update Spsc.readable_len Spsc.channel
    Spsc.receiver_is_closed Spsc.sender_is_closed Spsc.send Spsc.capacity Spsc.drop_receiver
    Spsc.drop_sender
realloc_signals_test = refl

-- Three signals, and room for all of them in the free queue.
abbrev playing : World ℕ
playing = record small { signals = record { items = 4 ∷ 7 ∷ 6 ∷ []; capacity = 4 } }

playing-FreeQueue : FreeQueue playing 5 []
unfolding Spsc.channel
playing-FreeQueue = record {
  chan = Spsc.channel 4;
  at = refl;
  holds = channel-Holds 4 (omega arith);
  slots = refl;
}

-- Counts the signals, and keeps those below 7.
abbrev below_seven : ℕ → ℕ → Option (Visit ℕ ℕ)
below_seven n x = some (record { stays = ltb x 7; item = x + 1; state = n + 1 })

sweep_all_lem_example :
    (w' : World ℕ) × (sweep_all below_seven playing 0 ≡ some (w', 3))
    × Perm w'.signals.items (7 ∷ 5 ∷ [])
    × FreeQueue w' 5 (signal 8 ∷ [])
unfolding visits
sweep_all_lem_example =
    sweep_all_lem below_seven playing 0 5 []
      (record { kept = 7 ∷ 5 ∷ []; gone = 8 ∷ []; state = 3 }) playing-FreeQueue refl (omega arith)

remove_lem_example :
    (tail' : List ℕ) × (w' : World ℕ) × (remove playing 1 ≡ some w')
    × (w'.signals.items ≡ 4 ∷ tail')
    × Perm tail' (6 ∷ [])
    × FreeQueue w' 5 (signal 7 ∷ [])
remove_lem_example =
    remove_lem playing 5 [] (4 ∷ []) 7 (6 ∷ []) refl playing-FreeQueue (omega arith)

-- The message channel has one slot to spare.
abbrev waiting : List (Msg ℕ)
waiting = insert_msg 1 ∷ insert_msg 2 ∷ []

abbrev crowded : World ℕ
crowded = record small {
  msgs =
      record {
        read = 3;
        write = 1;
        slots = some (insert_msg 2) ∷ none ∷ none ∷ some (insert_msg 1) ∷ [];
        len = 0;
        sender = true;
        receiver = true;
      }
      ∷ [];
}

crowded-Sending : Sending crowded 4 waiting
crowded-Sending = record {
  chan = _;
  at = refl;
  holds = record {
    small = omega arith;
    read_in = omega arith;
    room = omega arith;
    write_at = refl;
    seen = omega arith;
    held = (refl, (refl, tt));
  };
  slots = refl;
  spare = omega arith;
}

set_send_lem_example :
    ((length waiting + 2 < 4)
      × (w' : World ℕ) × (send crowded (insert_msg 3) ≡ some w')
      × Sending w' 4 (waiting ++ insert_msg 3 ∷ [])
      × (w'.sender ≡ 0))
    ⊎ ((length waiting + 2 ≡ 4)
        × (w' : World ℕ) × (send crowded (insert_msg 3) ≡ some w')
        × Sending w' 8 (insert_msg 3 ∷ [])
        × (w'.sender ≡ 1)
        × Announces w' 0 1 waiting
        × (w'.old_senders ≡ 0 ∷ []))
set_send_lem_example = set_send_lem crowded 4 waiting (insert_msg 3) crowded-Sending (omega arith)

-- Inserted, updated, and the first of three removed.
abbrev some_calls : List (Call ℕ)
some_calls =
    Bag.insert 4 ∷ Bag.insert 7 ∷ Bag.insert 6 ∷ Bag.update ∷ Bag.remove 0 ∷ Bag.insert 5 ∷ []

set_refines_example : (calls 100 new some_calls >>= λ w. some w.signals.items) ≡ some (6 ∷ 7 ∷ [])
unfolding promises promise Inner.swap_remove
set_refines_example = set_refines 100 some_calls (omega arith) (omega arith)

-- the handle and the set after `some_calls`
abbrev after_calls : World ℕ
after_calls = elim (calls 100 new some_calls) [ none ↦ small | some w ↦ w ]

set_counts_example :
    (2 + 1 ≤ after_calls.active_signals)
    × (after_calls.active_signals ≤ after_calls.signal_capacity)
    × (after_calls.active_signals ≤ 6)
    × (after_calls.signal_capacity ≤ 140)
unfolding promises promise calls call Inner.swap_remove insert update remove new Handle.gc
    Handle.drop_closed Handle.gc_loop Handle.gc_inner Handle.count_free Handle.must_switch
    Handle.send Handle.grow Handle.realloc Handle.switch_free Inner.drain_msgs Inner.drain_loop
    Inner.handle_msg Inner.append Inner.push Inner.switch_channel Inner.switch_signals Spsc.drain
    Spsc.pop Spsc.update Spsc.readable_len Spsc.channel Spsc.receiver_is_closed
    Spsc.sender_is_closed Spsc.send Spsc.capacity Spsc.drop_receiver Spsc.drop_sender
set_counts_example =
    set_counts 100 some_calls after_calls (record { items = 6 ∷ 7 ∷ []; pending = 5 ∷ [] })
      (omega arith) (omega arith) refl refl
