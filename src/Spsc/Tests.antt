-- ===== src/Spsc/Tests.antt =====
-- The unit tests of src/spsc.rs, and the lemmas on channels at concrete rings.
use oddio.Base.{
  ◌≤◌, Option, ◌⊎◌, ℕ, ◌+◌, ◌%◌, ◌<◌, ◌≡◌, ◌≢◌, min, refl, true, none, some, List, [], ◌∷◌, ◌++◌,
  arith, map, take, length,
}
use oddio.Spsc
use oddio.Spsc.{
  Channel, SendResult, sent, refused, size, channel, send_from_slice, free, update, release, index,
  send, readable_len, lacks_room, pop, drain, drop_shared,
}
use oddio.Spsc.Window.{Holds}
use oddio.Spsc.Send.{send_reserve_lem, send_loses_all, free-Holds}
use oddio.Spsc.SendSlice.{send_from_slice_lem}
use oddio.Spsc.Receive.{index_seen_lem, release_lem, drain_lem, drop_shared_lem}
use oddio.Spsc.Queue
use oddio.Spsc.Run.{run, channel_refines}
use oddio.Spsc.Threads.{System, Reach, start, load, fill, publish, renew, here, next, loaded}
use oddio.Spsc.Threads.Fifo.{threads_fifo, threads_apart}

abbrev three : Channel ℕ
three = update (send_from_slice (channel 4) (1 ∷ 2 ∷ 3 ∷ [])).1

-- what `release` leaves, where it does not panic
abbrev left {ℓ} : {A : Type ℓ} → Channel A → Option (List (Option A) × Channel A) → Channel A
left c none = c
left c (some (gone, c')) = c'

wrap_test :
    let c = left three (release three 2) in
    let d = update (send_from_slice c (4 ∷ 5 ∷ [])).1 in
    (free c ≡ 3) × (index c 0 ≡ some (some 3)) × (free d ≡ 1) × (index d 2 ≡ some (some 5))
unfolding channel send_from_slice free update release index Spsc.shared_release Spsc.free_regions
    readable_len Spsc.copy_to Spsc.copy_rest
wrap_test = (refl, refl, refl, refl)

abbrev three_items : List ℕ
three_items = 10 ∷ 20 ∷ 30 ∷ []

-- A ring of four slots whose three items go round its end; the receiver has seen two of them.
abbrev wrapped : Channel ℕ
wrapped = record {
  read = 2;
  write = 1;
  slots = some 30 ∷ none ∷ some 10 ∷ some 20 ∷ [];
  len = 2;
  sender = true;
  receiver = true;
}

wrapped-Holds : Holds wrapped three_items
wrapped-Holds = record {
  small = omega arith;
  read_in = omega arith;
  room = omega arith;
  write_at = refl;
  seen = omega arith;
  held = (refl, (refl, (refl, tt)));
}

-- A full ring of four slots that ends just before the last one.
abbrev brimming : Channel ℕ
brimming = record {
  read = 3;
  write = 2;
  slots = some 20 ∷ some 30 ∷ none ∷ some 10 ∷ [];
  len = 3;
  sender = true;
  receiver = true;
}

brimming-Holds : Holds brimming three_items
brimming-Holds = record {
  small = omega arith;
  read_in = omega arith;
  room = omega arith;
  write_at = refl;
  seen = omega arith;
  held = (refl, (refl, (refl, tt)));
}

abbrev calls : List (Queue.Op ℕ)
calls =
    Queue.send 7 1
    ∷ Queue.send_slice (8 ∷ 9 ∷ [])
    ∷ Queue.update
    ∷ Queue.release 3
    ∷ Queue.release 1
    ∷ Queue.pop
    ∷ []

channel_refines_example :
    run (channel 2) calls ≡ Queue.run (record { cap = 2; content = []; seen = 0 }) calls
unfolding Queue.HasReserves Queue.step
channel_refines_example =
    channel_refines 2 calls (omega arith) (omega arith, (tt, (tt, (tt, (tt, (tt, tt))))))

-- The sender has published one item, the receiver has seen it, and a second `send` has loaded.
abbrev busy : System ℕ
busy = record {
  chan = record {
    read = 0;
    write = 1;
    slots = some 5 ∷ none ∷ none ∷ [];
    len = 1;
    sender = true;
    receiver = true;
  };
  phase = loaded 0 6;
  taken = none;
  sent_log = 5 ∷ [];
  got_log = [];
}

busy-Reach : Reach 0 (start 2) busy
unfolding channel update readable_len
busy-Reach =
    next (next (next (next (next here (load 5 refl)) (fill 0 5 refl refl)) (publish 5 refl)) renew)
      (load 6 refl)

threads_fifo_example :
    (items : List ℕ) × Holds busy.chan items
    × (map some busy.sent_log ≡ busy.got_log ++ map some items)
    × (length items + 0 < size busy.chan)
threads_fifo_example = threads_fifo 0 2 (omega arith) (omega arith) busy-Reach

threads_apart_example : (busy.chan.read + 0) % size busy.chan ≢ busy.chan.write
threads_apart_example =
    threads_apart 0 2 (omega arith) (omega arith) busy-Reach 0 6 refl refl 0 (omega arith)

send_reserve_lem_example :
    ((length three_items + 1 + 0 < size wrapped)
      × ((send wrapped 40 0).0 ≡ sent)
      × Holds (send wrapped 40 0).1 (10 ∷ 20 ∷ 30 ∷ 40 ∷ []))
    ⊎ ((length three_items + 1 + 0 ≡ size wrapped) × (send wrapped 40 0 ≡ (refused 40, wrapped)))
send_reserve_lem_example = send_reserve_lem wrapped three_items 40 0 wrapped-Holds (omega arith)

send_loses_all_example :
    (free brimming ≡ 0)
    × ((send brimming 40 1).0 ≡ sent)
    × (readable_len (send brimming 40 1).1 ≡ 0)
send_loses_all_example = send_loses_all brimming three_items 40 brimming-Holds refl refl

free-Holds_example : free wrapped + 3 + 1 ≡ 4
free-Holds_example = free-Holds wrapped three_items wrapped-Holds

send_from_slice_lem_example :
    let (n, c') = send_from_slice wrapped (40 ∷ 50 ∷ []) in
    (n ≡ min (free wrapped) 2) × Holds c' (three_items ++ take n (40 ∷ 50 ∷ []))
send_from_slice_lem_example = send_from_slice_lem wrapped three_items (40 ∷ 50 ∷ []) wrapped-Holds

index_seen_lem_example : index wrapped 1 ≡ some (some 20)
index_seen_lem_example = index_seen_lem wrapped three_items 1 wrapped-Holds

release_lem_example :
    ((2 ≤ 2)
      × (c' : Channel ℕ) × (release wrapped 2 ≡ some (some 10 ∷ some 20 ∷ [], c'))
      × Holds c' (30 ∷ [])
      × (c'.len + 2 ≡ 2))
    ⊎ ((2 < 2) × (release wrapped 2 ≡ none))
release_lem_example = release_lem wrapped three_items 2 wrapped-Holds

drain_lem_example :
    let (got, c') = drain 3 wrapped in
    (got ≡ some 10 ∷ some 20 ∷ []) × Holds c' (30 ∷ []) × (c'.len ≡ 0)
drain_lem_example = drain_lem wrapped three_items 3 wrapped-Holds (omega arith)

drop_shared_lem_example : (drop_shared wrapped).0 ≡ some 10 ∷ some 20 ∷ some 30 ∷ []
drop_shared_lem_example = drop_shared_lem wrapped three_items wrapped-Holds
