-- ===== src/Swap/Tests.antt =====
-- The unit test of src/swap.rs, and runs of the triple buffer.
use oddio.Base.{ℕ, ◌<◌, ◌≡◌, ◌≢◌, refl, true, false, none, some, List, [], ◌∷◌}
use oddio.Swap.{Swap, swap, pending, set_pending, flush, refresh, received, exchange, is_fresh}
use oddio.Swap.Mailbox.{Op, send, refresh_now, read, deliver_all, run, mailbox_refines}
use oddio.Swap.Threads.{
  System, Reach, start, exclusive_slots, takes_last, write_pending, flush_pending, load_fresh, here,
  next,
}

smoke :
    let s : Swap ℕ = swap 0 0 0 in
    let t = flush (set_pending s 1) in
    let u = flush (set_pending t 2) in
    (received t ≡ some 0)
    × (received (refresh t).1 ≡ some 1)
    × ((refresh (refresh t).1).0 ≡ false)
    × (received u ≡ some 0)
    × (received (refresh u).1 ≡ some 2)
unfolding swap set_pending flush received refresh is_fresh exchange
smoke = (refl, refl, refl, refl, refl)

abbrev calls : List (Op ℕ)
calls = read ∷ send 1 ∷ send 2 ∷ refresh_now ∷ read ∷ refresh_now ∷ []

mailbox_refines_example :
    run (swap 7 8 9) calls ≡ deliver_all (record { current = 9; waiting = none }) calls
mailbox_refines_example = mailbox_refines 7 8 9 calls

-- The receiver has seen the value 5 fresh, and the value 6 has been flushed since.
abbrev raced : System ℕ
raced = record {
  swap_state = record { slots = 5 ∷ 6 ∷ 9 ∷ []; shared = 5; sender = 0; receiver = 2 };
  loaded = true;
  last = some 6;
}

raced-Reach : Reach (start 7 8 9) raced
unfolding swap set_pending flush is_fresh pending
raced-Reach =
    next
      (next (next (next (next here (write_pending 5)) flush_pending) (load_fresh refl))
        (write_pending 6))
      flush_pending

exclusive_slots_example :
    (raced.swap_state.sender ≢ raced.swap_state.receiver)
    × (raced.swap_state.sender < 3)
    × (raced.swap_state.receiver < 3)
exclusive_slots_example = exclusive_slots 7 8 9 raced-Reach

takes_last_example : received (exchange raced.swap_state) ≡ some 6
takes_last_example = takes_last 7 8 9 raced-Reach refl
