-- ===== src/Spsc/Threads/Fifo.antt =====
-- What a client may rely on when the two ends of a channel run on two threads.
use oddio.Base.{
  ℕ, ◌+◌, ◌%◌, ◌≤◌, ◌<◌, ◌≡◌, refl, subst, ◌≢◌, false, some, List, [], ◌++◌, arith, length, map,
  mod_once, max_len,
}
use oddio.Spsc.{size, lacks_room}
use oddio.Spsc.Window.{Holds}
use oddio.Spsc.Send.{channel-Holds, size-channel}
use oddio.Spsc.Threads.{loaded, System, Reach, start}
use oddio.Spsc.Threads.Invariant.{SenderOk, IsSafe, fill_room}
use oddio.Spsc.Threads.Steps.{Reach-IsSafe}

module _ {ℓ} {A : Type ℓ} (reserve : ℕ) where
  start-IsSafe : (n : ℕ) → n < max_len → reserve ≤ n → IsSafe {A = A} reserve (start n)
  start-IsSafe n small r =
      let held = channel-Holds n small in
      record {
        items = [];
        holds = held;
        history = refl;
        reserved = omega (arith, size-channel A n small);
        sender_ok = tt;
        taken_ok = tt;
      }

  -- However the two threads interleave, what `pop` has returned, followed by what the channel still
  -- holds, is what `send` has published, in order, and at least the reserve stays free; for a reserve
  -- that fits the capacity.
  pub threads_fifo :
      (n : ℕ)
      → n < max_len
      → reserve ≤ n
      → {s : System A} → Reach reserve (start n) s
      → (items : List A) × Holds s.chan items
        × (map some s.sent_log ≡ s.got_log ++ map some items)
        × (length items + reserve < size s.chan)
  threads_fifo n small r {s} reach =
      let h = Reach-IsSafe reserve (start-IsSafe n small r) reach in
      (h.items, h.holds, h.history, h.reserved)

  -- However the two threads interleave, for a reserve that fits the capacity, the slot that the sender
  -- is about to write, once its test has passed, is none of those that the receiver may read.
  pub threads_apart :
      (n : ℕ)
      → n < max_len
      → reserve ≤ n
      → {s : System A} → Reach reserve (start n) s
      → (r : ℕ) (x : A) → s.phase ≡ loaded r x
      → lacks_room (record s.chan { read = r }) reserve ≡ false
      → (i : ℕ) → i < s.chan.len
      → (s.chan.read + i) % size s.chan ≢ s.chan.write
  threads_apart n small fits {s} reach r x e test i p =
      let h = Reach-IsSafe reserve (start-IsSafe n small fits) reach in
      let c = s.chan in
      let (k, inside, at, free, u) = subst (SenderOk reserve c h.items) e h.sender_ok in
      let room = fill_room reserve c h.items r k h.holds inside at free test in
      omega (
        arith,
        h.holds.write_at,
        h.holds.room,
        h.holds.read_in,
        h.holds.seen,
        mod_once (c.read + length h.items) (size c),
        mod_once (c.read + i) (size c),
      )
