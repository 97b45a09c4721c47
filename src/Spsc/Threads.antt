-- ===== src/Spsc/Threads.antt =====
-- The two ends of a channel on two threads. `send` and `pop` are cut at their accesses to memory:
-- the loads of the two indices, the access to the slot and the store of an index. Accesses are
-- sequentially consistent.
pub mod Invariant
mod Steps
pub mod Fifo
use oddio.Base.{
  ℕ, suc, ◌+◌, ◌-◌, ◌%◌, ◌≤◌, ◌<◌, ◌≡◌, refl, ap, ap₂, sym, subst, ◌∙◌, ◌≢◌, Bool, true, false,
  Option, none, some, List, [], ◌∷◌, ◌++◌, append-nil, append_assoc, arith, length, length-set,
  length-append, length-drop, get_or, get_or-set_self, get_elem?, set, drop, map, leb, ltb, ◌==◌,
  add_usize, sub_usize, mod_once, max_len,
}
use mathlib.Core.List.{map-append}
use oddio.Spsc.{Channel, size, channel, lacks_room, update}
use oddio.Spsc.Window.{Window, Holds, Window-set, Window-prefix, Window-snoc, Window-get}
use oddio.Spsc.Send.{channel-Holds, size-channel, lacks_room_num}
use oddio.Spsc.Receive.{update_lem, passed-Holds}

-- Where the sender is inside `send`: past its loads, which saw a read index, or past the write of the
-- slot.
pub data Phase {ℓ} (A : Type ℓ) : Type ℓ where
  idle : Phase A
  loaded : ℕ → A → Phase A
  filled : A → Phase A

-- `taken` is what the receiver has read from the slot inside `pop`. The logs are the items published
-- and the items that `pop` has returned.
pub record System {ℓ} (A : Type ℓ) : Type ℓ where
  pub chan : Channel A
  pub phase : Phase A
  pub taken : Option (Option A)
  pub sent_log : List A
  pub got_log : List (Option A)

module _ {ℓ} {A : Type ℓ} where
  abbrev pub start : ℕ → System A
  start n = record { chan = channel n; phase = idle; taken = none; sent_log = []; got_log = [] }

module _ {ℓ} {A : Type ℓ} (reserve : ℕ) where
  pub data Step (s : System A) : System A → Type ℓ where
    load : (x : A) → s.phase ≡ idle → Step s (record s { phase = loaded s.chan.read x })
    refuse :
        (r : ℕ) (x : A)
        → s.phase ≡ loaded r x
        → lacks_room (record s.chan { read = r }) reserve ≡ true
        → Step s (record s { phase = idle })
    fill :
        (r : ℕ) (x : A)
        → s.phase ≡ loaded r x
        → lacks_room (record s.chan { read = r }) reserve ≡ false
        → Step s (record s {
          chan = record s.chan { slots = set s.chan.slots s.chan.write (some x) };
          phase = filled x;
        })
    publish :
        (x : A)
        → s.phase ≡ filled x
        → Step s (record s {
          chan = record s.chan { write = add_usize s.chan.write 1 % size s.chan };
          phase = idle;
          sent_log = s.sent_log ++ x ∷ [];
        })
    renew : Step s (record s { chan = update s.chan })
    take :
        s.taken ≡ none
        → (s.chan.len == 0) ≡ false
        → Step s (record s { taken = some (get_or s.chan.slots s.chan.read none) })
    pass :
        (v : Option A)
        → s.taken ≡ some v
        → Step s (record s {
          chan = record s.chan {
            read = add_usize s.chan.read 1 % size s.chan;
            len = sub_usize s.chan.len 1;
          };
          taken = none;
          got_log = s.got_log ++ v ∷ [];
        })

  pub data Reach (s : System A) : System A → Type ℓ where
    here : Reach s s
    next : {t u : System A} → Reach s t → Step t u → Reach s u
