-- ===== src/Set.antt =====
-- src/set.rs: a set of signals, controlled from another thread by a handle.
-- Messages carry ends of channels, so the channels stand in two stores, `msgs` and `frees`, and an
-- end is the index of its channel; a channel's flags tell which of its ends have been dropped.
-- The handle and the set are one record, the fields of `SetHandle` above those of `SetInner`.
pub mod Handle
pub mod Inner
pub mod Sweep
pub mod Chain
pub mod Stock
pub mod Walk
pub mod Route
pub mod Held
pub mod Sound
pub mod Bag
pub mod Run
mod Tests
use oddio.Base.{ℕ, ◌+◌, ◌*◌, ◌%◌, Option, List, [], ◌∷◌, usize_mod}
use oddio.Spsc.{Channel, channel}

-- `SignalTable`, a `Vec` whose capacity the code reads
pub record Table {ℓ} (T : Type ℓ) : Type ℓ where
  pub items : List T
  pub capacity : ℕ

pub data Msg {ℓ} (T : Type ℓ) : Type ℓ where
  realloc_channel : ℕ → Msg T
  realloc_signals : Table T → ℕ → Msg T
  insert : T → Msg T

pub data Free {ℓ} (T : Type ℓ) : Type ℓ where
  table : Table T → Free T
  signal : T → Free T

pub record World {ℓ} (T : Type ℓ) : Type ℓ where
  pub msgs : List (Channel (Msg T))
  pub frees : List (Channel (Free T))
  pub sender : ℕ
  pub free : ℕ
  pub next_free : List ℕ
  pub old_senders : List ℕ
  pub signal_capacity : ℕ
  pub active_signals : ℕ
  pub recv : ℕ
  pub free_sender : ℕ
  pub signals : Table T

abbrev pub initial_channel_capacity : ℕ
initial_channel_capacity = 127

abbrev pub initial_signals_capacity : ℕ
initial_signals_capacity = 128

module _ {ℓ} {T : Type ℓ} where
  abbrev pub with_capacity : ℕ → Table T
  with_capacity n = record { items = []; capacity = n }

  -- `set()`
  unfoldable pub new : World T
  new = record {
    msgs = channel initial_channel_capacity ∷ [];
    frees = channel initial_signals_capacity ∷ [];
    sender = 0;
    free = 0;
    next_free = [];
    old_senders = [];
    signal_capacity = initial_signals_capacity;
    active_signals = 0;
    recv = 0;
    free_sender = 0;
    signals = with_capacity initial_signals_capacity;
  }
