-- ===== src/Set/Sound.antt =====
-- The state of a handle and its set in src/set.rs between two calls.
use oddio.Base.{ℕ, ◌+◌, ◌*◌, ◌<◌, ◌≤◌, refl, List, [], arith, length}
use oddio.Spsc
use oddio.Spsc.{Channel, size, readable_len}
use oddio.Spsc.Send.{channel-Holds}
use oddio.Set.{World, Msg, Free, new}
use oddio.Set.Chain.{last}
use oddio.Set.Stock.{reallocs, settled}
use oddio.Set.Walk.{Walk, arrived}
use oddio.Set.Route.{Routed, Routed-more}
use oddio.Set.Held.{Held}

module _ {ℓ} {T : Type ℓ} where
  -- The messages `ms` are under way, at most `most` of them, and the handle counts at most `t` signals.
  pub record Sound (w : World T) (most t : ℕ) (ms : List (Msg T)) : Type ℓ where
    pub path : List ℕ
    pub left : ℕ
    pub routed : Routed w.msgs w.recv w.sender w.old_senders most path ms
    pub walk : Walk w.frees w.free w.next_free w.free_sender (reallocs ms) left
    pub held : Held w.frees w.free_sender w.signals w.signal_capacity w.active_signals ms left
    pub links : length path ≤ most
    pub waiting : length ms ≤ most
    pub few : w.active_signals ≤ t
    pub bounded : w.signal_capacity ≤ 128 + t * 2
    pub nonzero : 0 < w.signal_capacity

  pub Sound-more :
      {w : World T} {most t : ℕ} {ms : List (Msg T)} (more u : ℕ)
      → most ≤ more
      → t ≤ u
      → Sound w most t ms
      → Sound w more u ms
  Sound-more more u p q s = record {
    path = s.path;
    left = s.left;
    routed = Routed-more more p s.routed;
    walk = s.walk;
    held = s.held;
    links = omega (arith, s.links);
    waiting = omega (arith, s.waiting);
    few = omega (arith, s.few);
    bounded = omega (arith, s.bounded);
    nonzero = s.nonzero;
  }

  pub new-Sound : Sound new 0 0 []
  unfolding new Spsc.channel readable_len
  new-Sound =
      let msgs = channel-Holds {A = Msg T} 127 (omega arith) in
      let frees = channel-Holds {A = Free T} 128 (omega arith) in
      record {
        path = [];
        left = 0;
        routed = record {
          chain = last 0 (Spsc.channel 127) [] refl msgs;
          newest = refl;
          tail = Spsc.channel 127;
          tail_at = refl;
          spare = omega arith;
          few = omega arith;
          olds = tt;
        };
        walk = arrived 0 [];
        held = record {
          queue = Spsc.channel 128;
          freed = [];
          at = refl;
          holds = frees;
          is_open = refl;
          extra = 0;
          slots = refl;
          few = omega arith;
          fits = settled 0 0 128;
          within = omega arith;
          counted = refl;
        };
        links = omega arith;
        waiting = omega arith;
        few = omega arith;
        bounded = omega arith;
        nonzero = omega arith;
      }
