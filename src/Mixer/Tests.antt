-- ===== src/Mixer/Tests.antt =====
-- The mixing of a counting signal through a small buffer.
use oddio.Base.{
  ℕ, ◌+◌, ◌≡◌, ◌≤◌, refl, ap, ap₂, some, List, true, false, [], ◌∷◌, arith, length, length-append,
}
use oddio.Float.Natural.{natural}
use oddio.Frame.{sample_frame}
use oddio.Signal.Counting.{counting, counting-KeepsLength, count_from-overwrites, count_from-append}
use mathlib.Core.List.{Perm}
use oddio.Spsc
use oddio.Spsc.Send.{channel-Holds, size-channel}
use oddio.Set
use oddio.Set.{Free, signal}
use oddio.Set.Inner
use oddio.Set.Inner.Remove.{FreeQueue}
use oddio.Mixer
use oddio.Mixer.{MixedSignal, Mixer, mix_into, mix_chunks}
use oddio.Mixer.Live.{keep_if, is_live, played, mixed}
use oddio.Mixer.Sample.{mixer_sample_lem}
use oddio.Mixer.Safe
use oddio.Mixer.Stops.{Without, mixer_stops}
use oddio.Mixer.Heard.{Sampled, mixer_outputs}
use oddio.Mixer.Safe.{Call, calls, mixer_total}
use oddio.Mixer.Chunks.{IsStreaming, mix_chunks_lem}

counting-IsStreaming : IsStreaming counting
counting-IsStreaming = record {
  keeps = counting-KeepsLength;
  idle = λ n interval. ap (λ k. ([], k)) (omega arith);
  overwrites = λ n interval xs ys e. ap₂ (λ a k. (a, n + k)) (count_from-overwrites n xs ys e) e;
  splits = λ n interval xs ys.
      ap₂ (λ a k. (a, k)) (count_from-append n xs ys) (omega (arith, length-append xs ys));
}

mix_chunks_lem_example :
    let (mixed, last, s') =
      mix_chunks sample_frame counting 3 5 1 (0 ∷ 0 ∷ []) (10 ∷ 20 ∷ 30 ∷ []) in
    (mixed ≡ mix_into sample_frame (5 ∷ 6 ∷ 7 ∷ []) (10 ∷ 20 ∷ 30 ∷ []))
    × (length last ≡ 2)
    × (s' ≡ 8)
mix_chunks_lem_example =
    mix_chunks_lem sample_frame counting counting-IsStreaming 5 1 (0 ∷ 0 ∷ []) (10 ∷ 20 ∷ 30 ∷ [])
      (omega arith)

-- Three signals, of which one has been stopped.
abbrev playing : Mixer ℕ ℕ
playing = record {
  signals = record (Set.new {T = MixedSignal ℕ}) {
    signals = record {
      items =
          record { stop = 0; inner = 5 }
          ∷ record { stop = 1; inner = 7 }
          ∷ record { stop = 2; inner = 9 }
          ∷ [];
      capacity = 128;
    };
  };
  stops = false ∷ true ∷ false ∷ [];
  buffer = 0 ∷ 0 ∷ [];
}

playing-FreeQueue : FreeQueue playing.signals 129 []
unfolding Set.new
playing-FreeQueue = record {
  chan = Spsc.channel 128;
  at = refl;
  holds = channel-Holds 128 (omega arith);
  slots = size-channel (Free (MixedSignal ℕ)) 128 (omega arith);
}

playing-updated : Inner.update 2 playing.signals ≡ some playing.signals
unfolding Set.new Inner.update Inner.drain_msgs Inner.drain_loop Spsc.update Spsc.pop
    Spsc.readable_len Spsc.channel
playing-updated = refl

mixer_sample_lem_example :
    (m' : Mixer ℕ ℕ) × (Mixer.sample sample_frame counting 2 playing 1 (3 ∷ 3 ∷ [])
      ≡ some (
        mixed sample_frame counting 1
            (0 ∷ 0 ∷ [])
            (record { stop = 2; inner = 9 } ∷ record { stop = 0; inner = 5 } ∷ [])
            (0 ∷ 0 ∷ []),
        m',
      ))
    × Perm m'.signals.signals.items
        (record { stop = 2; inner = 11 } ∷ record { stop = 0; inner = 7 } ∷ [])
    × FreeQueue m'.signals 129 (signal (record { stop = 1; inner = 7 }) ∷ [])
unfolding keep_if is_live played
mixer_sample_lem_example =
    mixer_sample_lem sample_frame counting counting-IsStreaming 2 playing playing.signals 129 [] 1
      (3 ∷ 3 ∷ []) playing-updated (omega arith)
      (
        omega arith,
        (λ e. omega (arith, e), (λ e. omega (arith, e), tt)),
        (omega arith, (λ e. omega (arith, e), tt), (omega arith, tt, tt)),
      )
      playing-FreeQueue (omega arith)

abbrev mixer_calls : List (Call ℕ ℕ ℕ)
mixer_calls =
    Safe.play 5
    ∷ Safe.play 7
    ∷ Safe.sample 1 (0 ∷ 0 ∷ [])
    ∷ Safe.stop 0
    ∷ Safe.sample 1 (0 ∷ [])
    ∷ []

mixer_total_example :
    (m : Mixer ℕ ℕ) × (calls sample_frame counting 100 (Mixer.new 0) mixer_calls ≡ some m)
    × (length m.stops ≡ 2)
    × (length m.signals.signals.items ≤ 2)
mixer_total_example =
    mixer_total sample_frame counting 100 0 mixer_calls (omega arith) (omega arith)

mixer_outputs_example :
    (m : Mixer ℕ ℕ) × (w : Set.World (MixedSignal ℕ)) × (m' : Mixer ℕ ℕ) × (calls sample_frame
        counting 100
        (Mixer.new 0)
        mixer_calls
      ≡ some m)
    × (Inner.update 100 m.signals ≡ some w)
    × Sampled sample_frame counting counting-IsStreaming 100 m 1 (0 ∷ 0 ∷ []) w m'
mixer_outputs_example =
    mixer_outputs sample_frame counting counting-IsStreaming 100 0 mixer_calls 1 (0 ∷ 0 ∷ [])
      (omega arith) (omega arith)

mixer_stops_example :
    (m : Mixer ℕ ℕ) × (frames : List ℕ) × (m' : Mixer ℕ ℕ) × (calls sample_frame counting 100
        (Mixer.new 0)
        mixer_calls
      ≡ some m)
    × (Mixer.sample sample_frame counting 100 (Mixer.stop m 1) 1 (0 ∷ 0 ∷ []) ≡ some (frames, m'))
    × Without 1 m'.signals.signals.items
mixer_stops_example =
    mixer_stops sample_frame counting counting-IsStreaming 100 0 mixer_calls 1 1 (0 ∷ 0 ∷ [])
      (omega arith) (omega arith)
