-- ===== src/Stream/Tests.antt =====
-- Playing a stream that holds three frames.
use oddio.Base.{ℕ, ◌+◌, ◌≤◌, ◌≡◌, refl, true, false, none, some, List, [], ◌∷◌, arith, length}
use oddio.Float.Natural.{natural}
use oddio.Frame.{sample_frame}
use oddio.Spsc.Window.{Holds}
use oddio.Stream.{Stream, sample}
use oddio.Stream.Play.{Whole, stream_sample_lem}

abbrev playing : Stream ℕ ℕ
playing = record {
  rate = 1;
  inner = record {
    read = 2;
    write = 1;
    slots = some 30 ∷ none ∷ some 10 ∷ some 20 ∷ [];
    len = 1;
    sender = true;
    receiver = true;
  };
  t = 0;
  stopping = false;
}

abbrev received : List ℕ
received = 10 ∷ 20 ∷ 30 ∷ []

playing-Holds : Holds playing.inner received
playing-Holds = record {
  small = omega arith;
  read_in = omega arith;
  room = omega arith;
  write_at = refl;
  seen = omega arith;
  held = (refl, (refl, (refl, tt)));
}

natural-Whole : Whole natural
natural-Whole = record { fits = λ x. ground arith; cut = λ x n p. omega arith }

-- The playback reaches the time 2 of the three frames.
stream_sample_lem_example :
    (frames : List ℕ) × (s' : Stream ℕ ℕ) × (sample sample_frame playing 1 (0 ∷ 0 ∷ [])
      ≡ some (frames, s'))
    × (length frames ≡ 2)
    × (2 ≤ 3)
    × Holds s'.inner (30 ∷ [])
    × (s'.inner.len + 2 ≡ 3)
    × (s'.t ≡ 0)
stream_sample_lem_example =
    stream_sample_lem sample_frame natural-Whole playing received 1 (0 ∷ 0 ∷ []) playing-Holds
      (omega arith) (λ i p. omega arith)
