-- ===== src/Set/Chain.antt =====
-- The message channels between the handle and the set of src/set.rs as one queue. Every channel but the
-- newest ends with the announcement of the next one.
use oddio.Base.{
  ℕ, ◌<◌, ◌≤◌, ◌≡◌, ◌≢◌, ap, sym, subst, ◌∙◌, some, some-injective, List, [], ◌∷◌, ◌++◌,
  append_assoc, arith, length, length-set, length-append, get_elem?, set, get_elem?-set_self,
  get_elem?-set_ne, get_elem?-set_past, get_elem?-append_left, get_elem?-append_length,
  lt-of-get_elem?,
}
use oddio.Spsc.{Channel}
use oddio.Spsc.Window.{Holds}
use oddio.Set.{Msg, realloc_channel}

abbrev pub last_of : ℕ → List ℕ → ℕ
last_of i [] = i
last_of i (j ∷ rest) = last_of j rest

module _ {ℓ} {T : Type ℓ} where
  -- From channel `i` on, by way of the channels of the path, these messages are under way, oldest first.
  pub data Chain (msgs : List (Channel (Msg T))) : ℕ → List ℕ → List (Msg T) → Type ℓ where
    last :
        (i : ℕ) (c : Channel (Msg T)) (ms : List (Msg T))
        → get_elem? msgs i ≡ some c
        → Holds c ms
        → Chain msgs i [] ms
    link :
        (i j : ℕ) (rest : List ℕ) (c : Channel (Msg T)) (own later : List (Msg T))
        → get_elem? msgs i ≡ some c
        → i < j
        → Holds c (own ++ realloc_channel j ∷ [])
        → Chain msgs j rest later
        → Chain msgs i (j ∷ rest) (own ++ later)

  -- From index `i` on, the channels hold what they held.
  abbrev pub Keeps : List (Channel (Msg T)) → List (Channel (Msg T)) → ℕ → Type ℓ
  Keeps msgs msgs' i =
      (k : ℕ) (c : Channel (Msg T))
      → i ≤ k
      → get_elem? msgs k ≡ some c
      → (c' : Channel (Msg T)) × (get_elem? msgs' k ≡ some c')
        × ((xs : List (Msg T)) → Holds c xs → Holds c' xs)

  pub Chain-Keeps :
      {msgs msgs' : List (Channel (Msg T))} {i : ℕ} {rest : List ℕ} {ms : List (Msg T)}
      → Keeps msgs msgs' i
      → Chain msgs i rest ms
      → Chain msgs' i rest ms
  Chain-Keeps keeps (last i c ms at h) =
      let (c', at', same) = keeps i c (omega arith) at in last i c' ms at' (same ms h)
  Chain-Keeps keeps (link i j rest c own later at lt h more) =
      let (c', at', same) = keeps i c (omega arith) at in
      link i j rest c' own later at' lt (same _ h)
        (Chain-Keeps (λ k d p. keeps k d (omega arith)) more)

  pub Chain-le :
      {msgs : List (Channel (Msg T))} {i : ℕ} {rest : List ℕ} {ms : List (Msg T)}
      → Chain msgs i rest ms
      → i ≤ last_of i rest
  Chain-le (last i c ms at h) = omega arith
  Chain-le (link i j rest c own later at lt h more) = omega (arith, Chain-le more)

  -- What the newest channel holds is part of the messages.
  pub Chain-newest :
      {msgs : List (Channel (Msg T))} {i : ℕ} {rest : List ℕ} {ms : List (Msg T)}
      → Chain msgs i rest ms
      → (c : Channel (Msg T)) × (own : List (Msg T)) × (get_elem? msgs (last_of i rest) ≡ some c)
        × Holds c own
        × (length own ≤ length ms)
  Chain-newest (last i c ms at h) = (c, ms, at, h, omega arith)
  Chain-newest (link i j rest c own later at lt h more) =
      let (d, tail, there, held, few) = Chain-newest more in
      (d, tail, there, held, omega (arith, length-append own later))

  pub set-Keeps :
      (msgs : List (Channel (Msg T))) (s i : ℕ) (c' : Channel (Msg T))
      → s < i
      → Keeps msgs (set msgs s c') i
  set-Keeps msgs s i c' lt k c p at =
      (c, get_elem?-set_past msgs s k c' (omega arith) ∙ at, λ xs h. h)

  -- A message appended to the newest channel.
  pub Chain-send :
      {msgs : List (Channel (Msg T))} {i : ℕ} {rest : List ℕ} {ms : List (Msg T)} (s : ℕ)
      (c c' : Channel (Msg T)) (msg : Msg T)
      → Chain msgs i rest ms
      → last_of i rest ≡ s
      → get_elem? msgs s ≡ some c
      → ((own : List (Msg T)) → Holds c own → Holds c' (own ++ msg ∷ []))
      → Chain (set msgs s c') i rest (ms ++ msg ∷ [])
  Chain-send {msgs} s c c' msg (last i d ms at h) e there more =
      let same = some-injective _ _ (sym at ∙ ap (get_elem? msgs) e ∙ there) in
      let here =
        ap (get_elem? (set msgs s c')) e
        ∙ get_elem?-set_self msgs s c' (lt-of-get_elem? msgs s c there) in
      last i c' (ms ++ msg ∷ []) here (more ms (subst (λ z. Holds z ms) same h))
  Chain-send {msgs} s c c' msg (link i j rest d own later at lt h tail) e there more =
      let past = Chain-le tail in
      let ne : s ≢ i = λ q. omega (arith, q, e, past, lt) in
      subst (Chain (set msgs s c') i (j ∷ rest)) (sym (append_assoc own later (msg ∷ []))) (
        link i j rest d own (later ++ msg ∷ []) (get_elem?-set_ne msgs c' ne ∙ at) lt h
          (Chain-send s c c' msg tail e there more))

  -- The newest channel announces a newer one, which begins with the message.
  pub Chain-grow :
      {msgs : List (Channel (Msg T))} {i : ℕ} {rest : List ℕ} {ms : List (Msg T)} (s : ℕ)
      (c c' d : Channel (Msg T)) (msg : Msg T)
      → Chain msgs i rest ms
      → last_of i rest ≡ s
      → get_elem? msgs s ≡ some c
      → ((own : List (Msg T)) → Holds c own → Holds c' (own ++ realloc_channel (length msgs) ∷ []))
      → Holds d (msg ∷ [])
      → Chain (set msgs s c' ++ d ∷ []) i (rest ++ length msgs ∷ []) (ms ++ msg ∷ [])
  Chain-grow {msgs} s c c' d msg (last i b ms at h) e there more fresh =
      let same = some-injective _ _ (sym at ∙ ap (get_elem? msgs) e ∙ there) in
      let inside = lt-of-get_elem? msgs s c there in
      let kept = length-set msgs s c' in
      let here =
        get_elem?-append_left (set msgs s c') (d ∷ []) s (omega (arith, kept, inside))
        ∙ get_elem?-set_self msgs s c' inside in
      let new =
        subst (λ k. get_elem? (set msgs s c' ++ d ∷ []) k ≡ some d) kept
          (get_elem?-append_length (set msgs s c') (d ∷ [])) in
      link i (length msgs) [] c' ms (msg ∷ []) (ap (get_elem? (set msgs s c' ++ d ∷ [])) e ∙ here)
        (omega (arith, e, inside)) (more ms (subst (λ z. Holds z ms) same h))
        (last (length msgs) d (msg ∷ []) new fresh)
  Chain-grow {msgs} s c c' d msg (link i j rest b own later at lt h tail) e there more fresh =
      let past = Chain-le tail in
      let ne : s ≢ i = λ q. omega (arith, q, e, past, lt) in
      let inside = lt-of-get_elem? msgs i b at in
      let here =
        get_elem?-append_left (set msgs s c') (d ∷ []) i
          (omega (arith, length-set msgs s c', inside))
        ∙ get_elem?-set_ne msgs c' ne
        ∙ at in
      subst (Chain (set msgs s c' ++ d ∷ []) i (j ∷ (rest ++ length msgs ∷ [])))
        (sym (append_assoc own later (msg ∷ [])))
        (link i j (rest ++ length msgs ∷ []) b own (later ++ msg ∷ []) here lt h
          (Chain-grow s c c' d msg tail e there more fresh))
