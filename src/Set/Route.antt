-- ===== src/Set/Route.antt =====
-- The message channels of src/set.rs with the end that the handle sends on: a slot of that channel is
-- always free, for the announcement of a larger one.
use oddio.Base.{
  ℕ, ◌+◌, ◌*◌, ◌<◌, ◌≤◌, ◌≡◌, ◌≢◌, refl, ap, sym, subst, ◌∙◌, ◌⊎◌, inl, inr, Bool-cases, ◌==◌, some,
  some-injective, List, [], ◌∷◌, ◌++◌, arith, length, length-set, get_elem?, set,
  get_elem?-set_self, get_elem?-set_ne, lt-of-get_elem?,
}
use oddio.Spsc.{Channel, size, readable_len}
use oddio.Spsc.Window.{Holds}
use oddio.Spsc.Send.{readable_len-Holds}
use oddio.Set.{Msg, realloc_channel}
use oddio.Set.Chain.{last_of, Chain, last, link, Chain-newest, Keeps, Chain-Keeps, set-Keeps}

-- Every index of the list is below the bound.
abbrev pub Below : ℕ → List ℕ → Type 0
Below n [] = Unit
Below n (i ∷ is) = (i < n) × Below n is

pub Below-le : (n m : ℕ) (is : List ℕ) → n ≤ m → Below n is → Below m is
Below-le n m [] p h = tt
Below-le n m (i ∷ is) p (q, h) = (omega arith, Below-le n m is p h)

pub Below-snoc : (n i : ℕ) (is : List ℕ) → i < n → Below n is → Below n (is ++ i ∷ [])
Below-snoc n i [] p h = (p, tt)
Below-snoc n i (j ∷ is) p (q, h) = (q, Below-snoc n i is p h)

module _ {ℓ} {T : Type ℓ} where
  -- The messages `ms` are under way from the channel `recv` to the channel `sender`, which has a slot
  -- to spare and no more slots than twice a number of messages calls for.
  pub record Routed (msgs : List (Channel (Msg T))) (recv sender : ℕ) (old : List ℕ) (bound : ℕ)
      (path : List ℕ) (ms : List (Msg T)) : Type ℓ where
    pub chain : Chain msgs recv path ms
    pub newest : last_of recv path ≡ sender
    pub tail : Channel (Msg T)
    pub tail_at : get_elem? msgs sender ≡ some tail
    pub spare : readable_len tail + 1 < size tail
    pub few : size tail ≤ 128 + bound * 2
    pub olds : Below (length msgs) old

  pub Routed-more :
      {msgs : List (Channel (Msg T))} {recv sender most : ℕ} {old path : List ℕ} {ms : List (Msg T)}
      (more : ℕ)
      → most ≤ more
      → Routed msgs recv sender old most path ms
      → Routed msgs recv sender old more path ms
  Routed-more more p r = record {
    chain = r.chain;
    newest = r.newest;
    tail = r.tail;
    tail_at = r.tail_at;
    spare = r.spare;
    few = omega (arith, r.few);
    olds = r.olds;
  }

  -- What the handle's channel holds is part of the messages.
  pub tail-Holds :
      {msgs : List (Channel (Msg T))} {recv sender bound : ℕ} {old path : List ℕ}
      {ms : List (Msg T)} (r : Routed msgs recv sender old bound path ms)
      → (own : List (Msg T)) × Holds r.tail own
        × (length own ≤ length ms)
        × (length own + 1 < size r.tail)
  tail-Holds {msgs} r =
      let (c, own, at, held, few) = Chain-newest r.chain in
      let same = some-injective _ _ (sym at ∙ ap (get_elem? msgs) r.newest ∙ r.tail_at) in
      let held' = subst (λ z. Holds z own) same held in
      (own, held', few, omega (arith, r.spare, readable_len-Holds r.tail own held'))

  -- A channel changes, and does not hold more than before.
  pub Routed-set :
      {msgs : List (Channel (Msg T))} {recv sender bound : ℕ} {old path : List ℕ}
      {ms : List (Msg T)} (i recv' : ℕ) (path' : List ℕ) (ms' : List (Msg T))
      (c c' : Channel (Msg T))
      → get_elem? msgs i ≡ some c
      → size c' ≡ size c
      → readable_len c' ≤ readable_len c
      → last_of recv' path' ≡ last_of recv path
      → Chain (set msgs i c') recv' path' ms'
      → Routed msgs recv sender old bound path ms
      → Routed (set msgs i c') recv' sender old bound path' ms'
  Routed-set {msgs} {sender = sender} i recv' path' ms' c c' at slots less e chain r =
      let inside = lt-of-get_elem? msgs i c at in
      let newest = e ∙ r.newest in
      let olds =
        Below-le (length msgs) (length (set msgs i c')) _ (omega (arith, length-set msgs i c'))
          r.olds in
      elim (Bool-cases (i == sender)) [
        | inl q ↦
            let same : i ≡ sender = ground arith in
            let held = some-injective _ _ (sym at ∙ ap (get_elem? msgs) same ∙ r.tail_at) in
            let slots' : size c' ≡ size r.tail = slots ∙ ap size held in
            let less' : readable_len c' ≤ readable_len r.tail =
              subst (λ z. readable_len c' ≤ readable_len z) held less in
            record {
              chain = chain;
              newest = newest;
              tail = c';
              tail_at =
                  ap (get_elem? (set msgs i c')) (sym same) ∙ get_elem?-set_self msgs i c' inside;
              spare = omega (arith, r.spare);
              few = omega (arith, r.few);
              olds = olds;
            }
        | inr q ↦
            let ne : i ≢ sender = λ z. ground (arith, z) in
            record {
              chain = chain;
              newest = newest;
              tail = r.tail;
              tail_at = get_elem?-set_ne msgs c' ne ∙ r.tail_at;
              spare = r.spare;
              few = r.few;
              olds = olds;
            }
      ]

  -- The receiver's channel, and what the receiver finds there next: nothing, a message, or the
  -- announcement of the next channel.
  abbrev pub Next : List (Channel (Msg T)) → ℕ → List ℕ → List (Msg T) → Channel (Msg T) → Type ℓ
  Next msgs i path ms c =
      ((path ≡ []) × (ms ≡ []) × Holds c [])
      ⊎ (((m : Msg T) × (own : List (Msg T)) × (rest : List (Msg T)) × (ms ≡ m ∷ rest)
            × Holds c (m ∷ own)
            × ((c' : Channel (Msg T)) → Holds c' own → Chain (set msgs i c') i path rest))
          ⊎ ((j : ℕ) × (path' : List ℕ) × (path ≡ j ∷ path')
              × Holds c (realloc_channel j ∷ [])
              × (i < j)
              × Chain msgs j path' ms))

  -- A channel changes and holds the same.
  pub same-Keeps :
      (msgs : List (Channel (Msg T))) (i : ℕ) (c c' : Channel (Msg T))
      → get_elem? msgs i ≡ some c
      → ((xs : List (Msg T)) → Holds c xs → Holds c' xs)
      → Keeps msgs (set msgs i c') i
  same-Keeps msgs i c c' at same k d p there = elim (Bool-cases (i == k)) [
    | inl e ↦
        let here : i ≡ k = ground arith in
        let it : c ≡ d = some-injective _ _ (sym at ∙ ap (get_elem? msgs) here ∙ there) in
        (
          c',
          subst (λ j. get_elem? (set msgs i c') j ≡ some c') here
              (get_elem?-set_self msgs i c' (lt-of-get_elem? msgs i c at)),
          λ xs h. same xs (subst (λ z. Holds z xs) (sym it) h),
        )
    | inr e ↦
        let ne : i ≢ k = λ z. ground (arith, z) in
        (d, get_elem?-set_ne msgs c' ne ∙ there, λ xs h. h)
  ]

  pub Chain-Next :
      {msgs : List (Channel (Msg T))} {i : ℕ} {path : List ℕ} {ms : List (Msg T)}
      → Chain msgs i path ms
      → (c : Channel (Msg T)) × (get_elem? msgs i ≡ some c) × Next msgs i path ms c
  Chain-Next (last i c [] at h) = (c, at, inl (refl, refl, h))
  Chain-Next {msgs} (last i c (m ∷ ms) at h) = (
    c,
    at,
    inr (
        inl (
          m,
          ms,
          ms,
          refl,
          h,
          λ c' h'. last i c' ms (get_elem?-set_self msgs i c' (lt-of-get_elem? msgs i c at)) h',
        )),
  )
  Chain-Next (link i j rest c [] later at lt h more) =
      (c, at, inr (inr (j, rest, refl, h, lt, more)))
  Chain-Next {msgs} (link i j rest c (m ∷ own) later at lt h more) = (
    c,
    at,
    inr (
        inl (
          m,
          own ++ realloc_channel j ∷ [],
          own ++ later,
          refl,
          h,
          λ c' h'.
              link i j rest c' own later
                (get_elem?-set_self msgs i c' (lt-of-get_elem? msgs i c at)) lt h'
                (Chain-Keeps (set-Keeps msgs i j c' lt) more),
        )),
  )
