-- ===== src/Set/Inner/Switch.antt =====
-- `ReallocChannel` of src/set.rs: the set takes the announcement at the end of its channel and goes over
-- to the next one.
use oddio.Base.{
  ℕ, ◌<◌, ◌≤◌, ◌≡◌, refl, ap, sym, subst, ◌∙◌, false, ◌==◌, some, some-injective, List, [], ◌∷◌,
  arith, length, get_elem?, set, get_elem?-set_self, lt-of-get_elem?, ◌>>=◌,
}
use oddio.Spsc
use oddio.Spsc.{Channel, size, readable_len}
use oddio.Spsc.Window.{Holds}
use oddio.Spsc.Send.{readable_len-Holds}
use oddio.Spsc.Receive.{update_lem, pop_lem}
use oddio.Set.{World, Msg, realloc_channel}
use oddio.Set.Chain.{Chain, Chain-Keeps, set-Keeps}
use oddio.Set.Route.{Routed, Routed-set, Chain-Next, same-Keeps}
use oddio.Set.Handle.Empty.{pop-filled}
use oddio.Set.Inner.{switch_channel}

module _ {ℓ} {A : Type ℓ} where
  -- `pop` on a channel whose content the receiver has seen
  pub pop-seen :
      (c : Channel A) (x : A) (xs : List A)
      → Holds c (x ∷ xs)
      → c.len ≡ readable_len c
      → ((Spsc.pop c).0 ≡ some (some x))
        × Holds (Spsc.pop c).1 xs
        × (size (Spsc.pop c).1 ≡ size c)
        × ((Spsc.pop c).1.len ≡ readable_len (Spsc.pop c).1)
        × (readable_len (Spsc.pop c).1 ≤ readable_len c)
  pop-seen c x xs h all =
      let count = readable_len-Holds c (x ∷ xs) h in
      let (got, held, less) = (pop_lem c (x ∷ xs) h).1 (omega (arith, all, count)) in
      let filled : (c.len == 0) ≡ false = ground (arith, all, count) in
      let count' = readable_len-Holds (Spsc.pop c).1 xs held in
      (
        got,
        held,
        ap (λ p. size p.1) (pop-filled c filled),
        omega (arith, less, all, count, count'),
        omega (arith, count, count'),
      )

module _ {ℓ} {T : Type ℓ} where
  -- The receiver knows what its channel holds.
  abbrev pub Seen : World T → Type ℓ
  Seen w = (c : Channel (Msg T)) → get_elem? w.msgs w.recv ≡ some c → c.len ≡ readable_len c

  pub Seen-set :
      (w : World T) (i : ℕ) (c : Channel (Msg T))
      → i < length w.msgs
      → c.len ≡ readable_len c
      → Seen (record w { msgs = set w.msgs i c; recv = i })
  Seen-set w i c p e d at =
      subst (λ z. z.len ≡ readable_len z)
        (some-injective _ _ (sym (get_elem?-set_self w.msgs i c p) ∙ at)) e

  -- the end of a channel: `ReallocChannel`
  pub switch_lem :
      (w : World T) (most i j : ℕ) (path : List ℕ) (ms : List (Msg T)) (c : Channel (Msg T))
      → Routed w.msgs i w.sender w.old_senders most (j ∷ path) ms
      → get_elem? w.msgs i ≡ some c
      → Holds c (realloc_channel j ∷ [])
      → c.len ≡ readable_len c
      → i < j
      → Chain w.msgs j path ms
      → (msgs : List (Channel (Msg T))) × (switch_channel
            (record w { msgs = set w.msgs i (Spsc.pop c).1; recv = i })
            j
          ≡ some (record w { msgs = msgs; recv = j }))
        × Routed msgs j w.sender w.old_senders most path ms
        × Seen (record w { msgs = msgs; recv = j })
  unfolding switch_channel Spsc.drop_receiver Spsc.update readable_len
  switch_lem w most i j path ms c r at h all lt chain =
      let (got, empty, slots, len, less) = pop-seen c (realloc_channel j) [] h all in
      let c1 = (Spsc.pop c).1 in
      let msgs1 = set w.msgs i c1 in
      let chain1 = Chain-Keeps (set-Keeps w.msgs i j c1 lt) chain in
      let r1 = Routed-set i j path ms c c1 at slots less refl chain1 r in
      let at1 = get_elem?-set_self w.msgs i c1 (lt-of-get_elem? w.msgs i c at) in
      let c2 = Spsc.drop_receiver c1 in
      let msgs2 = set msgs1 i c2 in
      let chain2 = Chain-Keeps (set-Keeps msgs1 i j c2 lt) chain1 in
      let r2 = Routed-set i j path ms c1 c2 at1 refl (omega arith) refl chain2 r1 in
      let (d, there, next) = Chain-Next chain2 in
      let d' = Spsc.update d in
      let msgs3 = set msgs2 j d' in
      let chain3 =
        Chain-Keeps (same-Keeps msgs2 j d d' there (λ xs k. (update_lem d xs k).0)) chain2 in
      let r3 = Routed-set j j path ms d d' there refl (omega arith) refl chain3 r2 in
      (
        msgs3,
        rw (at1, ◌>>=◌, there) refl,
        r3,
        Seen-set (record w { msgs = msgs2 }) j d' (lt-of-get_elem? msgs2 j d there) refl,
      )
