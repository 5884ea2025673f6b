-- ===== src/P2p/Dht/Peers.antt =====
-- When `WaitForPeers` ends, and how.
use mathlib.Core.Path.{subst}
use mathlib.Core.List.{Memᴰ}
use orchestrator_relayer.Prelude.{
  ℕ, ◌≡◌, ℤ, pos, ◌≤ℤ◌, ◌<ℤ◌, leb_ℤ, ltb_ℤ, refl, sym, ap, ◌∙◌, ◌⊎◌, inl, inr, true, false, List,
  [], ◌∷◌, Option, some, arith, leb→le, ltb→lt, Bool-cases,
}
use orchestrator_relayer.Effect.{
  peers_timeout, peers_threshold_cannot_be_negative, Result, ok, err, World,
}
use orchestrator_relayer.P2p.Dht.{
  IpfsDht, Event, ctx_done, timed_out, tick, wait_loop, wait_for_peers,
}

module _ {W : Type 0} (dht : IpfsDht W) (threshold : ℤ) where
  -- the routing table, at the time of `before`, has as many peers as the threshold
  pub record HasPeers (after : World W) : Type 0 where
    pub before : W
    pub number : ℕ
    pub listed : dht.list_peers before ≡ (number, after.ext)
    pub enough : threshold ≤ℤ pos number

  -- how the loop ends
  abbrev pub LoopEnds : List Event → Result (Unit {0}) → World W → Type 0
  LoopEnds events (ok _) s' = HasPeers s'
  LoopEnds events (err e) s' =
      (e ≡ peers_timeout) × Memᴰ timed_out events ⊎ Memᴰ (ctx_done e) events

  -- an error comes only where the first look, before any event, found too few
  abbrev pub Looked : Result (Unit {0}) → World W → Type 0
  Looked (ok _) s = Unit
  Looked (err _) s = pos (dht.list_peers s.ext).0 <ℤ threshold

  -- The whole: a threshold below 1 is refused and the table is not looked at, and any other is waited
  -- for.
  abbrev pub Outcome : List Event → Result (Unit {0}) → World W → World W → Type 0
  Outcome events r s s' =
      (threshold <ℤ pos 1) × (r ≡ err peers_threshold_cannot_be_negative) × (s' ≡ s)
      ⊎ (pos 1 ≤ℤ threshold) × Looked r s × LoopEnds events r s'

  LoopEnds-later :
      (v : Event) (events : List Event) (r : Result (Unit {0})) (s' : World W)
      → LoopEnds events r s'
      → LoopEnds (v ∷ events) r s'
  LoopEnds-later v events (ok _) s' o = o
  LoopEnds-later v events (err e) s' (inl (p, m)) = inl (p, Memᴰ.tail m)
  LoopEnds-later v events (err e) s' (inr m) = inr (Memᴰ.tail m)

  abbrev listed : World W → World W
  listed s = record s { ext = (dht.list_peers s.ext).1 }

  has_peers :
      (s : World W) → leb_ℤ threshold (pos (dht.list_peers s.ext).0) ≡ true → HasPeers (listed s)
  has_peers s p = record {
    before = s.ext;
    number = (dht.list_peers s.ext).0;
    listed = refl;
    enough = leb→le _ _ p;
  }

  moved :
      (events : List Event) (x r : Result (Unit {0})) (u s' : World W)
      → ◌≡◌ {A = Option (Result (Unit {0})) × World W} (some x, u) (some r, s')
      → LoopEnds events x u
      → LoopEnds events r s'
  moved events x r u s' h o =
      subst (λ w. LoopEnds events r w) (ap (λ p. p.1) h)
        (subst (λ y. LoopEnds events y u) (some_injective x r (ap (λ p. p.0) h)) o)
    where
      some_injective : (a b : Result (Unit {0})) → some a ≡ some b → a ≡ b
      some_injective a b q = ground (arith, q)

  loop_enough :
      (events : List Event) (s : World W)
      → leb_ℤ threshold (pos (dht.list_peers s.ext).0) ≡ true
      → wait_loop dht threshold (tick ∷ events) s ≡ (some (ok tt), listed s)
  unfolding wait_loop
  loop_enough events s p = ground (arith, p)

  loop_more :
      (events : List Event) (s : World W)
      → leb_ℤ threshold (pos (dht.list_peers s.ext).0) ≡ false
      → wait_loop dht threshold (tick ∷ events) s ≡ wait_loop dht threshold events (listed s)
  unfolding wait_loop
  loop_more events s p = ground (arith, p)

  wait_loop-LoopEnds :
      (events : List Event) (s s' : World W) (r : Result (Unit {0}))
      → wait_loop dht threshold events s ≡ (some r, s')
      → LoopEnds events r s'
  wait_loop-LoopEnds [] s s' r h = absurd (unfold wait_loop in ground (arith, h))
  wait_loop-LoopEnds (ctx_done e ∷ events) s s' r h =
      moved (ctx_done e ∷ events) (err e) r s s' (unfold wait_loop in h) (inr (Memᴰ.head refl))
  wait_loop-LoopEnds (timed_out ∷ events) s s' r h =
      moved (timed_out ∷ events) (err peers_timeout) r s s' (unfold wait_loop in h)
        (inl (refl, Memᴰ.head refl))
  wait_loop-LoopEnds (tick ∷ events) s s' r h =
      elim (Bool-cases (leb_ℤ threshold (pos (dht.list_peers s.ext).0))) [
        | inl p ↦
            moved (tick ∷ events) (ok tt) r (listed s) s' (sym (loop_enough events s p) ∙ h)
              (has_peers s p)
        | inr p ↦
            LoopEnds-later tick events r s'
              (wait_loop-LoopEnds events (listed s) s' r (sym (loop_more events s p) ∙ h))
      ]

  wait_loop-Looked :
      (events : List Event) (s s' : World W) (r : Result (Unit {0}))
      → wait_loop dht threshold (tick ∷ events) s ≡ (some r, s')
      → Looked r s
  wait_loop-Looked events s s' (ok _) h = tt
  wait_loop-Looked events s s' (err e) h =
      elim (Bool-cases (leb_ℤ threshold (pos (dht.list_peers s.ext).0))) [
        | inl p ↦ absurd (cc (h, loop_enough events s p))
        | inr p ↦ ground (arith, p)
      ]

  refused_lem :
      (events : List Event) (s : World W)
      → ltb_ℤ threshold (pos 1) ≡ true
      → wait_for_peers dht threshold events s ≡ (some (err peers_threshold_cannot_be_negative), s)
  unfolding wait_for_peers
  refused_lem events s p = ground (arith, p)

  at_once_lem :
      (events : List Event) (s : World W)
      → ltb_ℤ threshold (pos 1) ≡ false
      → wait_for_peers dht threshold events s ≡ wait_loop dht threshold (tick ∷ events) s
  unfolding wait_for_peers wait_loop
  at_once_lem events s p = ground (arith, p)

  -- For every sequence of events and every threshold, also a negative one: where the threshold is below 1,
  -- `WaitForPeers` returns `ErrPeersThresholdCannotBeNegative` and does not look at the routing table; else
  -- it returns nil only where the routing table had at least as many peers as the threshold, and
  -- otherwise, where the first look found fewer, `ErrPeersTimeout` after a timeout, or the context's error
  -- after it is done.
  pub wait_for_peers-Outcome :
      (events : List Event) (s s' : World W) (r : Result (Unit {0}))
      → wait_for_peers dht threshold events s ≡ (some r, s')
      → Outcome events r s s'
  wait_for_peers-Outcome events s s' r h = elim (Bool-cases (ltb_ℤ threshold (pos 1))) [
    | inl p ↦
        let same = sym (refused_lem events s p) ∙ h in
        inl (ltb→lt _ _ p, ground (arith, same), ground (arith, same))
    | inr p ↦
        let looped = sym (at_once_lem events s p) ∙ h in
        inr (
          ground (arith, p),
          wait_loop-Looked events s s' r looped,
          first_gone r (wait_loop-LoopEnds (tick ∷ events) s s' r looped),
        )
  ]
    where
      first_gone : (q : Result (Unit {0})) → LoopEnds (tick ∷ events) q s' → LoopEnds events q s'
      first_gone (ok _) o = o
      first_gone (err e) (inl (q, Memᴰ.tail m)) = inl (q, m)
      first_gone (err e) (inl (q, Memᴰ.head n)) = absurd (cc n)
      first_gone (err e) (inr (Memᴰ.tail m)) = inr m
      first_gone (err e) (inr (Memᴰ.head n)) = absurd (cc n)
