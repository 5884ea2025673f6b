-- ===== src/P2p/Querier/Enough.antt =====
-- The queries for two thirds of the confirms return as soon as enough members have signed.
use orchestrator_relayer.Prelude.{
  ℕ, zero, suc, ◌+◌, ◌^◌, ◌≤◌, ◌<◌, ◌≡◌, refl, sym, ap, ◌∙◌, true, false, List, [], ◌∷◌, ◌++◌, some,
  arith, Bytes, leb, le→leb, Map, lookup, put, str_eq_refl, replicate, append_assoc, append-nil,
  if◌then◌else◌,
}
use orchestrator_relayer.Effect.{Error, is_routing_not_found, ok, err, World, Go}
use orchestrator_relayer.Types.Valsets.{BridgeValidator}
use orchestrator_relayer.P2p.Dht.{Event, tick}
use orchestrator_relayer.P2p.Querier.{
  members_map, current_threshold, collect, query_func, await, two_thirds,
}
use orchestrator_relayer.P2p.Querier.TwoThirds.{
  collect_found, collect_missing, query_func_step, await_more, await_done,
}
use orchestrator_relayer.P2p.Querier.Powers.{
  AllDistinct, addresses, power_in, lookup-members_map, power_of, current_threshold_power,
}

-- each member's power is found in the map, under its address
abbrev Known : Map BridgeValidator → List BridgeValidator → Type 0
Known vals [] = Unit
Known vals (m ∷ ms) = (power_in (lookup m.evm_address vals) ≡ m.power) × Known vals ms

own_power :
    (m : BridgeValidator) (vals : Map BridgeValidator)
    → power_in (lookup m.evm_address (put m.evm_address m vals)) ≡ m.power
unfolding lookup put
own_power m vals = rw (str_eq_refl m.evm_address) refl

members_map-Known :
    (ms : List BridgeValidator) (vals : Map BridgeValidator)
    → AllDistinct (addresses ms)
    → Known (members_map ms vals) ms
unfolding members_map AllDistinct
members_map-Known [] vals d = tt
members_map-Known (m ∷ ms) vals (new, d) = (
  lookup-members_map m.evm_address ms (put m.evm_address m vals) d ∙ rw new (own_power m vals),
  members_map-Known ms (put m.evm_address m vals) d,
)

module _ {W C : Type 0} (eth_address : C → Bytes) (get : BridgeValidator → Go W C) where
  -- What the network has when it is asked for the confirm of each member, in turn: the confirms of those
  -- that signed, and the powers of these members added up; it has none of the others.
  pub data Answers : List BridgeValidator → List C → ℕ → World W → World W → Type 0 where
    nobody : (s : World W) → Answers [] [] 0 s s
    signed :
        (m : BridgeValidator) (ms : List BridgeValidator) (c : C) (cs : List C) (power : ℕ)
        (s t u : World W)
        → get m s ≡ (ok c, t)
        → eth_address c ≡ m.evm_address
        → Answers ms cs power t u
        → Answers (m ∷ ms) (c ∷ cs) (m.power + power) s u
    silent :
        (m : BridgeValidator) (ms : List BridgeValidator) (cs : List C) (power : ℕ) (e : Error)
        (s t u : World W)
        → get m s ≡ (err e, t)
        → is_routing_not_found e ≡ true
        → Answers ms cs power t u
        → Answers (m ∷ ms) cs power s u

  collect-Answers :
      (ms : List BridgeValidator) (acc cs : List C) (power : ℕ) (s u : World W)
      → Answers ms cs power s u
      → collect get ms acc s ≡ (ok (acc ++ cs), u)
  collect-Answers _ acc _ _ s _ (nobody _) =
      unfold collect in ap (λ l. (ok l, s)) (sym (append-nil acc))
  collect-Answers _ acc _ _ s u (signed m ms c cs power _ t _ h _ rest) =
      collect_found get m ms acc c s t h
      ∙ collect-Answers ms (acc ++ c ∷ []) cs power t u rest
      ∙ ap (λ l. (ok l, u)) (append_assoc acc (c ∷ []) cs)
  collect-Answers _ acc _ _ s u (silent m ms cs power e _ t _ h missing rest) =
      collect_missing get m ms acc e s t h missing ∙ collect-Answers ms acc cs power t u rest

  power_of-Answers :
      (vals : Map BridgeValidator) (ms : List BridgeValidator) (cs : List C) (power : ℕ)
      (s u : World W)
      → Answers ms cs power s u
      → Known vals ms
      → power_of eth_address vals cs ≡ power
  unfolding power_of
  power_of-Answers vals _ _ _ s _ (nobody _) _ = refl
  power_of-Answers vals _ _ _ s u (signed m ms c cs power _ t _ _ same rest) (k, ks) =
      rw (same, k, power_of-Answers vals ms cs power t u rest ks) refl
  power_of-Answers vals _ _ _ s u (silent m ms cs power _ _ t _ _ _ rest) (_, ks) =
      power_of-Answers vals ms cs power t u rest ks

  module _ (members : List BridgeValidator) (maj_threshold : ℕ) where
    -- rounds in which the network has confirms, but of too little power
    pub data Short : ℕ → World W → World W → Type 0 where
      no_round : (s : World W) → Short 0 s s
      short_round :
          (k : ℕ) (cs : List C) (power : ℕ) (s t u : World W)
          → Answers members cs power s t
          → power < maj_threshold
          → power < 2 ^ 64
          → Short k t u
          → Short (suc k) s u

    query_func-Answers :
        (cs : List C) (power : ℕ) (s u : World W)
        → AllDistinct (addresses members)
        → power < 2 ^ 64
        → Answers members cs power s u
        → query_func eth_address get members maj_threshold s
          ≡ (ok (if leb maj_threshold power then cs else []), u)
    query_func-Answers cs power s u d small a =
        let known = members_map-Known members [] d in
        let added : current_threshold eth_address (members_map members []) cs 0 ≡ power =
          current_threshold_power eth_address (members_map members []) cs 0 (omega arith)
          ∙ rw (power_of-Answers (members_map members []) members cs power s u a known)
              (omega (arith, small)) in
        query_func_step eth_address get members maj_threshold cs s u
          (collect-Answers members [] cs power s u a)
        ∙ ap (λ n. (ok (if leb maj_threshold n then cs else []), u)) added

    enough_now :
        (late : Error) (events : List Event) (cs : List C) (power : ℕ) (s u : World W)
        → AllDistinct (addresses members)
        → power < 2 ^ 64
        → 0 < maj_threshold
        → maj_threshold ≤ power
        → Answers members cs power s u
        → await eth_address get members maj_threshold late (tick ∷ events) s ≡ (some (ok cs), u)
    enough_now late events [] power s u d small pos le a =
        let known = members_map-Known members [] d in
        let none_signed : 0 ≡ power =
          unfold power_of in
          power_of-Answers (members_map members []) members [] power s u a known in
        absurd (omega (arith, pos, le, none_signed))
    enough_now late events (c ∷ cs) power s u d small pos le a =
        await_done eth_address get members maj_threshold late events c cs s u (
          query_func-Answers (c ∷ cs) power s u d small a ∙ rw (le→leb maj_threshold power le) refl)

    await-Short :
        (late : Error) (events : List Event) (k : ℕ) (s t : World W)
        → AllDistinct (addresses members)
        → Short k s t
        → await eth_address get members maj_threshold late (replicate k tick ++ events) s
          ≡ await eth_address get members maj_threshold late events t
    await-Short late events _ s _ d (no_round _) = refl
    await-Short late events _ s u d (short_round k cs power _ t _ a below small rest) =
        await_more eth_address get members maj_threshold late (replicate k tick ++ events) s t
          (query_func-Answers cs power s t d small a ∙ rw (gt→leb power below) refl)
        ∙ await-Short late events k t u d rest
      where
        gt→leb : (n : ℕ) → n < maj_threshold → leb maj_threshold n ≡ false
        gt→leb n b = ground arith

    -- Where the members have different addresses, each confirm is its member's, the query for every other
    -- member finds none, the threshold is above 0 and the powers of the members that signed fit in 64
    -- bits: while the network has the confirms of members of too little power, the query goes on, and in the
    -- first round, the one at once or the one of a tick, in which the members that signed reach the
    -- threshold together, `QueryTwoThirds…Confirms` returns exactly their confirms, in the members' order,
    -- whatever the events after it.
    pub two_thirds_when_enough :
        (late : Error) (k : ℕ) (events : List Event) (cs : List C) (power : ℕ) (s t u : World W)
        → AllDistinct (addresses members)
        → Short k s t
        → Answers members cs power t u
        → power < 2 ^ 64
        → 0 < maj_threshold
        → maj_threshold ≤ power
        → two_thirds eth_address get members maj_threshold late (replicate k tick ++ events) s
          ≡ (some (ok cs), u)
    unfolding two_thirds
    two_thirds_when_enough late k events cs power s t u d short a small pos le =
        ap (λ es. await eth_address get members maj_threshold late es s) (tick_first k)
        ∙ await-Short late (tick ∷ events) k s t d short
        ∙ enough_now late events cs power t u d small pos le a
      where
        tick_first :
            (n : ℕ) → tick ∷ (replicate n tick ++ events) ≡ replicate n tick ++ tick ∷ events
        tick_first zero = refl
        tick_first (suc n) = ap (λ es. tick ∷ es) (tick_first n)
