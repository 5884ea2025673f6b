-- ===== src/P2p/Querier/TwoThirds.antt =====
-- What the queries for two thirds of the confirms return.
use mathlib.Core.Path.{subst}
use mathlib.Core.List.{Memᴰ}
use orchestrator_relayer.Prelude.{
  ℕ, ◌≤◌, ◌≡◌, ◌≢◌, refl, sym, ◌∙◌, true, false, List, [], ◌∷◌, ◌++◌, some, arith, Bytes, leb,
  leb→le, Bool-cases, inl, inr, append-nil, append_assoc, ◌⊎◌, if◌then◌else◌,
}
use orchestrator_relayer.Effect.{
  Error, is_routing_not_found, Result, ok, err, World, Go, outcome-cases,
}
use orchestrator_relayer.Types.Valsets.{BridgeValidator}
use orchestrator_relayer.P2p.Dht.{Event, ctx_done, timed_out, tick}
use orchestrator_relayer.P2p.Querier.{
  members_map, current_threshold, collect, query_func, await, two_thirds,
}

module _ {W C : Type 0} (get : BridgeValidator → Go W C) where
  -- The confirms are those that the query of some of the members, in the members' order, returned; for
  -- every other member the query did not find one. No member counts twice.
  pub data Collected : List BridgeValidator → List C → Type 0 where
    none_left : Collected [] []
    found :
        (m : BridgeValidator) {ms : List BridgeValidator} (c : C) {cs : List C} (s s' : World W)
        → get m s ≡ (ok c, s')
        → Collected ms cs
        → Collected (m ∷ ms) (c ∷ cs)
    missing :
        (m : BridgeValidator) {ms : List BridgeValidator} {cs : List C} (s s' : World W) (e : Error)
        → get m s ≡ (err e, s')
        → is_routing_not_found e ≡ true
        → Collected ms cs
        → Collected (m ∷ ms) cs

  pub collect_found :
      (m : BridgeValidator) (ms : List BridgeValidator) (acc : List C) (c : C) (s s' : World W)
      → get m s ≡ (ok c, s')
      → collect get (m ∷ ms) acc s ≡ collect get ms (acc ++ c ∷ []) s'
  unfolding collect
  collect_found m ms acc c s s' h = rw h

  pub collect_missing :
      (m : BridgeValidator) (ms : List BridgeValidator) (acc : List C) (e : Error) (s s' : World W)
      → get m s ≡ (err e, s')
      → is_routing_not_found e ≡ true
      → collect get (m ∷ ms) acc s ≡ collect get ms acc s'
  unfolding collect
  collect_missing m ms acc e s s' h k = ground (arith, h, k)

  collect_failed :
      (m : BridgeValidator) (ms : List BridgeValidator) (acc : List C) (e : Error) (s s' : World W)
      → get m s ≡ (err e, s')
      → is_routing_not_found e ≡ false
      → collect get (m ∷ ms) acc s ≡ (err e, s')
  unfolding collect
  collect_failed m ms acc e s s' h k = ground (arith, h, k)

  collect-Collected :
      (ms : List BridgeValidator) (acc cs : List C) (s s' : World W)
      → collect get ms acc s ≡ (ok cs, s')
      → (new : List C) × (cs ≡ acc ++ new) × Collected ms new
  collect-Collected [] acc cs s s' h =
      ([], unfold collect in ground (arith, append-nil acc), none_left)
  collect-Collected (m ∷ ms) acc cs s s' h = elim (outcome-cases (get m s)) [
    | inl (c, t, p) ↦
        let (new, e, col) =
          collect-Collected ms (acc ++ c ∷ []) cs t s' (sym (collect_found m ms acc c s t p) ∙ h) in
        (c ∷ new, e ∙ append_assoc acc (c ∷ []) new, found m c s t p col)
    | inr (e, t, p) ↦ elim (Bool-cases (is_routing_not_found e)) [
      | inl nf ↦
          let (new, q, col) =
            collect-Collected ms acc cs t s' (sym (collect_missing m ms acc e s t p nf) ∙ h) in
          (new, q, missing m s t e p nf col)
      | inr other ↦ cc (h, collect_failed m ms acc e s t p other)
    ]
  ]

module _ {W C : Type 0} (eth_address : C → Bytes) (get : BridgeValidator → Go W C)
    (members : List BridgeValidator) (maj_threshold : ℕ) where
  abbrev power_of : List C → ℕ
  power_of cs = current_threshold eth_address (members_map members []) cs 0

  -- What is returned for confirms: some, collected from the members, of which the powers of the
  -- signers in the members' map reach the threshold.
  pub record IsMajority (cs : List C) : Type 0 where
    pub some_confirms : cs ≢ []
    pub collected : Collected get members cs
    pub enough : maj_threshold ≤ power_of cs

  pub query_func_step :
      (all : List C) (s t : World W)
      → collect get members [] s ≡ (ok all, t)
      → query_func eth_address get members maj_threshold s
        ≡ (ok (if leb maj_threshold (power_of all) then all else []), t)
  unfolding query_func
  query_func_step all s t h = rw h

  query_func_failed :
      (e : Error) (s t : World W)
      → collect get members [] s ≡ (err e, t)
      → query_func eth_address get members maj_threshold s ≡ (err e, t)
  unfolding query_func
  query_func_failed e s t h = rw h

  query_func-IsMajority :
      (c : C) (cs : List C) (s s' : World W)
      → query_func eth_address get members maj_threshold s ≡ (ok (c ∷ cs), s')
      → IsMajority (c ∷ cs)
  query_func-IsMajority c cs s s' h = elim (outcome-cases (collect get members [] s)) [
    | inl (all, t, p) ↦ elim (Bool-cases (leb maj_threshold (power_of all))) [
      | inl reached ↦
          let (new, e, col) = collect-Collected get members [] all s t p in
          let same : all ≡ c ∷ cs = cc (h, query_func_step all s t p, reached) in
          record {
            some_confirms = λ q. cc q;
            collected = subst (Collected get members) (sym e ∙ same) col;
            enough = subst (λ l. maj_threshold ≤ power_of l) same (leb→le _ _ reached);
          }
      | inr below ↦ cc (h, query_func_step all s t p, below)
    ]
    | inr (e, t, p) ↦ cc (h, query_func_failed e s t p)
  ]

  -- What the query returns, on every branch: confirms of a majority, and otherwise the error of the
  -- timeout, of the context, or of a query that failed.
  abbrev pub Outcome : Error → List Event → Result (List C) → Type 0
  Outcome late events (ok cs) = IsMajority cs
  Outcome late events (err e) =
      (e ≡ late) × Memᴰ timed_out events
      ⊎ Memᴰ (ctx_done e) events
      ⊎ ((s s' : World W) × (query_func eth_address get members maj_threshold s ≡ (err e, s')))

  Outcome-later :
      (late : Error) (v : Event) (events : List Event) (r : Result (List C))
      → Outcome late events r
      → Outcome late (v ∷ events) r
  Outcome-later late v events (ok cs) o = o
  Outcome-later late v events (err e) (inl (q, m)) = inl (q, Memᴰ.tail m)
  Outcome-later late v events (err e) (inr (inl m)) = inr (inl (Memᴰ.tail m))
  Outcome-later late v events (err e) (inr (inr f)) = inr (inr f)

  pub await_more :
      (late : Error) (events : List Event) (s t : World W)
      → query_func eth_address get members maj_threshold s ≡ (ok [], t)
      → await eth_address get members maj_threshold late (tick ∷ events) s
        ≡ await eth_address get members maj_threshold late events t
  unfolding await
  await_more late events s t h = ground (arith, h)

  pub await_done :
      (late : Error) (events : List Event) (c : C) (cs : List C) (s t : World W)
      → query_func eth_address get members maj_threshold s ≡ (ok (c ∷ cs), t)
      → await eth_address get members maj_threshold late (tick ∷ events) s ≡ (some (ok (c ∷ cs)), t)
  unfolding await
  await_done late events c cs s t h = ground (arith, h)

  await_failed :
      (late : Error) (events : List Event) (e : Error) (s t : World W)
      → query_func eth_address get members maj_threshold s ≡ (err e, t)
      → await eth_address get members maj_threshold late (tick ∷ events) s ≡ (some (err e), t)
  unfolding await
  await_failed late events e s t h = ground (arith, h)

  await-Outcome :
      (late : Error) (events : List Event) (s s' : World W) (r : Result (List C))
      → await eth_address get members maj_threshold late events s ≡ (some r, s')
      → Outcome late events r
  await-Outcome late [] s s' r h = unfold await in cc
  await-Outcome late (ctx_done e ∷ events) s s' r h =
      let same : err e ≡ r = unfold await in ground arith in
      subst (Outcome late (ctx_done e ∷ events)) same (inr (inl (Memᴰ.head refl)))
  await-Outcome late (timed_out ∷ events) s s' r h =
      let same : err late ≡ r = unfold await in ground arith in
      subst (Outcome late (timed_out ∷ events)) same (inl (refl, Memᴰ.head refl))
  await-Outcome late (tick ∷ events) s s' r h =
      elim (outcome-cases (query_func eth_address get members maj_threshold s)) [
        | inl ([], t, p) ↦
            Outcome-later late tick events r
              (await-Outcome late events t s' r (sym (await_more late events s t p) ∙ h))
        | inl (c ∷ cs, t, p) ↦
            let same : ok (c ∷ cs) ≡ r = cc (h, await_done late events c cs s t p) in
            subst (Outcome late (tick ∷ events)) same (query_func-IsMajority c cs s t p)
        | inr (e, t, p) ↦
            let same : err e ≡ r = cc (h, await_failed late events e s t p) in
            subst (Outcome late (tick ∷ events)) same (inr (inr (s, t, p)))
      ]

  -- For every sequence of events, what `QueryTwoThirds…Confirms` returns is a non-empty list of confirms,
  -- at most one for each place in the list of members, of which the signers' powers, added up over the
  -- confirms in 64 bits, reach the threshold; or the timeout's error, after a timeout; or the context's
  -- error, after it is done; or the error of a failed query.
  pub two_thirds-Outcome :
      (late : Error) (events : List Event) (s s' : World W) (r : Result (List C))
      → two_thirds eth_address get members maj_threshold late events s ≡ (some r, s')
      → Outcome late events r
  unfolding two_thirds
  two_thirds-Outcome late events s s' r h =
      drop_first r (await-Outcome late (tick ∷ events) s s' r h)
    where
      not_first : (v : Event) → v ≢ tick → Memᴰ v (tick ∷ events) → Memᴰ v events
      not_first v n (Memᴰ.head q) = absurd (n q)
      not_first v n (Memᴰ.tail m) = m

      drop_first : (q : Result (List C)) → Outcome late (tick ∷ events) q → Outcome late events q
      drop_first (ok cs) o = o
      drop_first (err e) (inl (q, m)) = inl (q, not_first timed_out (λ x. cc x) m)
      drop_first (err e) (inr (inl m)) = inr (inl (not_first (ctx_done e) (λ x. cc x) m))
      drop_first (err e) (inr (inr f)) = inr (inr f)
