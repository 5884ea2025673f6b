-- ===== src/Rpc/TmQuerier.antt =====
-- rpc/tm_querier.go. The Tendermint client's calls are parameters.
pub mod Connection
use orchestrator_relayer.Prelude.{
  ℕ, Bool, true, false, List, [], ◌∷◌, ◌++◌, Option, none, some, Bytes, codes, leb, if◌then◌else◌,
}
use orchestrator_relayer.Effect.{
  Error, couldnt_reach_specified_height, Result, ok, err, World, Go, query,
}

-- `clientConn.DataCommitment`, the height in `clientConn.Status`, and the two calls on subscriptions,
-- which take the subscription's name and its query
pub record TmClient (W : Type 0) : Type 0 where
  pub data_commitment : ℕ → ℕ → W → Result Bytes × W
  pub status : W → Result ℕ × W
  pub subscribe : Bytes → Bytes → W → Result (Unit {0}) × W
  pub unsubscribe : Bytes → Bytes → W → Result (Unit {0}) × W

-- the constants of Tendermint and of the application's events: `types.EventTypeKey`,
-- `types.EventNewBlock`, `EventTypeAttestationRequest`, `AttributeKeyModule`, `ModuleName` and
-- `AttributeKeyNonce`
pub record EventNames : Type 0 where
  pub event_type_key : Bytes
  pub event_new_block : Bytes
  pub attestation_request : Bytes
  pub module_key : Bytes
  pub module_name : Bytes
  pub nonce_key : Bytes

-- What the `select` of `WaitForHeight` picks.
pub data HeightEvent : Type 0 where
  ctx_done : Error → HeightEvent
  timed_out new_block : HeightEvent

module _ {W : Type 0} (client : TmClient W) where
  unfoldable pub query_commitment : ℕ → ℕ → Go W Bytes
  query_commitment begin_block end_block = query (client.data_commitment begin_block end_block)

  unfoldable pub query_height : Go W ℕ
  query_height = query client.status

  unfoldable pub is_running : Go W Bool
  is_running s =
      let (r, w) = client.status s.ext in
      (ok (elim r [ ok _ ↦ true | err _ ↦ false ]), record s { ext = w })

  -- The result channel is left out: what comes from it is handed in as events.
  unfoldable pub subscribe_events : Bytes → Bytes → Go W (Unit {0})
  subscribe_events name events_query = query (client.subscribe name events_query)

  unfoldable pub unsubscribe_events : Bytes → Bytes → Go W (Unit {0})
  unsubscribe_events name events_query = query (client.unsubscribe name events_query)

  -- The loop, one event a round. `none`: it still waits.
  wait_loop : ℕ → List HeightEvent → World W → Option (Result (Unit {0})) × World W
  wait_loop height [] s = (none, s)
  wait_loop height (ctx_done e ∷ events) s = (some (err e), s)
  wait_loop height (timed_out ∷ events) s = (some (err couldnt_reach_specified_height), s)
  wait_loop height (new_block ∷ events) s =
      let (r, s') = query_height s in
      elim r [
        | err e ↦ (some (err e), s')
        | ok current ↦ elim (leb height current) [
          | true ↦ (some (ok tt), s')
          | false ↦ wait_loop height events s'
        ]
      ]

  -- `defer`: a failure of the unsubscription is only logged
  deferred_unsubscribe :
      Bytes → Option (Result (Unit {0})) × World W → Option (Result (Unit {0})) × World W
  unfolding unsubscribe_events
  deferred_unsubscribe _ (none, s) = (none, s)
  deferred_unsubscribe events_query (some r, s) =
      let (_, s') = unsubscribe_events (codes "sub-height") events_query s in (some r, s')

  -- the subscription and the loop behind it
  subscribe_and_wait :
      EventNames → ℕ → List HeightEvent → World W → Option (Result (Unit {0})) × World W
  unfolding wait_loop deferred_unsubscribe subscribe_events
  subscribe_and_wait names height events s =
      let events_query = names.event_type_key ++ codes "='" ++ names.event_new_block ++ codes "'" in
      let (r, s') = subscribe_events (codes "sub-height") events_query s in
      elim r [
        | err e ↦ (some (err e), s')
        | ok _ ↦ deferred_unsubscribe events_query (wait_loop height events s')
      ]

  unfoldable pub wait_for_height :
      EventNames → ℕ → List HeightEvent → World W → Option (Result (Unit {0})) × World W
  unfolding subscribe_and_wait
  wait_for_height names height events s =
      let (r, s') = query_height s in
      elim r [
        | err e ↦ (some (err e), s')
        | ok current ↦
            if leb height current
            then (some (ok tt), s')
            else subscribe_and_wait names height events s'
      ]
