-- ===== src/Orchestrator/Listener.antt =====
-- orchestrator/orchestrator.go: `StartNewEventsListener`, which puts the nonces of new attestations in
-- the queue, and `EnqueueMissingEvents` with its queries. What the `select` statements pick is handed in.
pub mod Order
use orchestrator_relayer.Prelude.{
  ℕ, Bool, true, false, List, [], ◌∷◌, ◌++◌, Option, none, some, Bytes, codes, str_eq,
  if◌then◌else◌,
}
use orchestrator_relayer.Effect.{
  Error, context_canceled, panicked, signal_chan_notif, Result, ok, err, World, Go, pure, ◌>>=◌,
  ◌>>◌,
}
use orchestrator_relayer.Std.Strconv.{atoi}
use orchestrator_relayer.Helpers.Retrier.{Wait, Retrier, retry}
use orchestrator_relayer.Rpc.AppQuerier.{
  QueryClient, query_latest_attestation_nonce, query_earliest_attestation_nonce,
}
use orchestrator_relayer.Rpc.TmQuerier.{
  TmClient, EventNames, HeightEvent, is_running, subscribe_events, unsubscribe_events,
  wait_for_height,
}
use orchestrator_relayer.Rpc.TmQuerier.Connection.{Connections, TmQuerier, on_conn, reconnect}
use orchestrator_relayer.Orchestrator.Queues.{EnqueueEvent, enqueue_missing}

-- `result.Events`, a map: a missing name has no values
abbrev pub ResultEvent : Type 0
ResultEvent = Bytes → List Bytes

unfoldable pub must_get_event : ResultEvent → Bytes → Result (List Bytes)
must_get_event result event_name = elim (result event_name) [
  | [] ↦ err panicked
  | v ∷ vs ↦ ok (v ∷ vs)
]

-- What the inner `select` picks for a nonce, and what the outer one does. A result of the subscription
-- comes with the picks of its nonces.
pub data Pick : Type 0 where
  enqueued inner_signal : Pick
  inner_done : Error → Pick

pub data ListenEvent : Type 0 where
  signalled ticked : ListenEvent
  done : Error → ListenEvent
  received : ResultEvent → List Pick → ListenEvent

-- how the handling of a result ends: the loop goes on, the listener returns, or it still waits
pub data Handled : Type 0 where
  go_on still_waiting : Handled
  returned : Result (Unit {0}) → Handled

unfoldable pub enqueue_nonces : List Bytes → List Pick → List ℕ → Handled × List ℕ
enqueue_nonces [] picks queue = (go_on, queue)
enqueue_nonces (ev ∷ evs) [] queue = elim (atoi ev) [
  | err e ↦ (returned (err e), queue)
  | ok _ ↦ (still_waiting, queue)
]
enqueue_nonces (ev ∷ evs) (pick ∷ picks) queue = elim (atoi ev) [
  | err e ↦ (returned (err e), queue)
  | ok nonce ↦ elim pick [
    | inner_done e ↦ (returned (err e), queue)
    | inner_signal ↦ (returned (err signal_chan_notif), queue)
    | enqueued ↦ enqueue_nonces evs picks (queue ++ nonce ∷ [])
  ]
]

-- `blockEvent[0] == coretypes.EventNewBlock`, behind `mustGetEvent`
unfoldable pub is_block : EventNames → List Bytes → Bool
is_block names [] = false
is_block names (v ∷ _) = str_eq v names.event_new_block

unfoldable pub handle_result : EventNames → ResultEvent → List Pick → List ℕ → Handled × List ℕ
unfolding must_get_event is_block enqueue_nonces
handle_result names result picks queue = elim (must_get_event result names.event_type_key) [
  | err e ↦ (returned (err e), queue)
  | ok block_event ↦ elim (is_block names block_event) [
    | false ↦ (go_on, queue)
    | true ↦
        elim (must_get_event result (names.attestation_request ++ codes "." ++ names.nonce_key)) [
          | err e ↦ (returned (err e), queue)
          | ok attestation_events ↦ enqueue_nonces attestation_events picks queue
        ]
  ]
]

-- a canceled context is no error
unfoldable pub done_result : Error → Result (Unit {0})
done_result context_canceled = ok tt
done_result e = err e

module _ {W C : Type 0} (connections : Connections W C) (names : EventNames) (retrier : Retrier)
    (wait : Wait W) where
  attestation_query : Bytes
  attestation_query =
      names.attestation_request
      ++ codes "."
      ++ names.module_key
      ++ codes "='"
      ++ names.module_name
      ++ codes "'"

  unfoldable pub subscribe : Go (TmQuerier C × W) (Unit {0})
  unfolding on_conn subscribe_events attestation_query
  subscribe =
      on_conn connections
        λ client. subscribe_events client (codes "attestation-changes") attestation_query

  unfoldable pub unsubscribe : Go (TmQuerier C × W) (Unit {0})
  unfolding on_conn unsubscribe_events attestation_query
  unsubscribe =
      on_conn connections
        λ client. unsubscribe_events client (codes "attestation-changes") attestation_query

  wait_beside : Wait (TmQuerier C × W)
  wait_beside delay (q, w) = let (r, w') = wait delay w in (r, (q, w'))

  -- a tick of the listener: where the node is down, it is connected to anew, and subscribed to
  unfoldable pub check_health : Go (TmQuerier C × W) (Unit {0})
  unfolding on_conn is_running retry reconnect subscribe wait_beside
  check_health = do
    running ← on_conn connections λ client. is_running client
    if running then pure tt else retry wait_beside retrier (reconnect connections >> subscribe)

  -- the loop, one event a round; `none`: it still waits
  unfoldable pub listen :
      List ListenEvent
      → List ℕ
      → World (TmQuerier C × W)
      → Option (Result (Unit {0})) × List ℕ × World (TmQuerier C × W)
  unfolding check_health handle_result done_result
  listen [] queue s = (none, queue, s)
  listen (signalled ∷ events) queue s = (some (ok tt), queue, s)
  listen (done e ∷ events) queue s = (some (done_result e), queue, s)
  listen (ticked ∷ events) queue s =
      let (r, t) = check_health s in
      elim r [ err e ↦ (some (err e), queue, t) | ok _ ↦ listen events queue t ]
  listen (received result picks ∷ events) queue s =
      let (handled, after) = handle_result names result picks queue in
      elim handled [
        | go_on ↦ listen events after s
        | still_waiting ↦ (none, after, s)
        | returned r ↦ (some r, after, s)
      ]

  -- `defer`: a failure of the unsubscription is only logged
  unfoldable pub deferred_unsubscribe :
      Option (Result (Unit {0})) × List ℕ × World (TmQuerier C × W)
      → Option (Result (Unit {0})) × List ℕ × World (TmQuerier C × W)
  unfolding unsubscribe
  deferred_unsubscribe (none, queue, s) = (none, queue, s)
  deferred_unsubscribe (some r, queue, s) = let (_, t) = unsubscribe s in (some r, queue, t)

  unfoldable pub start_new_events_listener :
      List ListenEvent
      → List ℕ
      → World (TmQuerier C × W)
      → Option (Result (Unit {0})) × List ℕ × World (TmQuerier C × W)
  unfolding subscribe listen deferred_unsubscribe
  start_new_events_listener events queue s =
      let (r, t) = subscribe s in
      elim r [
        | err e ↦ (some (err e), queue, t)
        | ok _ ↦ deferred_unsubscribe (listen events queue t)
      ]

module _ {W : Type 0} (names : EventNames) (client : TmClient W) (app_querier : QueryClient W) where
  -- `latestNonce` and `earliestAttestationNonce`
  nonces_range : Go W (ℕ × ℕ)
  unfolding query_latest_attestation_nonce query_earliest_attestation_nonce
  nonces_range = do
    latest ← query_latest_attestation_nonce app_querier
    earliest ← query_earliest_attestation_nonce app_querier
    pure (latest, earliest)

  unfoldable pub enqueue_missing_events :
      List HeightEvent
      → List EnqueueEvent
      → List ℕ
      → World W
      → Option (Result (Unit {0})) × List ℕ × World W
  unfolding wait_for_height nonces_range
  enqueue_missing_events heights events queue s =
      let (height, s1) = wait_for_height client names 1 heights s in
      elim height [
        | none ↦ (none, queue, s1)
        | some waited ↦ elim waited [
          | err e ↦ (some (err e), queue, s1)
          | ok _ ↦
              let (r, s2) = nonces_range s1 in
              elim r [
                | err e ↦ (some (err e), queue, s2)
                | ok (latest, earliest) ↦
                    let (outcome, after) = enqueue_missing latest earliest events queue in
                    (outcome, after, s2)
              ]
        ]
      ]
