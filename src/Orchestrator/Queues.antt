-- ===== src/Orchestrator/Queues.antt =====
-- orchestrator/orchestrator.go: the nonces' queues. What the `select` statements pick is handed in
-- as events; a queue is the list of the nonces in it, oldest first.
pub mod Missing
use orchestrator_relayer.Prelude.{
  ℕ, zero, suc, ◌+◌, ◌-◌, ◌%◌, ◌^◌, Bool, true, false, ◌&&◌, ◌||◌, List, [], ◌∷◌, ◌++◌, Option,
  none, some, ltb, leb, ◌==◌, if◌then◌else◌, length,
}
use orchestrator_relayer.Effect.{
  Error, signal_chan_notif, Result, ok, err, World, Go, pure, attempt, ◌>>=◌,
}
use orchestrator_relayer.Rpc.AppQuerier.{QueryClient, query_latest_attestation_nonce}

abbrev pub requeue_window : ℕ
requeue_window = 50

abbrev pub queue_size : ℕ
queue_size = 1000

-- One round of the loop of `EnqueueMissingEvents`: the outer `select` returns, the inner one does, or
-- the nonce is put in the queue.
pub data EnqueueEvent : Type 0 where
  outer_signal inner_signal sent : EnqueueEvent
  outer_done inner_done : Error → EnqueueEvent

-- the rounds left, `i`, and the queue; `none`: it still waits
enqueue_loop : ℕ → ℕ → ℕ → List EnqueueEvent → List ℕ → Option (Result (Unit {0})) × List ℕ
enqueue_loop latest zero i events queue = (some (ok tt), queue)
enqueue_loop latest (suc k) i [] queue = (none, queue)
enqueue_loop latest (suc k) i (outer_signal ∷ events) queue = (some (ok tt), queue)
enqueue_loop latest (suc k) i (outer_done e ∷ events) queue = (some (err e), queue)
enqueue_loop latest (suc k) i (inner_done e ∷ events) queue = (some (err e), queue)
enqueue_loop latest (suc k) i (inner_signal ∷ events) queue = (some (err signal_chan_notif), queue)
enqueue_loop latest (suc k) i (sent ∷ events) queue =
    enqueue_loop latest k (i + 1) events (queue ++ (latest + 2 ^ 64 - i) % 2 ^ 64 ∷ [])

-- The part of `EnqueueMissingEvents` behind its queries: `latestNonce - earliest + 1` rounds, in
-- uint64. The loop's condition has `i` below that number, from 0.
pub enqueue_missing : ℕ → ℕ → List EnqueueEvent → List ℕ → Option (Result (Unit {0})) × List ℕ
unfolding enqueue_loop
enqueue_missing latest earliest events queue =
    enqueue_loop latest ((latest + 2 ^ 64 - earliest + 1) % 2 ^ 64) 0 events queue

-- `latestNonce - RequeueWindow` is taken only where it does not wrap
unfoldable pub requeue_test : ℕ → ℕ → Bool
requeue_test latest nonce =
    leb latest requeue_window || leb ((latest + 2 ^ 64 - requeue_window) % 2 ^ 64) nonce

module _ {W : Type 0} (client : QueryClient W) where
  -- the queue after `MaybeRequeue`; a failed query only logs
  unfoldable pub maybe_requeue : List ℕ → ℕ → Go W (List ℕ)
  unfolding requeue_test
  maybe_requeue requeue_queue nonce = do
    r ← attempt (query_latest_attestation_nonce client)
    elim r [
      | err _ ↦ pure requeue_queue
      | ok latest ↦
          pure (if requeue_test latest nonce then requeue_queue ++ nonce ∷ [] else requeue_queue)
    ]
