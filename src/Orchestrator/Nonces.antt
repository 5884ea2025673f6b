-- ===== src/Orchestrator/Nonces.antt =====
-- orchestrator/orchestrator.go: `ProcessNonces` and the goroutines that it starts, as steps that
-- may come in any order. A channel is the list of the nonces in it, oldest first.
pub mod Conserved
pub mod Refines
use orchestrator_relayer.Prelude.{
  ℕ, suc, ◌<◌, ◌≡◌, ◌≢◌, Bool, true, false, List, [], ◌∷◌, ◌++◌, length,
}
use orchestrator_relayer.Effect.{Result, ok, err, World, Go, pure, attempt, ◌>>=◌}
use orchestrator_relayer.Helpers.Retrier.{Wait, Retrier, retry}
use orchestrator_relayer.Orchestrator.Process.{Orchestrator, process}
use orchestrator_relayer.Orchestrator.Queues.{queue_size, maybe_requeue}

-- `requeueing`: the nonces of the goroutines in `MaybeRequeue`; `moving`: how many of the ticker's
-- goroutines still wait for a nonce; `carried`: the nonces that they hold. `handled` and `dropped` are no
-- state of the program: the nonces that were processed, and that were not requeued.
pub record State (W : Type 0) : Type 0 where
  pub world : World W
  pub running : Bool
  pub nonces_queue : List ℕ
  pub requeue_queue : List ℕ
  pub requeueing : List ℕ
  pub moving : ℕ
  pub carried : List ℕ
  pub handled : List ℕ
  pub dropped : List ℕ

module _ {W : Type 0} (orch : Orchestrator W) (retrier : Retrier) (wait : Wait W) where
  -- the body of the case of a nonce: whether it was processed, at once or in a retry
  unfoldable pub process_nonce : ℕ → Go W Bool
  process_nonce nonce = do
    r ← attempt (process orch nonce)
    elim r [
      | ok _ ↦ pure true
      | err _ ↦ do
        q ← attempt (retry wait retrier (process orch nonce))
        elim q [ ok _ ↦ pure true | err _ ↦ pure false ]
    ]

  pub data Step (s : State W) : State W → Type 0 where
    -- `<-ctx.Done()`
    stopped : s.running ≡ true → Step s (record s { running = false })
    -- `<-ticker.C`
    ticked :
        s.running ≡ true
        → s.requeue_queue ≢ []
        → length s.nonces_queue < queue_size
        → Step s (record s { moving = suc s.moving })
    -- `nonce := <-requeueQueue` and `noncesQueue <- nonce`, in the ticker's goroutine
    received :
        (k nonce : ℕ) (rest : List ℕ)
        → s.moving ≡ suc k
        → s.requeue_queue ≡ nonce ∷ rest
        → Step s (record s { moving = k; requeue_queue = rest; carried = nonce ∷ s.carried })
    sent :
        (nonce : ℕ) (before after : List ℕ)
        → s.carried ≡ before ++ nonce ∷ after
        → length s.nonces_queue < queue_size
        → Step s
            (record s { carried = before ++ after; nonces_queue = s.nonces_queue ++ nonce ∷ [] })
    -- `nonce := <-noncesQueue`
    processed :
        (nonce : ℕ) (rest : List ℕ) (w : World W)
        → s.running ≡ true
        → s.nonces_queue ≡ nonce ∷ rest
        → process_nonce nonce s.world ≡ (ok true, w)
        → Step s (record s { world = w; nonces_queue = rest; handled = nonce ∷ s.handled })
    failed :
        (nonce : ℕ) (rest : List ℕ) (w : World W)
        → s.running ≡ true
        → s.nonces_queue ≡ nonce ∷ rest
        → process_nonce nonce s.world ≡ (ok false, w)
        → Step s (record s { world = w; nonces_queue = rest; requeueing = nonce ∷ s.requeueing })
    -- the end of `MaybeRequeue`
    requeued :
        (nonce : ℕ) (before after : List ℕ) (w : World W)
        → s.requeueing ≡ before ++ nonce ∷ after
        → length s.requeue_queue < queue_size
        → maybe_requeue orch.app_querier s.requeue_queue nonce s.world
          ≡ (ok (s.requeue_queue ++ nonce ∷ []), w)
        → Step s (record s {
          world = w;
          requeueing = before ++ after;
          requeue_queue = s.requeue_queue ++ nonce ∷ [];
        })
    not_requeued :
        (nonce : ℕ) (before after : List ℕ) (w : World W)
        → s.requeueing ≡ before ++ nonce ∷ after
        → maybe_requeue orch.app_querier s.requeue_queue nonce s.world ≡ (ok s.requeue_queue, w)
        → Step s (record s { world = w; requeueing = before ++ after; dropped = nonce ∷ s.dropped })

  pub data Steps (s : State W) : State W → Type 0 where
    no_step : Steps s s
    step : (t u : State W) → Steps s t → Step t u → Steps s u
