-- ===== src/Orchestrator/Nonces/Refines.antt =====
-- `ProcessNonces` as its users see it: a bag of nonces, each of which ends as processed or as dropped.
use orchestrator_relayer.Prelude.{ℕ, ◌+◌, ◌≡◌, refl, ap, true, List, arith}
use orchestrator_relayer.Effect.{ok, World}
use orchestrator_relayer.Helpers.Retrier.{Wait, Retrier}
use orchestrator_relayer.Orchestrator.Process.{Orchestrator}
use orchestrator_relayer.Orchestrator.Queues.{maybe_requeue}
use orchestrator_relayer.Orchestrator.Nonces.{
  State, process_nonce, Step, stopped, ticked, received, sent, processed, failed, requeued,
  not_requeued, Steps, no_step, step,
}
use orchestrator_relayer.Orchestrator.Nonces.Conserved.{
  one, count, count-cons, count_last, count_between,
}

-- A bag says how often each nonce is in it: it forgets the queues, their order, and the goroutines.
abbrev pub Bag : Type 0
Bag = ℕ → ℕ

pub record Spec : Type 0 where
  pub pending : Bag
  pub handled : Bag
  pub dropped : Bag

-- the same bag, and a bag with one more of a nonce
abbrev pub Same : Bag → Bag → Type 0
Same a b = (m : ℕ) → a m ≡ b m

abbrev pub Adds : ℕ → Bag → Bag → Type 0
Adds n a b = (m : ℕ) → b m ≡ one m n + a m

module _ {W : Type 0} (orch : Orchestrator W) (retrier : Retrier) (wait : Wait W) where
  -- A pending nonce stays pending, is processed, or is dropped where `MaybeRequeue` does not take it.
  pub data SpecStep (a b : Spec) : Type 0 where
    kept :
        Same a.pending b.pending
        → Same a.handled b.handled
        → Same a.dropped b.dropped
        → SpecStep a b
    done :
        (n : ℕ) (s t : World W)
        → process_nonce orch retrier wait n s ≡ (ok true, t)
        → Adds n b.pending a.pending
        → Adds n a.handled b.handled
        → Same a.dropped b.dropped
        → SpecStep a b
    given_up :
        (n : ℕ) (queue : List ℕ) (s t : World W)
        → maybe_requeue orch.app_querier queue n s ≡ (ok queue, t)
        → Adds n b.pending a.pending
        → Same a.handled b.handled
        → Adds n a.dropped b.dropped
        → SpecStep a b

  pub data SpecSteps (a : Spec) : Spec → Type 0 where
    none_taken : SpecSteps a a
    one_more : (b c : Spec) → SpecSteps a b → SpecStep b c → SpecSteps a c

  -- what a state is in the specification
  unfoldable pub spec_of : State W → Spec
  spec_of s = record {
    pending = λ m.
        count m s.nonces_queue + count m s.requeue_queue + count m s.requeueing + count m s.carried;
    handled = λ m. count m s.handled;
    dropped = λ m. count m s.dropped;
  }

  Step-SpecStep : (s t : State W) → Step orch retrier wait s t → SpecStep (spec_of s) (spec_of t)
  unfolding spec_of
  Step-SpecStep s _ (stopped _) = kept (λ _. refl) (λ _. refl) (λ _. refl)
  Step-SpecStep s _ (ticked _ _ _) = kept (λ _. refl) (λ _. refl) (λ _. refl)
  Step-SpecStep s _ (received k n rest _ p) =
      kept (λ m. omega (arith, ap (count m) p, count-cons m n rest, count-cons m n s.carried))
        (λ _. refl) (λ _. refl)
  Step-SpecStep s _ (sent n before after p _) =
      kept
        (λ m.
          omega
            (arith, ap (count m) p, count_between m n before after, count_last m n s.nonces_queue))
        (λ _. refl) (λ _. refl)
  Step-SpecStep s _ (processed n rest w _ p q) =
      done n s.world w q (λ m. omega (arith, ap (count m) p, count-cons m n rest))
        (λ m. count-cons m n s.handled) (λ _. refl)
  Step-SpecStep s _ (failed n rest w _ p _) =
      kept (λ m. omega (arith, ap (count m) p, count-cons m n rest, count-cons m n s.requeueing))
        (λ _. refl) (λ _. refl)
  Step-SpecStep s _ (requeued n before after w p _ _) =
      kept
        (λ m.
          omega
            (arith, ap (count m) p, count_between m n before after, count_last m n s.requeue_queue))
        (λ _. refl) (λ _. refl)
  Step-SpecStep s _ (not_requeued n before after w p q) =
      given_up n s.requeue_queue s.world w q
        (λ m. omega (arith, ap (count m) p, count_between m n before after)) (λ _. refl)
        (λ m. count-cons m n s.dropped)

  -- Every run of `ProcessNonces` with its goroutines, in whatever order of steps, is a run of the
  -- specification: a bag of pending nonces, from which a nonce is taken only when `Process` succeeds
  -- for it, at once or in a retry, and it is then handled once more; or when `MaybeRequeue` does not take it,
  -- and it is then dropped once more.
  pub Steps-SpecSteps :
      (s t : State W) → Steps orch retrier wait s t → SpecSteps (spec_of s) (spec_of t)
  Steps-SpecSteps s _ no_step = none_taken
  Steps-SpecSteps s u (step t _ steps last) =
      one_more (spec_of t) (spec_of u) (Steps-SpecSteps s t steps) (Step-SpecStep t u last)
