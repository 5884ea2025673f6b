-- ===== src/Orchestrator/Nonces/Conserved.antt =====
-- No nonce is lost between the queues.
use orchestrator_relayer.Prelude.{
  ℕ, ◌+◌, ◌≡◌, refl, ap, ◌∙◌, List, [], ◌∷◌, ◌++◌, arith, ◌==◌, if◌then◌else◌,
}
use orchestrator_relayer.Helpers.Retrier.{Wait, Retrier}
use orchestrator_relayer.Orchestrator.Process.{Orchestrator}
use orchestrator_relayer.Orchestrator.Nonces.{
  State, Step, stopped, ticked, received, sent, processed, failed, requeued, not_requeued, Steps,
  no_step, step,
}

abbrev pub one : ℕ → ℕ → ℕ
one m n = if n == m then 1 else 0

pub count : ℕ → List ℕ → ℕ
count m [] = 0
count m (n ∷ ns) = one m n + count m ns

count-append : (m : ℕ) (xs ys : List ℕ) → count m (xs ++ ys) ≡ count m xs + count m ys
unfolding count
count-append m [] ys = omega arith
count-append m (x ∷ xs) ys = omega (arith, count-append m xs ys)

pub count-cons : (m n : ℕ) (ns : List ℕ) → count m (n ∷ ns) ≡ one m n + count m ns
unfolding count
count-cons m n ns = refl

pub count_last : (m n : ℕ) (ns : List ℕ) → count m (ns ++ n ∷ []) ≡ one m n + count m ns
unfolding count
count_last m n ns = omega (arith, count-append m ns (n ∷ []))

pub count_between :
    (m n : ℕ) (xs ys : List ℕ) → count m (xs ++ n ∷ ys) ≡ one m n + count m (xs ++ ys)
unfolding count
count_between m n xs ys = omega (arith, count-append m xs (n ∷ ys), count-append m xs ys)

-- how often a nonce is in a queue, with a goroutine, or done with
abbrev pub total : {W : Type 0} → ℕ → State W → ℕ
total m s =
    count m s.nonces_queue
    + count m s.requeue_queue
    + count m s.requeueing
    + count m s.carried
    + count m s.handled
    + count m s.dropped

module _ {W : Type 0} (orch : Orchestrator W) (retrier : Retrier) (wait : Wait W) where
  Step-total : (m : ℕ) (s t : State W) → Step orch retrier wait s t → total m t ≡ total m s
  Step-total m s _ (stopped _) = refl
  Step-total m s _ (ticked _ _ _) = refl
  Step-total m s _ (received k n rest _ p) =
      omega (arith, ap (count m) p, count-cons m n rest, count-cons m n s.carried)
  Step-total m s _ (sent n before after p _) =
      omega (arith, ap (count m) p, count_between m n before after, count_last m n s.nonces_queue)
  Step-total m s _ (processed n rest w _ p _) =
      omega (arith, ap (count m) p, count-cons m n rest, count-cons m n s.handled)
  Step-total m s _ (failed n rest w _ p _) =
      omega (arith, ap (count m) p, count-cons m n rest, count-cons m n s.requeueing)
  Step-total m s _ (requeued n before after w p _ _) =
      omega (arith, ap (count m) p, count_between m n before after, count_last m n s.requeue_queue)
  Step-total m s _ (not_requeued n before after w p _) =
      omega (arith, ap (count m) p, count_between m n before after, count-cons m n s.dropped)

  -- In every order of steps of `ProcessNonces` and its goroutines, no nonce is lost and none is made
  -- twice: how often a nonce is in one of the queues, is held by a goroutine, was processed, or was
  -- dropped by `MaybeRequeue` is together the same in every state that is reached.
  pub Steps-total : (m : ℕ) (s t : State W) → Steps orch retrier wait s t → total m t ≡ total m s
  Steps-total m s _ no_step = refl
  Steps-total m s u (step t _ steps last) = Step-total m t u last ∙ Steps-total m s t steps
