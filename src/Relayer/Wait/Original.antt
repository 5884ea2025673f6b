-- ===== src/Relayer/Wait/Original.antt =====
-- What `waitForTransactionAndRetryIfNeeded` waits for.
use mathlib.Core.Path.{subst₂}
use orchestrator_relayer.Prelude.{
  ℕ, zero, suc, ◌<◌, ◌≡◌, refl, sym, ap, ◌∙◌, ◌⊎◌, inl, inr, true, false, some, arith, Bool-cases,
}
use orchestrator_relayer.Effect.{
  Error, is_deadline_exceeded, transaction_still_pending, Result, ok, err, World, Go, outcome-cases,
}
use orchestrator_relayer.Evm.Client.{Tx, wait_for_transaction}
use orchestrator_relayer.Relayer.Wait.{
  EthClient, log_price, speed_up, retry_loop, wait_for_transaction_and_retry_if_needed,
}

module _ {W : Type 0} (client : EthClient W) (tx : Tx) where
  abbrev wait_for_original : Go W ℕ
  wait_for_original = wait_for_transaction client.mined tx

  -- A number of rounds, in each of which the wait for `tx` itself timed out and speeding up gave no
  -- error.
  pub data Rounds : ℕ → World W → World W → Type 0 where
    no_round : {s : World W} → Rounds zero s s
    round :
        {k : ℕ} {s v : World W} (e : Error) (t u : World W)
        → wait_for_original s ≡ (err e, t)
        → is_deadline_exceeded e ≡ true
        → speed_up client tx tx t ≡ (ok tt, u)
        → Rounds k u v
        → Rounds (suc k) s v

  -- The last round, after which the rounds are left.
  pub data LastRound (s : World W) : Result (Unit {0}) → World W → Type 0 where
    was_mined :
        {s' : World W} (status : ℕ) → wait_for_original s ≡ (ok status, s') → LastRound s (ok tt) s'
    wait_failed :
        {s' : World W} (e : Error)
        → wait_for_original s ≡ (err e, s')
        → is_deadline_exceeded e ≡ false
        → LastRound s (err e) s'
    speed_up_failed :
        {s' : World W} (e x : Error) (t : World W)
        → wait_for_original s ≡ (err e, t)
        → is_deadline_exceeded e ≡ true
        → speed_up client tx tx t ≡ (err x, s')
        → LastRound s (err x) s'

  pub record LeftEarly (k : ℕ) (s : World W) (r : Result (Unit {0})) (s' : World W) : Type 0 where
    pub before : ℕ
    pub in_time : before < k
    pub reached : World W
    pub rounds : Rounds before s reached
    pub last_round : LastRound reached r s'

  abbrev pub Ends : ℕ → World W → Result (Unit {0}) → World W → Type 0
  Ends k s r s' = LeftEarly k s r s' ⊎ (r ≡ err transaction_still_pending) × Rounds k s s'

  left_at_once :
      (k : ℕ) (s s' : World W) (r : Result (Unit {0})) → LastRound s r s' → Ends (suc k) s r s'
  left_at_once k s s' r last = inl record {
    before = 0;
    in_time = omega arith;
    reached = s;
    rounds = no_round;
    last_round = last;
  }

  later :
      (k : ℕ) (s t u s' : World W) (r : Result (Unit {0})) (e : Error)
      → wait_for_original s ≡ (err e, t)
      → is_deadline_exceeded e ≡ true
      → speed_up client tx tx t ≡ (ok tt, u)
      → Ends k u r s'
      → Ends (suc k) s r s'
  later k s t u s' r e p d q (inl h) = inl record {
    before = suc h.before;
    in_time = omega (arith, h.in_time);
    reached = h.reached;
    rounds = round e t u p d q h.rounds;
    last_round = h.last_round;
  }
  later k s t u s' r e p d q (inr (same, rounds)) = inr (same, round e t u p d q rounds)

  loop_mined :
      (k status : ℕ) (s t : World W)
      → wait_for_original s ≡ (ok status, t)
      → retry_loop client (suc k) tx tx s ≡ (ok tt, t)
  unfolding retry_loop
  loop_mined k status s t p = rw p

  loop_failed :
      (k : ℕ) (s t : World W) (e : Error)
      → wait_for_original s ≡ (err e, t)
      → is_deadline_exceeded e ≡ false
      → retry_loop client (suc k) tx tx s ≡ (err e, t)
  unfolding retry_loop
  loop_failed k s t e p d = ground (arith, p, d)

  loop_not_sped_up :
      (k : ℕ) (s t u : World W) (e x : Error)
      → wait_for_original s ≡ (err e, t)
      → is_deadline_exceeded e ≡ true
      → speed_up client tx tx t ≡ (err x, u)
      → retry_loop client (suc k) tx tx s ≡ (err x, u)
  unfolding retry_loop
  loop_not_sped_up k s t u e x p d q = ground (arith, p, d, q)

  loop_next :
      (k : ℕ) (s t u : World W) (e : Error)
      → wait_for_original s ≡ (err e, t)
      → is_deadline_exceeded e ≡ true
      → speed_up client tx tx t ≡ (ok tt, u)
      → retry_loop client (suc k) tx tx s ≡ retry_loop client k tx tx u
  unfolding retry_loop
  loop_next k s t u e p d q = ground (arith, p, d, q)

  moved :
      (k : ℕ) (s u s' : World W) (r x : Result (Unit {0}))
      → ◌≡◌ {A = Result (Unit {0}) × World W} (x, u) (r, s')
      → Ends k s x u
      → Ends k s r s'
  moved k s u s' r x h e = subst₂ (λ a b. Ends k s a b) (ap (λ p. p.0) h) (ap (λ p. p.1) h) e

  retry_loop-Ends :
      (k : ℕ) (s s' : World W) (r : Result (Unit {0}))
      → retry_loop client k tx tx s ≡ (r, s')
      → Ends k s r s'
  retry_loop-Ends zero s s' r h =
      moved zero s s s' r (err transaction_still_pending) (unfold retry_loop in h)
        (inr (refl, no_round))
  retry_loop-Ends (suc k) s s' r h = elim (outcome-cases (wait_for_original s)) [
    | inl (status, t, p) ↦
        moved (suc k) s t s' r (ok tt) (sym (loop_mined k status s t p) ∙ h)
          (left_at_once k s t (ok tt) (was_mined status p))
    | inr (e, t, p) ↦ elim (Bool-cases (is_deadline_exceeded e)) [
      | inr d ↦
          moved (suc k) s t s' r (err e) (sym (loop_failed k s t e p d) ∙ h)
            (left_at_once k s t (err e) (wait_failed e p d))
      | inl d ↦ elim (outcome-cases (speed_up client tx tx t)) [
        | inl (_, u, q) ↦
            later k s t u s' r e p d q
              (retry_loop-Ends k u s' r (sym (loop_next k s t u e p d q) ∙ h))
        | inr (x, u, q) ↦
            moved (suc k) s u s' r (err x) (sym (loop_not_sped_up k s t u e x p d q) ∙ h)
              (left_at_once k s u (err x) (speed_up_failed e x t p d q))
      ]
    ]
  ]

  priced_lem :
      (price : ℕ) (s : World W)
      → tx.gas_price ≡ some price
      → wait_for_transaction_and_retry_if_needed client tx s ≡ retry_loop client 10 tx tx s
  unfolding wait_for_transaction_and_retry_if_needed log_price
  priced_lem price s priced = rw priced

  -- For a transaction with a price, `waitForTransactionAndRetryIfNeeded` only ever waits for the
  -- transaction it was given, also after it has sent others with higher prices: it succeeds exactly
  -- with a wait for that transaction that gives a receipt, of whatever status, after fewer than ten
  -- rounds in which the wait timed out; it gives the error of a wait or of speeding up; or after ten
  -- timeouts it gives `ErrTransactionStillPending`.
  pub wait_for_transaction_and_retry_if_needed-Ends :
      (price : ℕ) (s s' : World W) (r : Result (Unit {0}))
      → tx.gas_price ≡ some price
      → wait_for_transaction_and_retry_if_needed client tx s ≡ (r, s')
      → Ends 10 s r s'
  wait_for_transaction_and_retry_if_needed-Ends price s s' r priced h =
      retry_loop-Ends 10 s s' r (sym (priced_lem price s priced) ∙ h)
