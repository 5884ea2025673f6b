-- ===== src/Helpers/Retrier/Outcomes.antt =====
-- The ways in which `Retry` ends.
use mathlib.Core.Path.{subst₂}
use native.Mathlib.Nat.{add-zero}
use orchestrator_relayer.Prelude.{
  ℕ, zero, suc, ◌+◌, ◌<◌, ◌≡◌, sym, ap, ◌∙◌, ◌⊎◌, inl, inr, none, some, arith,
}
use orchestrator_relayer.Effect.{Error, Result, ok, err, World, Go, outcome-cases, reading-cases}
use orchestrator_relayer.Helpers.Retrier.{Wait, Retrier, next_tick, retry_loop, retry}

module _ {W : Type 0} (wait : Wait W) (r : Retrier) (retry_method : Go W (Unit {0})) where
  -- From round `i` on, and from an error `last` so far, the method failed `k` times, each time after
  -- the delay of its round; the error so far is then the last one.
  pub data Failed : ℕ → ℕ → World W → Result (Unit {0}) → World W → Result (Unit {0}) → Type 0 where
    none_yet : {i : ℕ} {s : World W} {last : Result (Unit {0})} → Failed i zero s last s last
    once_more :
        {i k : ℕ} {s u : World W} {last final : Result (Unit {0})} (w : W) (t : World W) (e : Error)
        → wait (next_tick r i) s.ext ≡ (none, w)
        → retry_method (record s { ext = w }) ≡ (err e, t)
        → Failed (i + 1) k t (err e) u final
        → Failed i (suc k) s last u final

  -- After some failures, fewer than the rounds, the method succeeds.
  pub record Succeeds (i k : ℕ) (s : World W) (last : Result (Unit {0})) (s' : World W)
      : Type 0 where
    pub failures : ℕ
    pub in_time : failures < k
    pub reached : World W
    pub so_far : Result (Unit {0})
    pub failed : Failed i failures s last reached so_far
    pub now : W
    pub waited : wait (next_tick r (i + failures)) reached.ext ≡ (none, now)
    pub succeeded : retry_method (record reached { ext = now }) ≡ (ok tt, s')

  -- After some failures, fewer than the rounds, the context ends a delay with `e`.
  pub record Cancels (i k : ℕ) (s : World W) (last : Result (Unit {0})) (e : Error) (s' : World W)
      : Type 0 where
    pub failures : ℕ
    pub in_time : failures < k
    pub reached : World W
    pub so_far : Result (Unit {0})
    pub failed : Failed i failures s last reached so_far
    pub now : W
    pub cancelled : wait (next_tick r (i + failures)) reached.ext ≡ (some e, now)
    pub world_eq : s' ≡ record reached { ext = now }

  abbrev pub Ends : ℕ → ℕ → World W → Result (Unit {0}) → Result (Unit {0}) → World W → Type 0
  Ends i k s last result s' =
      (result ≡ ok tt) × Succeeds i k s last s'
      ⊎ ((e : Error) × (result ≡ err e) × Cancels i k s last e s')
      ⊎ Failed i k s last s' result

  retry_loop_succeeds :
      (k i : ℕ) (last : Result (Unit {0})) (s t : World W) (w : W)
      → wait (next_tick r i) s.ext ≡ (none, w)
      → retry_method (record s { ext = w }) ≡ (ok tt, t)
      → retry_loop wait r retry_method (suc k) i last s ≡ (ok tt, t)
  unfolding retry_loop
  retry_loop_succeeds k i last s t w p q = ground (arith, p, q)

  retry_loop_cancels :
      (k i : ℕ) (last : Result (Unit {0})) (s : World W) (w : W) (e : Error)
      → wait (next_tick r i) s.ext ≡ (some e, w)
      → retry_loop wait r retry_method (suc k) i last s ≡ (err e, record s { ext = w })
  unfolding retry_loop
  retry_loop_cancels k i last s w e p = ground (arith, p)

  retry_loop_fails :
      (k i : ℕ) (last : Result (Unit {0})) (s t : World W) (w : W) (e : Error)
      → wait (next_tick r i) s.ext ≡ (none, w)
      → retry_method (record s { ext = w }) ≡ (err e, t)
      → retry_loop wait r retry_method (suc k) i last s
        ≡ retry_loop wait r retry_method k (i + 1) (err e) t
  unfolding retry_loop
  retry_loop_fails k i last s t w e p q = ground (arith, p, q)

  shift : (i k : ℕ) → i + 1 + k ≡ i + suc k
  shift i k = omega arith

  Ends-later :
      (k i : ℕ) (last : Result (Unit {0})) (s t : World W) (w : W) (e : Error)
      → wait (next_tick r i) s.ext ≡ (none, w)
      → retry_method (record s { ext = w }) ≡ (err e, t)
      → (result : Result (Unit {0})) (s' : World W) → Ends (i + 1) k t (err e) result s'
      → Ends i (suc k) s last result s'
  Ends-later k i last s t w e p q result s' (inl (same, h)) = inl (
    same,
    record {
      failures = suc h.failures;
      in_time = omega (arith, h.in_time);
      reached = h.reached;
      so_far = h.so_far;
      failed = once_more w t e p q h.failed;
      now = h.now;
      waited = rw (← shift i h.failures) h.waited;
      succeeded = h.succeeded;
    },
  )
  Ends-later k i last s t w e p q result s' (inr (inl (x, same, h))) = inr (
      inl (
        x,
        same,
        record {
          failures = suc h.failures;
          in_time = omega (arith, h.in_time);
          reached = h.reached;
          so_far = h.so_far;
          failed = once_more w t e p q h.failed;
          now = h.now;
          cancelled = rw (← shift i h.failures) h.cancelled;
          world_eq = h.world_eq;
        },
      ))
  Ends-later k i last s t w e p q result s' (inr (inr f)) = inr (inr (once_more w t e p q f))

  retry_loop-Ends :
      (k i : ℕ) (last : Result (Unit {0})) (s s' : World W) (result : Result (Unit {0}))
      → retry_loop wait r retry_method k i last s ≡ (result, s')
      → Ends i k s last result s'
  retry_loop-Ends zero i last s s' result h =
      let (p, q) : (last ≡ result) × (s ≡ s') =
        unfold retry_loop in (ap (λ t. t.0) h, ap (λ t. t.1) h) in
      inr (inr (subst₂ (λ t u. Failed i zero s last t u) q p none_yet))
  retry_loop-Ends (suc k) i last s s' result h = elim (reading-cases (wait (next_tick r i) s.ext)) [
    | inr (e, w, p) ↦
        let eq : (err e, record s { ext = w }) ≡ (result, s') =
          sym (retry_loop_cancels k i last s w e p) ∙ h in
        inr (
          inl (
            e,
            sym (ap (λ t. t.0) eq),
            record {
              failures = 0;
              in_time = omega arith;
              reached = s;
              so_far = last;
              failed = none_yet;
              now = w;
              cancelled = rw (add-zero i) p;
              world_eq = sym (ap (λ t. t.1) eq);
            },
          ))
    | inl (w, p) ↦ elim (outcome-cases (retry_method (record s { ext = w }))) [
      | inl (_, t, q) ↦
          let eq : (ok tt, t) ≡ (result, s') = sym (retry_loop_succeeds k i last s t w p q) ∙ h in
          inl (
            sym (ap (λ t. t.0) eq),
            record {
              failures = 0;
              in_time = omega arith;
              reached = s;
              so_far = last;
              failed = none_yet;
              now = w;
              waited = rw (add-zero i) p;
              succeeded = q ∙ ap (λ u. (ok tt, u)) (ap (λ t. t.1) eq);
            },
          )
      | inr (e, t, q) ↦ Ends-later k i last s t w e p q result s' (
          retry_loop-Ends k (i + 1) (err e) t s' result
            (sym (retry_loop_fails k i last s t w e p q) ∙ h))
    ]
  ]

  -- For every retrier and method, `Retry` ends in one of three ways: the method succeeds after fewer
  -- failures than there are retries; the context ends a delay; or the method has failed in all the
  -- retries, each after its delay, and the result is its last error (`nil`, with no retries).
  pub retry-Ends :
      (s s' : World W) (result : Result (Unit {0}))
      → retry wait r retry_method s ≡ (result, s')
      → Ends 0 r.retries_number s (ok tt) result s'
  unfolding retry
  retry-Ends s s' result h = retry_loop-Ends r.retries_number 0 (ok tt) s s' result h
