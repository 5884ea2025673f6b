-- ===== src/Orchestrator/Queues/Missing.antt =====
-- What the queues get.
use orchestrator_relayer.Prelude.{
  ℕ, zero, suc, ◌+◌, ◌-◌, ◌%◌, ◌^◌, ◌≤◌, ◌<◌, ◌≡◌, ◌∙◌, ap, sym, List, [], ◌∷◌, ◌++◌, some, arith,
  replicate, append_assoc, append-nil, if◌then◌else◌, leb,
}
use orchestrator_relayer.Effect.{ok, World}
use orchestrator_relayer.Rpc.AppQuerier.{QueryClient, query_latest_attestation_nonce}
use orchestrator_relayer.Orchestrator.Queues.{
  sent, enqueue_loop, enqueue_missing, requeue_window, requeue_test, maybe_requeue,
}

-- `k` nonces from `n` down
abbrev pub down_from : ℕ → ℕ → List ℕ
down_from n zero = []
down_from n (suc k) = n ∷ down_from (n - 1) k

enqueue_loop-sent :
    (latest k i : ℕ) (queue : List ℕ)
    → latest < 2 ^ 64
    → i + k ≤ latest + 1
    → enqueue_loop latest k i (replicate k sent) queue
      ≡ (some (ok tt), queue ++ down_from (latest - i) k)
unfolding enqueue_loop
enqueue_loop-sent latest zero i queue h b = ap (λ q. (some (ok tt), q)) (sym (append-nil queue))
enqueue_loop-sent latest (suc k) i queue h b =
    let here : (latest + 2 ^ 64 - i) % 2 ^ 64 ≡ latest - i = omega arith in
    let next : latest - (i + 1) ≡ latest - i - 1 = omega arith in
    enqueue_loop-sent latest k (i + 1) (queue ++ (latest + 2 ^ 64 - i) % 2 ^ 64 ∷ []) h
      (omega arith)
    ∙ ap (λ q. (some (ok tt), q))
        (rw (here, next) (append_assoc queue ((latest - i) ∷ []) (down_from (latest - i - 1) k)))

-- For nonces of 64 bits with the earliest not above the latest, except for the earliest 0 with the
-- latest 2 ^ 64 - 1, where nothing stops the loop, it ends and the queue gets each nonce from the latest
-- down to the earliest, once and in that order.
pub enqueue_missing-down_from :
    (latest earliest : ℕ) (queue : List ℕ)
    → latest < 2 ^ 64
    → earliest ≤ latest
    → latest - earliest < 2 ^ 64 - 1
    → enqueue_missing latest earliest (replicate (latest - earliest + 1) sent) queue
      ≡ (some (ok tt), queue ++ down_from latest (latest - earliest + 1))
unfolding enqueue_missing
enqueue_missing-down_from latest earliest queue h le fits =
    let rounds : (latest + 2 ^ 64 - earliest + 1) % 2 ^ 64 ≡ latest - earliest + 1 = omega arith in
    let start : latest - 0 ≡ latest = omega arith in
    rw rounds (
      enqueue_loop-sent latest (latest - earliest + 1) 0 queue h (omega arith)
      ∙ ap (λ n. (some (ok tt), queue ++ down_from n (latest - earliest + 1))) start)

requeue_test_window :
    (latest nonce : ℕ)
    → latest < 2 ^ 64
    → requeue_test latest nonce ≡ leb latest (nonce + requeue_window)
unfolding requeue_test
requeue_test_window latest nonce h = ground arith

module _ {W : Type 0} (client : QueryClient W) (queue : List ℕ) (nonce : ℕ) (s t : World W) where
  maybe_requeue_answered :
      (latest : ℕ)
      → query_latest_attestation_nonce client s ≡ (ok latest, t)
      → maybe_requeue client queue nonce s
        ≡ (ok (if requeue_test latest nonce then queue ++ nonce ∷ [] else queue), t)
  maybe_requeue_answered latest p = unfold maybe_requeue in rw p

  -- Where the app answers with a latest nonce of 64 bits, a failed nonce is put at the end of the
  -- requeue queue exactly if it is not more than the window below the latest one.
  pub maybe_requeue_window :
      (latest : ℕ)
      → query_latest_attestation_nonce client s ≡ (ok latest, t)
      → latest < 2 ^ 64
      → maybe_requeue client queue nonce s
        ≡ (ok (if leb latest (nonce + requeue_window) then queue ++ nonce ∷ [] else queue), t)
  maybe_requeue_window latest p h =
      maybe_requeue_answered latest p
      ∙ ap (λ b. (ok (if b then queue ++ nonce ∷ [] else queue), t))
          (requeue_test_window latest nonce h)
