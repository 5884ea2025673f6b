-- ===== src/Helpers/Retrier.antt =====
-- helpers/retrier.go. Waiting for the timer or the context is a parameter: `wait d` gives the
-- context's error if that comes first.
pub mod Outcomes
use orchestrator_relayer.Prelude.{
  ℕ, zero, suc, ◌+◌, ◌*◌, ◌%◌, ◌^◌, ◌≤◌, ◌<◌, ◌≡◌, refl, sym, ◌∙◌, ◌⊎◌, inl, inr, List, Option,
  none, some, arith,
}
use orchestrator_relayer.Effect.{
  Error, panicked, Result, ok, err, World, Go, outcome-cases, reading-cases,
}

abbrev pub Wait : Type 0 → Type 0
Wait W = ℕ → W → Option Error × W

pub record Retrier : Type 0 where
  pub retries_number : ℕ
  pub base_delay : ℕ  -- in nanoseconds

-- `1 << retryCount * r.baseDelay`: the two operators bind alike, to the left; an int64 wraps
unfoldable pub next_tick : Retrier → ℕ → ℕ
next_tick r retry_count = 2 ^ retry_count % 2 ^ 64 * r.base_delay % 2 ^ 64

module _ {W : Type 0} (wait : Wait W) (r : Retrier) (retry_method : Go W (Unit {0})) where
  -- the rounds left, the round's number, and `err` so far
  unfoldable pub retry_loop : ℕ → ℕ → Result (Unit {0}) → Go W (Unit {0})
  retry_loop zero i last s = (last, s)
  retry_loop (suc k) i last s =
      let (done, w) = wait (next_tick r i) s.ext in
      let s' : World W = record s { ext = w } in
      elim done [
        | some e ↦ (err e, s')
        | none ↦
            let (result, t) = retry_method s' in
            elim result [ ok _ ↦ (ok tt, t) | err e ↦ retry_loop k (i + 1) (err e) t ]
      ]

  unfoldable pub retry : Go W (Unit {0})
  unfolding retry_loop
  retry = retry_loop r.retries_number 0 (ok tt)

  pub retry_then_fail : Go W (Unit {0})
  retry_then_fail s =
      let (result, s') = retry s in elim result [ ok _ ↦ (ok tt, s') | err _ ↦ (err panicked, s') ]
