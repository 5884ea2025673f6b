-- ===== src/Tests/History.antt =====
-- rpc/app_querier.go at concrete inputs.
use orchestrator_relayer.Prelude.{
  ℕ, ◌≡◌, refl, arith, [], ◌∷◌, Option, some, none, Bytes, leb, if◌then◌else◌,
}
use orchestrator_relayer.Effect.{foreign, Result, ok, err}
use orchestrator_relayer.Types.Valsets.{Valset, Attestation, valset}
use orchestrator_relayer.Rpc.AppQuerier.{
  QueryClient, as_valset, historical_attestation_loop, last_valset_loop,
  query_recursive_historical_attestation_by_nonce,
  query_recursive_historical_last_valset_before_nonce,
}
use orchestrator_relayer.Rpc.AppQuerier.Recursive.{
  Answers, IsVisited, query_recursive_historical_attestation_by_nonce-Answers,
}
use orchestrator_relayer.Rpc.AppQuerier.LastValset.{
  IsLastValset, query_recursive_historical_last_valset_before_nonce-IsLastValset,
}
use orchestrator_relayer.Tests.Fixtures.{app, start, unpack, valset_of}

-- A node that answers at heights up to 100 only.
unfoldable at_height : Option ℕ → ℕ → Result (Option Bytes)
at_height none nonce = err (foreign 0)
at_height (some h) nonce = if leb h 100 then ok (some (nonce ∷ [])) else err (foreign 0)

abbrev pruned : QueryClient (Unit {0})
pruned = record app { attestation_request_by_nonce = λ h nonce w. (at_height h nonce, w) }

found_below :
    query_recursive_historical_attestation_by_nonce pruned 4 250 start
    ≡ (ok (some (some (valset (valset_of 4)))), start)
unfolding query_recursive_historical_attestation_by_nonce historical_attestation_loop at_height
    unpack
found_below = refl

query_recursive_historical_attestation_by_nonce-Answers_example :
    (att : Option Attestation) × (some (some (valset (valset_of 4))) ≡ some att)
    × ((h : ℕ) × IsVisited pruned 250 h × Answers pruned 4 h att)
query_recursive_historical_attestation_by_nonce-Answers_example =
    query_recursive_historical_attestation_by_nonce-Answers pruned 4 250 start start
      (some (some (valset (valset_of 4)))) (omega arith) found_below

last_found :
    query_recursive_historical_last_valset_before_nonce pruned 4 250 start
    ≡ (ok (some (valset_of 3)), start)
unfolding query_recursive_historical_last_valset_before_nonce last_valset_loop
    query_recursive_historical_attestation_by_nonce historical_attestation_loop at_height unpack
    as_valset
last_found = refl

query_recursive_historical_last_valset_before_nonce-IsLastValset_example :
    (vs : Valset) × (some (valset_of 3) ≡ some vs) × IsLastValset pruned 250 3 vs
query_recursive_historical_last_valset_before_nonce-IsLastValset_example =
    query_recursive_historical_last_valset_before_nonce-IsLastValset pruned 250 3 start start
      (some (valset_of 3)) (omega arith) (omega arith) last_found
