-- ===== src/Tests/Rounds.antt =====
-- The rounds of relayer/relayer.go at concrete inputs.
use orchestrator_relayer.Prelude.{◌≡◌, refl, ℕ, true, false, List, [], ◌∷◌, ◌+◌, some, none}
use orchestrator_relayer.Effect.{invalid, ok, err, World}
use orchestrator_relayer.Evm.Client.{state_last_event_nonce}
use orchestrator_relayer.P2p.Dht.{Event}
use orchestrator_relayer.Rpc.AppQuerier.{
  query_latest_attestation_nonce, query_attestation_by_nonce, unpack_response,
}
use orchestrator_relayer.Relayer.Wait.{EthClient}
use orchestrator_relayer.Relayer.Attestation.{before_await}
use orchestrator_relayer.Evm.Deployment.{new_transaction_opts}
use orchestrator_relayer.Relayer.Loop.{
  Starting, query_next, relay_next, after_relay, slept, query_nonces, after_nonces, unless_done,
  process_round, process_func,
}
use orchestrator_relayer.Relayer.Loop.Rounds.{Rounds, Last, bit, process_func-backup_sleeps}
use orchestrator_relayer.Tests.Fixtures.{start, unpack}
use orchestrator_relayer.Tests.Relaying.{relayer}

abbrev node : EthClient (Unit {0})
node = record {
  mined = λ _ w. (ok 1, w);
  suggest_gas_price = λ w. (ok 20, w);
  suggest_gas_tip_cap = λ w. (ok 1, w);
  header_base_fee = λ w. (ok none, w);
  new_legacy_tx = λ t price. t;
  new_dynamic_tx = λ t tip fee. t;
  signer = λ t w. (ok t, w);
  send = λ _ w. (ok tt, w);
}

-- a backup relayer, whose account cannot make transactions
abbrev backup : Starting (Unit {0})
backup = record {
  relayer = relayer;
  client = node;
  is_backup_relayer = true;
  backup_relayer_wait_time = 900;
  node = record {
    dial = λ _ w. (ok 1, w);
    pending_nonce_at = λ _ _ w. (ok 5, w);
    chain_id = λ _ w. (ok 1, w);
    new_transactor = λ _ _. err invalid;
  };
  config = record { acc = 1 ∷ []; evm_rpc = []; gas_limit = 2500000 };
  sleep = λ _ w. w;
}

abbrev two_rounds : List (List Event)
two_rounds = [] ∷ [] ∷ []

abbrev after_rounds : World (Unit {0})
after_rounds = (process_func backup false two_rounds start).1

-- it sleeps in the first round, and fails in the second
stops : process_func backup false two_rounds start ≡ (some (err invalid, true), after_rounds)
unfolding process_func process_round unless_done after_nonces query_nonces state_last_event_nonce
    query_latest_attestation_nonce slept after_relay relay_next query_next new_transaction_opts
    before_await query_attestation_by_nonce unpack_response unpack
stops = refl

process_func-backup_sleeps_example :
    (k n : ℕ) × (t : World (Unit {0})) × Rounds backup false start k n true t
    × Last backup true t (err invalid) after_rounds
    × (k ≡ n + bit backup true)
process_func-backup_sleeps_example =
    process_func-backup_sleeps backup two_rounds start (err invalid) true after_rounds refl stops
