-- ===== src/Relayer/Loop.antt =====
-- relayer/relayer.go: `processFunc` of `Start`, round by round. Its loop is given the events of the
-- waits for confirms, a list for each round.
pub mod Rounds
use orchestrator_relayer.Prelude.{
  ℕ, ◌+◌, ◌%◌, ◌^◌, Bool, true, false, not, ◌&&◌, List, [], ◌∷◌, Option, none, some, leb,
  if◌then◌else◌,
}
use orchestrator_relayer.Effect.{
  Error, sleep_for, Result, ok, err, World, Go, pure, found_or_fail, query, ◌>>=◌, ◌>>◌,
}
use orchestrator_relayer.Types.Valsets.{Attestation}
use orchestrator_relayer.Evm.Client.{state_last_event_nonce}
use orchestrator_relayer.Evm.Deployment.{Node, ClientConfig, new_transaction_opts}
use orchestrator_relayer.P2p.Dht.{Event}
use orchestrator_relayer.Rpc.AppQuerier.{query_latest_attestation_nonce, query_attestation_by_nonce}
use orchestrator_relayer.Relayer.Wait.{EthClient, wait_for_transaction_and_retry_if_needed}
use orchestrator_relayer.Relayer.Attestation.{
  Relayer, process_attestation, before_await, and_then_await,
}

-- How a round ends: `processFunc` returns, goes on, or still waits for confirms. The flag is
-- `backupRelayerShouldRelay`.
pub data RoundEnd : Type 0 where
  returned : Result (Unit {0}) → Bool → RoundEnd
  again : Bool → RoundEnd
  waiting : RoundEnd

-- What `Start` has besides the relayer: the dialled node, what `NewTransactionOpts` uses, and sleeping.
pub record Starting (W : Type 0) : Type 0 where
  pub relayer : Relayer W
  pub client : EthClient W
  pub is_backup_relayer : Bool
  pub backup_relayer_wait_time : ℕ
  pub node : Node W ℕ
  pub config : ClientConfig
  pub sleep : ℕ → W → W

module _ {W : Type 0} (start : Starting W) where
  open start use {relayer, client, node, config, is_backup_relayer, backup_relayer_wait_time}

  -- the attestation behind the contract's nonce, and the transaction's options
  unfoldable pub query_next : ℕ → Go W Attestation
  query_next last_contract_nonce = do
    o ← query_attestation_by_nonce relayer.app_querier ((last_contract_nonce + 1) % 2 ^ 64)
    att ← found_or_fail o
    new_transaction_opts node config
    pure att

  unfoldable pub relay_next : ℕ → List Event → World W → Option (Result (Unit {0})) × World W
  relay_next last_contract_nonce events s =
      before_await relayer (query_next last_contract_nonce s) λ att t.
        and_then_await relayer (process_attestation relayer att events t)
          λ tx. wait_for_transaction_and_retry_if_needed client tx

  unfoldable pub after_relay : Bool → Option (Result (Unit {0})) × World W → RoundEnd × World W
  after_relay flag (none, s) = (waiting, s)
  after_relay flag (some (ok _), s) = (again (if is_backup_relayer then false else flag), s)
  after_relay flag (some (err e), s) = (returned (err e) flag, s)

  unfoldable pub slept : World W → World W
  slept s = record {
    ext = start.sleep backup_relayer_wait_time s.ext;
    calls = sleep_for backup_relayer_wait_time ∷ s.calls;
  }

  unfoldable pub query_nonces : Go W (ℕ × ℕ)
  query_nonces = do
    last ← state_last_event_nonce relayer.geth relayer.contract
    latest ← query_latest_attestation_nonce relayer.app_querier
    pure (last, latest)

  unfoldable pub after_nonces : Bool → List Event → Result (ℕ × ℕ) × World W → RoundEnd × World W
  after_nonces flag events (err e, s) = (returned (err e) flag, s)
  after_nonces flag events (ok (last, latest), s) =
      if leb latest last
      then (returned (ok tt) flag, s)
      else if is_backup_relayer && not flag
      then (again true, slept s)
      else after_relay flag (relay_next last events s)

  unfoldable pub unless_done : Bool → List Event → World W → Option Error × W → RoundEnd × World W
  unless_done flag events s (some e, w) = (returned (err e) flag, record s { ext = w })
  unless_done flag events s (none, w) =
      after_nonces flag events (query_nonces (record s { ext = w }))

  unfoldable pub process_round : Bool → List Event → World W → RoundEnd × World W
  process_round flag events s = unless_done flag events s (relayer.app_querier.ctx_err s.ext)

  -- `none`: it still waits in a round, or goes on with another one
  unfoldable pub process_func :
      Bool → List (List Event) → World W → Option (Result (Unit {0}) × Bool) × World W
  process_func flag [] s = (none, s)
  process_func flag (events ∷ rounds) s =
      let (end, s') = process_round flag events s in
      elim end [
        | waiting ↦ (none, s')
        | returned r flag' ↦ (some (r, flag'), s')
        | again flag' ↦ process_func flag' rounds s'
      ]
