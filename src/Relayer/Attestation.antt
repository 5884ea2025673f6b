-- ===== src/Relayer/Attestation.antt =====
-- relayer/relayer.go: `ProcessAttestation` and what it calls. celestia-app's hashes and thresholds are
-- parameters.
pub mod Authentic
pub mod Relayed
pub mod Submitted
pub mod Commitments
use orchestrator_relayer.Prelude.{
  ℕ, ◌+◌, ◌%◌, ◌^◌, Bool, true, false, List, [], ◌∷◌, Option, none, some, Bytes, str_eq, ◌==◌, drop,
  if◌then◌else◌,
}
use orchestrator_relayer.Effect.{
  Error, validator_set_mismatch, unknown_attestation_type, panicked, Result, ok, err, World, Go,
  pure, fail, lift, query, attempt, continue, ◌>>=◌, ◌>>◌,
}
use orchestrator_relayer.Std.Hex.{decode}
use orchestrator_relayer.Types.Confirms.{
  ValsetConfirm, DataCommitmentConfirm, TupleRootCrypto, data_commitment_tuple_root_sign_bytes,
}
use orchestrator_relayer.Types.Valsets.{
  Valset, DataCommitment, Attestation, valset, data_commitment, other, get_nonce, LatestValset,
  to_valset,
}
use orchestrator_relayer.Evm.Geth.{Geth}
use orchestrator_relayer.Evm.Transactions.{Signature}
use orchestrator_relayer.Evm.Client
use orchestrator_relayer.Evm.Client.{Tx, Contract}
use orchestrator_relayer.P2p.Dht.{IpfsDht, Codecs, Event}
use orchestrator_relayer.P2p.Querier.{
  query_latest_valset, query_two_thirds_valset_confirms, query_two_thirds_data_commitment_confirms,
}
use orchestrator_relayer.Rpc.AppQuerier.{
  QueryClient, query_last_valset_before_nonce, query_recursive_historical_last_valset_before_nonce,
}
use orchestrator_relayer.Rpc.TmQuerier.{TmClient, query_commitment, query_height}
use orchestrator_relayer.Relayer.Signatures.{
  sigs_map, match_attestation_confirm_sigs, SignatureStore, save_valset_signatures_to_store,
  save_data_commitment_signatures_to_store,
}

pub record Relayer (W : Type 0) : Type 0 where
  pub app_querier : QueryClient W
  pub tm_querier : TmClient W
  pub dht : IpfsDht W
  pub codecs : Codecs
  pub geth : Geth
  pub contract : Contract W
  pub signature_store : SignatureStore W
  pub sign_bytes : Valset → Result Bytes
  pub valset_hash : Valset → Result Bytes
  pub two_thirds_threshold : Valset → ℕ
  pub crypto : TupleRootCrypto
  -- `HexBytes.String` and `HexToHash`
  pub hex_bytes_string : Bytes → Bytes
  pub hex_to_hash : Bytes → Bytes

unfoldable pub root_or_panic : Option Bytes → Result Bytes
root_or_panic none = err panicked
root_or_panic (some hash) = ok hash

module _ {W : Type 0} (relayer : Relayer W) where
  open relayer use {
    app_querier, tm_querier, dht, codecs, geth, contract, signature_store, two_thirds_threshold,
  }

  unfoldable pub authenticated : Valset → Bytes → Bytes → Go W Valset
  authenticated vs vs_hash contract_hash =
      if str_eq vs_hash contract_hash then pure vs else fail validator_set_mismatch

  unfoldable pub query_valset_from_p2p_network_and_validate_it : Go W Valset
  unfolding authenticated
  query_valset_from_p2p_network_and_validate_it = do
    latest_valset ← query_latest_valset dht codecs
    vs_hash ← lift (relayer.sign_bytes (to_valset latest_valset))
    contract_hash ← Client.state_last_validator_set_checkpoint geth contract
    bz_vs_hash ← lift (decode (drop 2 (geth.hash_hex vs_hash)))
    authenticated (to_valset latest_valset) bz_vs_hash contract_hash

  -- the first lines of `ProcessAttestation`; `none` is the recursive query's fuel
  unfoldable pub query_previous_valset : ℕ → Go W (Option Valset)
  query_previous_valset nonce = do
    r ← attempt (query_last_valset_before_nonce app_querier nonce)
    elim r [
      | ok vs ↦ pure (some vs)
      | err _ ↦ do
        q ← attempt query_valset_from_p2p_network_and_validate_it
        elim q [
          | ok vs ↦ pure (some vs)
          | err _ ↦ do
            current_height ← query_height tm_querier
            query_recursive_historical_last_valset_before_nonce app_querier nonce current_height
        ]
    ]

  unfoldable pub query_current_valset : Valset → Go W Valset
  query_current_valset new_valset =
      if new_valset.nonce == 1
      then pure new_valset
      else query_last_valset_before_nonce app_querier new_valset.nonce

  unfoldable pub update_validator_set : Valset → ℕ → List ValsetConfirm → Go W Tx
  update_validator_set new_valset new_threshold confirms = do
    current_valset ← query_current_valset new_valset
    sigs ← lift (
        match_attestation_confirm_sigs geth
          (sigs_map (λ c. c.eth_address) (λ c. c.signature) confirms []) current_valset)
    Client.update_validator_set geth contract relayer.valset_hash new_valset.nonce new_threshold
        current_valset new_valset sigs

  unfoldable pub submit_data_root_tuple_root :
      DataCommitment → Valset → Bytes → List DataCommitmentConfirm → Go W Tx
  submit_data_root_tuple_root att current_valset commitment confirms = do
    sigs ← lift (
        match_attestation_confirm_sigs geth
          (sigs_map (λ c. c.eth_address) (λ c. c.signature) confirms []) current_valset)
    Client.submit_data_root_tuple_root geth contract (relayer.hex_to_hash commitment) att.nonce
        current_valset sigs

  -- What follows a wait: `none` still waits.
  unfoldable pub and_then_await :
      {A B : Type 0} → Option (Result A) × World W → (A → Go W B) → Option (Result B) × World W
  and_then_await (none, s) k = (none, s)
  and_then_await (some r, s) k = let (x, t) = continue r k s in (some x, t)

  -- what a query that failed ends with, or what follows it
  unfoldable pub before_await :
      {A B : Type 0}
      → Result A × World W
      → (A → World W → Option (Result B) × World W)
      → Option (Result B) × World W
  before_await (ok a, s) k = k a s
  before_await (err e, s) k = (some (err e), s)

  unfoldable pub relay_valset :
      Valset → Valset → List Event → World W → Option (Result Tx) × World W
  unfolding and_then_await before_await
  relay_valset att previous_valset events s =
      before_await (lift (relayer.sign_bytes att) s) λ sign_bytes t.
        and_then_await
          (query_two_thirds_valset_confirms dht codecs two_thirds_threshold att.nonce
            previous_valset (geth.hash_hex sign_bytes) events t)
          λ confirms. do
            save_valset_signatures_to_store geth signature_store codecs.valset_confirm
                relayer.sign_bytes att confirms
            update_validator_set att (two_thirds_threshold att) confirms

  unfoldable pub commitment_and_hash : DataCommitment → Go W (Bytes × Bytes)
  unfolding root_or_panic
  commitment_and_hash att = do
    commitment ← query_commitment tm_querier att.begin_block att.end_block
    root ←
        lift (
          root_or_panic (data_commitment_tuple_root_sign_bytes relayer.crypto att.nonce commitment))
    pure (commitment, geth.hash_hex root)

  unfoldable pub relay_data_commitment :
      DataCommitment → Valset → List Event → World W → Option (Result Tx) × World W
  unfolding and_then_await before_await commitment_and_hash
  relay_data_commitment att previous_valset events s =
      before_await (commitment_and_hash att s) λ (commitment, data_root_hash) t.
        and_then_await
          (query_two_thirds_data_commitment_confirms dht codecs two_thirds_threshold previous_valset
            att.nonce data_root_hash events t)
          λ confirms. do
            save_data_commitment_signatures_to_store geth signature_store
                codecs.data_commitment_confirm att data_root_hash confirms
            submit_data_root_tuple_root att previous_valset (relayer.hex_bytes_string commitment)
                confirms

  unfoldable pub relay : Attestation → Valset → List Event → World W → Option (Result Tx) × World W
  unfolding relay_valset relay_data_commitment
  relay (valset att) previous_valset events s = relay_valset att previous_valset events s
  relay (data_commitment att) previous_valset events s =
      relay_data_commitment att previous_valset events s
  relay (other nonce) previous_valset events s = (some (err unknown_attestation_type), s)

  -- `none`: the fuel of the query, or still waiting for the confirms
  unfoldable pub process_attestation :
      Attestation → List Event → World W → Option (Result Tx) × World W
  unfolding relay before_await
  process_attestation att events s =
      before_await (query_previous_valset (get_nonce att) s) λ previous t. elim previous [
        | none ↦ (none, t)
        | some previous_valset ↦ relay att previous_valset events t
      ]
