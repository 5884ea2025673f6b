-- ===== src/Orchestrator/Process.antt =====
-- orchestrator/orchestrator.go: `Process` and what it calls. What the modules below prove of it: which
-- calls it makes, and on which branches.
pub mod Published
pub mod Signed
pub mod Outcome
use orchestrator_relayer.Prelude.{
  ℕ, Bool, true, false, List, [], ◌∷◌, Option, none, some, Bytes, ◌==◌, str_eq, if◌then◌else◌,
}
use orchestrator_relayer.Effect.{
  attestation_not_found, unknown_attestation_type, panicked, Result, ok, err, Go, pure, fail, lift,
  attempt, ◌>>=◌, ◌>>◌,
}
use orchestrator_relayer.Std.Hex.{encode}
use orchestrator_relayer.Types.Confirms.{
  TupleRootCrypto, new_valset_confirm, new_data_commitment_confirm,
  data_commitment_tuple_root_sign_bytes,
}
use orchestrator_relayer.Types.Valsets.{
  BridgeValidator, Valset, DataCommitment, Attestation, valset, data_commitment, other, get_nonce,
  to_latest_valset,
}
use orchestrator_relayer.Evm.Geth.{Geth}
use orchestrator_relayer.Evm.Signature.{KeyStore, new_ethereum_signature}
use orchestrator_relayer.P2p.Dht.{IpfsDht, Codecs}
use orchestrator_relayer.P2p.Querier.{
  query_valset_confirm_by_evm_address, query_data_commitment_confirm_by_evm_address,
}
use orchestrator_relayer.Rpc.AppQuerier.{
  QueryClient, query_attestation_by_nonce, query_last_valset_before_nonce,
}
use orchestrator_relayer.Rpc.TmQuerier.{TmClient, query_commitment}
use orchestrator_relayer.Orchestrator.Broadcaster.{
  provide_data_commitment_confirm, provide_valset_confirm, provide_latest_valset,
}

-- The orchestrator's fields; `sign_bytes` is celestia-app's `Valset.SignBytes`, and a nil keystore is
-- `none`.
pub record Orchestrator (W : Type 0) : Type 0 where
  pub geth : Geth
  pub crypto : TupleRootCrypto
  pub sign_bytes : Valset → Result Bytes
  pub evm_key_store : Option (KeyStore W)
  pub evm_account : Bytes
  pub app_querier : QueryClient W
  pub tm_querier : TmClient W
  pub dht : IpfsDht W
  pub codecs : Codecs

unfoldable pub validator_part_of_valset : List BridgeValidator → Bytes → Bool
validator_part_of_valset [] evm_addr = false
validator_part_of_valset (val ∷ members) evm_addr =
    let rest = validator_part_of_valset members evm_addr in
    if str_eq val.evm_address evm_addr then true else rest

module _ {W : Type 0} (orch : Orchestrator W) where
  open orch use {
    geth, crypto, sign_bytes, evm_key_store, evm_account, app_querier, tm_querier, dht, codecs,
  }

  abbrev pub account_hex : Bytes
  account_hex = geth.address_hex evm_account

  unfoldable pub process_valset_event : Valset → Go W (Unit {0})
  process_valset_event vs = do
    attempt (provide_latest_valset dht codecs (to_latest_valset vs))
    digest ← lift (sign_bytes vs)
    signature ← new_ethereum_signature geth digest evm_key_store evm_account
    provide_valset_confirm dht codecs vs.nonce
        (new_valset_confirm geth.address_hex evm_account (encode signature)) (geth.hash_hex digest)

  unfoldable pub process_data_commitment_event : DataCommitment → Bytes → Go W (Unit {0})
  process_data_commitment_event dc data_root_tuple_root = do
    dc_sig ← new_ethereum_signature geth data_root_tuple_root evm_key_store evm_account
    provide_data_commitment_confirm dht codecs dc.nonce
        (new_data_commitment_confirm geth.address_hex (encode dc_sig) evm_account)
        (geth.hash_hex data_root_tuple_root)

  unfoldable pub unless_signed : {C : Type 0} → Option C → Go W (Unit {0}) → Go W (Unit {0})
  unless_signed (some _) rest = pure tt
  unless_signed none rest = rest

  root_or_panic : Option Bytes → Result Bytes
  root_or_panic none = err panicked
  root_or_panic (some hash) = ok hash

  -- the `switch` over the attestation's type
  unfoldable pub sign_attestation : ℕ → Attestation → Go W (Unit {0})
  unfolding unless_signed root_or_panic
  sign_attestation nonce (valset att) = do
    digest ← lift (sign_bytes att)
    resp ← query_valset_confirm_by_evm_address dht codecs nonce account_hex (geth.hash_hex digest)
    unless_signed resp (process_valset_event att)
  sign_attestation nonce (data_commitment att) = do
    commitment ← query_commitment tm_querier att.begin_block att.end_block
    root ← lift (root_or_panic (data_commitment_tuple_root_sign_bytes crypto att.nonce commitment))
    resp ←
        query_data_commitment_confirm_by_evm_address dht codecs att.nonce account_hex
          (geth.hash_hex root)
    unless_signed resp (process_data_commitment_event att root)
  sign_attestation nonce (other n) = fail unknown_attestation_type

  -- with the result of `QueryLastValsetBeforeNonce`: a failed query does not stop the signing
  unfoldable pub if_part_of_valset : ℕ → Attestation → Result Valset → Go W (Unit {0})
  if_part_of_valset nonce att (err _) = sign_attestation nonce att
  if_part_of_valset nonce att (ok previous_valset) =
      if validator_part_of_valset previous_valset.members account_hex
      then (do
        attempt (provide_latest_valset dht codecs (to_latest_valset previous_valset))
        sign_attestation nonce att)
      else pure tt

  unfoldable pub check_and_sign : ℕ → Option Attestation → Go W (Unit {0})
  unfolding if_part_of_valset
  check_and_sign nonce none = fail attestation_not_found
  check_and_sign nonce (some att) = if nonce == 1 then pure tt else (do
    r ← attempt (query_last_valset_before_nonce app_querier (get_nonce att))
    if_part_of_valset nonce att r)

  unfoldable pub process : ℕ → Go W (Unit {0})
  unfolding check_and_sign
  process nonce = do att ← query_attestation_by_nonce app_querier nonce; check_and_sign nonce att
