-- ===== src/Evm/Client.antt =====
-- evm/evm_client.go. The contract's wrapper and the EVM node are parameters.
use orchestrator_relayer.Prelude.{ℕ, true, false, List, [], ◌∷◌, Option, Bytes, ◌==◌, if◌then◌else◌}
use orchestrator_relayer.Effect.{
  Error, foreign, contract_update_validator_set, contract_submit_root, wait_mined, Result, ok, err,
  Go, lift, query, call, ◌>>=◌,
}
use orchestrator_relayer.Types.Valsets.{BridgeValidator, Valset}
use orchestrator_relayer.Evm.Geth.{Geth}
use orchestrator_relayer.Evm.Transactions.{Signature}

-- A transaction: its hash, and its prices, nil where it has none.
pub record Tx : Type 0 where
  pub hash : Bytes
  pub gas_price : Option ℕ
  pub gas_tip_cap : Option ℕ
  pub gas_fee_cap : Option ℕ

-- `blobstreamwrapper.Validator`
pub record Validator : Type 0 where
  pub addr : Bytes
  pub power : ℕ

-- The contract's methods; the nonces, the threshold and the powers are handed over as int64 with the
-- same bits.
pub record Contract (W : Type 0) : Type 0 where
  pub update_validator_set : ℕ → ℕ → ℕ → Bytes → List Validator → List Signature → W → Result Tx × W
  pub submit_data_root_tuple_root :
      ℕ → ℕ → Bytes → List Validator → List Signature → W → Result Tx × W
  pub state_event_nonce : W → Result ℕ × W
  pub state_last_validator_set_checkpoint : W → Result Bytes × W

-- `errors.New("invalid ethereum address found in validator set")`
abbrev pub invalid_ethereum_address : Error
invalid_ethereum_address = foreign 0

module _ (geth : Geth) where
  unfoldable pub eth_members : List BridgeValidator → Result (List Validator)
  eth_members [] = ok []
  eth_members (m ∷ ms) = elim (geth.is_hex_address m.evm_address) [
    | false ↦ err invalid_ethereum_address
    | true ↦ elim (eth_members ms) [
      | err e ↦ err e
      | ok vs ↦ ok (record { addr = geth.hex_to_address m.evm_address; power = m.power } ∷ vs)
    ]
  ]

  unfoldable pub eth_valset : Valset → Result (List Validator)
  unfolding eth_members
  eth_valset valset = eth_members valset.members

  module _ {W : Type 0} (contract : Contract W) where
    -- `hash` is celestia-app's `Valset.Hash`
    unfoldable pub update_validator_set :
        (Valset → Result Bytes) → ℕ → ℕ → Valset → Valset → List Signature → Go W Tx
    update_validator_set hash new_nonce new_threshold current_valset new_valset sigs = do
      eth_vals ← lift (eth_valset current_valset)
      eth_vs_hash ← lift (hash new_valset)
      let current_nonce = if new_valset.nonce == 1 then 0 else current_valset.nonce
      call (contract_update_validator_set new_nonce current_nonce new_threshold) (
          contract.update_validator_set new_nonce current_nonce new_threshold eth_vs_hash eth_vals
            sigs)

    unfoldable pub submit_data_root_tuple_root : Bytes → ℕ → Valset → List Signature → Go W Tx
    submit_data_root_tuple_root tuple_root new_nonce current_valset sigs = do
      eth_vals ← lift (eth_valset current_valset)
      call (contract_submit_root new_nonce current_valset.nonce tuple_root) (
          contract.submit_data_root_tuple_root new_nonce current_valset.nonce tuple_root eth_vals
            sigs)

    unfoldable pub state_last_event_nonce : Go W ℕ
    state_last_event_nonce = query contract.state_event_nonce

    unfoldable pub state_last_validator_set_checkpoint : Go W Bytes
    state_last_validator_set_checkpoint = query contract.state_last_validator_set_checkpoint

-- `bind.WaitMined` under the timeout gives the receipt's status. The status only decides what is
-- logged: the receipt and the error are returned as they are.
unfoldable pub wait_for_transaction : {W : Type 0} → (Tx → W → Result ℕ × W) → Tx → Go W ℕ
wait_for_transaction mined tx = call (wait_mined tx.hash) (mined tx)
