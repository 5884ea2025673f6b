-- ===== src/Cmd/QueryOutput.antt =====
-- cmd/blobstream/query/cmd.go: what the queries of signers print, computed from the confirms.
pub mod Reports
pub mod Agrees
use orchestrator_relayer.Prelude.{
  ℕ, ◌+◌, ◌%◌, ◌^◌, Bool, true, false, List, [], ◌∷◌, Option, none, some, Bytes, leb, Map, lookup,
  put,
}
use orchestrator_relayer.Types.Confirms.{ValsetConfirm, DataCommitmentConfirm}
use orchestrator_relayer.Types.Valsets.{BridgeValidator, Valset}

pub record ValidatorInfo : Type 0 where
  pub evm_address : Bytes
  pub moniker : Bytes
  pub valop_address : Bytes

pub record Signature : Type 0 where
  pub evm_address : Bytes
  pub moniker : Bytes
  pub signature : Bytes
  pub signed : Bool
  pub valop_address : Bytes

pub record QueryOutput : Type 0 where
  pub signatures : List Signature
  pub nonce : ℕ
  pub majority_threshold : ℕ
  pub current_threshold : ℕ
  pub can_relay : Bool

module _ {C : Type 0} (eth_address signature : C → Bytes) where
  -- the loop over the confirms
  unfoldable pub fill_confirms_map : List C → Map Bytes → Map Bytes
  fill_confirms_map [] confirms_map = confirms_map
  fill_confirms_map (c ∷ cs) confirms_map =
      fill_confirms_map cs (put (eth_address c) (signature c) confirms_map)

unfoldable pub to_valset_confirms_map : List ValsetConfirm → Map Bytes
to_valset_confirms_map confirms =
    fill_confirms_map (λ c. c.eth_address) (λ c. c.signature) confirms []

unfoldable pub to_data_commitment_confirms_map : List DataCommitmentConfirm → Map Bytes
to_data_commitment_confirms_map confirms =
    fill_confirms_map (λ c. c.eth_address) (λ c. c.signature) confirms []

-- `validatorsInfo[address]`, the zero value where there is none
unfoldable pub info_of : Option ValidatorInfo → ValidatorInfo
info_of none = record { evm_address = []; moniker = []; valop_address = [] }
info_of (some info) = info

module _ (confirms_map : Map Bytes) (validators_info : Map ValidatorInfo) where
  -- one round of the loop over the members, with the threshold so far
  unfoldable pub to_signature : BridgeValidator → Option Bytes → Signature
  to_signature val (some sig) = record {
    evm_address = val.evm_address;
    signature = sig;
    signed = true;
    moniker = (info_of (lookup val.evm_address validators_info)).moniker;
    valop_address = (info_of (lookup val.evm_address validators_info)).valop_address;
  }
  to_signature val none = record {
    evm_address = val.evm_address;
    signature = [];
    signed = false;
    moniker = (info_of (lookup val.evm_address validators_info)).moniker;
    valop_address = (info_of (lookup val.evm_address validators_info)).valop_address;
  }

  unfoldable pub add_power : BridgeValidator → Option Bytes → ℕ → ℕ
  add_power val (some sig) curr_threshold = (curr_threshold + val.power) % 2 ^ 64
  add_power val none curr_threshold = curr_threshold

  unfoldable pub fill_signatures : List BridgeValidator → ℕ → List Signature × ℕ
  fill_signatures [] curr_threshold = ([], curr_threshold)
  fill_signatures (val ∷ members) curr_threshold =
      let found = lookup val.evm_address confirms_map in
      let (signatures, total) = fill_signatures members (add_power val found curr_threshold) in
      (to_signature val found ∷ signatures, total)

  -- `two_thirds_threshold` is celestia-app's
  unfoldable pub to_query_output : (Valset → ℕ) → ℕ → Valset → QueryOutput
  to_query_output two_thirds_threshold nonce last_valset =
      let (signatures, curr_threshold) = fill_signatures last_valset.members 0 in
      record {
        signatures = signatures;
        nonce = nonce;
        majority_threshold = two_thirds_threshold last_valset;
        current_threshold = curr_threshold;
        can_relay = leb (two_thirds_threshold last_valset) curr_threshold;
      }
