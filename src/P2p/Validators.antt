-- ===== src/P2p/Validators.antt =====
-- p2p/validators.go: the stateless checks that the DHT runs on a value before it stores it, and
-- the choice among several values. The proofs are in the modules below.
pub mod Selection
pub mod LatestRise
pub mod Soundness
pub mod Completeness
use orchestrator_relayer.Prelude.{
  ℕ, ◌+◌, Bool, not, List, [], ◌∷◌, ◌&&◌, Bytes, codes, length, ltb, take, drop, str_eq,
  if◌then◌else◌,
}
use orchestrator_relayer.Effect.{
  invalid_confirm_namespace, invalid_evm_address, not_the_same_evm_address, empty_valset,
  invalid_latest_valset_key, no_values, no_valid_value_found, Result, ok, err,
}
use orchestrator_relayer.Effect.Fallible.{◌>>=◌, ◌>>◌, guard}
use orchestrator_relayer.Std.Strings.{equal_fold}
use orchestrator_relayer.Std.Hex.{decode}
use orchestrator_relayer.Types.Confirms.{ValsetConfirm, DataCommitmentConfirm, Codec}
use orchestrator_relayer.Types.Valsets.{LatestValset, is_empty_latest_valset}
use orchestrator_relayer.Evm.Geth.{Geth}
use orchestrator_relayer.Evm.Signature.{validate_ethereum_signature}
use orchestrator_relayer.P2p.Keys.{
  parse_key, valset_confirm_namespace, data_commitment_confirm_namespace, get_latest_valset_key,
}

-- `if len(s) > 2 && s[:2] == "0x" { s = s[2:] }`
unfoldable pub strip_0x : Bytes → Bytes
strip_0x s = if ltb 2 (length s) && str_eq (take 2 s) (codes "0x") then drop 2 s else s

module _ (geth : Geth) (codec : Codec ValsetConfirm) where
  unfoldable pub validate_valset_confirm : Bytes → Bytes → Result (Unit {0})
  validate_valset_confirm key value = do
    k ← parse_key key
    guard (str_eq k.namespace valset_confirm_namespace) invalid_confirm_namespace
    guard (geth.is_hex_address k.evm_addr) invalid_evm_address
    vsc ← codec.unmarshal value
    guard (equal_fold vsc.eth_address k.evm_addr) not_the_same_evm_address
    sign_bytes ← decode (strip_0x k.digest)
    signature ← decode (strip_0x vsc.signature)
    validate_ethereum_signature geth sign_bytes signature (geth.hex_to_address k.evm_addr)

module _ (geth : Geth) (codec : Codec DataCommitmentConfirm) where
  unfoldable pub validate_data_commitment_confirm : Bytes → Bytes → Result (Unit {0})
  validate_data_commitment_confirm key value = do
    k ← parse_key key
    guard (str_eq k.namespace data_commitment_confirm_namespace) invalid_confirm_namespace
    guard (geth.is_hex_address k.evm_addr) invalid_evm_address
    dcc ← codec.unmarshal value
    guard (equal_fold dcc.eth_address k.evm_addr) not_the_same_evm_address
    root ← decode (strip_0x k.digest)
    signature ← decode (strip_0x dcc.signature)
    validate_ethereum_signature geth root signature (geth.hex_to_address k.evm_addr)

-- The loop of both confirm validators' `Select`: the first value that passes.
first_valid : (Bytes → Result (Unit {0})) → ℕ → List Bytes → Result ℕ
first_valid validate index [] = err no_valid_value_found
first_valid validate index (value ∷ values) = elim (validate value) [
  | ok _ ↦ ok index
  | err _ ↦ first_valid validate (index + 1) values
]

unfoldable pub select_confirm : (Bytes → Bytes → Result (Unit {0})) → Bytes → List Bytes → Result ℕ
unfolding first_valid
select_confirm validate key [] = err no_values
select_confirm validate key (value ∷ values) = first_valid (validate key) 0 (value ∷ values)

unfoldable pub select_valset_confirm : Geth → Codec ValsetConfirm → Bytes → List Bytes → Result ℕ
unfolding select_confirm
select_valset_confirm geth codec = select_confirm (validate_valset_confirm geth codec)

unfoldable pub select_data_commitment_confirm :
    Geth → Codec DataCommitmentConfirm → Bytes → List Bytes → Result ℕ
unfolding select_confirm
select_data_commitment_confirm geth codec =
    select_confirm (validate_data_commitment_confirm geth codec)

module _ (codec : Codec LatestValset) where
  unfoldable pub validate_latest_valset : Bytes → Bytes → Result (Unit {0})
  validate_latest_valset key value = do
    vs ← codec.unmarshal value
    guard (not (is_empty_latest_valset vs)) empty_valset
    guard (str_eq key get_latest_valset_key) invalid_latest_valset_key

  -- The loop of `Select`. `latestNonce` is set in every round, also where the index is kept.
  latest_loop : ℕ → ℕ → ℕ → List Bytes → Result ℕ
  latest_loop latest_nonce latest_index index [] = ok latest_index
  latest_loop latest_nonce latest_index index (value ∷ values) = elim (codec.unmarshal value) [
    | err e ↦ err e
    | ok valset ↦
        latest_loop valset.nonce (if ltb latest_nonce valset.nonce then index else latest_index)
          (index + 1) values
  ]

  unfoldable pub select_latest_valset : Bytes → List Bytes → Result ℕ
  unfolding latest_loop
  select_latest_valset key [] = do
    guard (str_eq key get_latest_valset_key) invalid_latest_valset_key
    err no_values
  select_latest_valset key (value ∷ values) = do
    guard (str_eq key get_latest_valset_key) invalid_latest_valset_key
    latest_loop 0 0 0 (value ∷ values)
