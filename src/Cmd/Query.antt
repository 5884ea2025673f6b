-- ===== src/Cmd/Query.antt =====
-- cmd/blobstream/query/cmd.go: the queries behind the commands `signers nonce`, `signers range` and
-- `signature`, from the point where the connections are made. What they print, or write to
-- a file, is their result here.
pub mod Range
use orchestrator_relayer.Prelude.{
  ℕ, zero, suc, ◌-◌, ◌+◌, ◌%◌, ◌^◌, ◌&&◌, Bool, true, false, List, [], ◌∷◌, Option, none, some,
  Bytes, codes, ltb, ◌==◌, str_eq, if◌then◌else◌, Map, put,
}
use orchestrator_relayer.Effect.{
  nonce_1_is_not_signed, start_is_latest, start_is_0, end_is_0, start_is_end, start_is_above_end,
  invalid_evm_address_provided, unknown_attestation_type, Error, Result, ok, err, World, Go, pure,
  fail, lift, found_or_fail, ◌>>=◌, ◌>>◌,
}
use orchestrator_relayer.Std.Strconv.{parse_uint}
use orchestrator_relayer.Types.Confirms.{TupleRootCrypto, data_commitment_tuple_root_sign_bytes}
use orchestrator_relayer.Types.Valsets.{Valset, Attestation, valset, data_commitment, other}
use orchestrator_relayer.Evm.Geth.{Geth}
use orchestrator_relayer.P2p.Dht.{IpfsDht, Codecs}
use orchestrator_relayer.P2p.Querier.{
  query_valset_confirms, query_data_commitment_confirms, query_valset_confirm_by_evm_address,
  query_data_commitment_confirm_by_evm_address,
}
use orchestrator_relayer.Rpc.AppQuerier.{
  QueryClient, query_attestation_by_nonce, query_latest_attestation_nonce,
  query_last_valset_before_nonce,
}
use orchestrator_relayer.Rpc.AppQuerier.Staking.{
  StakingClient, StakingValidator, query_staking_validator_set, query_evm_address,
}
use orchestrator_relayer.Rpc.TmQuerier.{TmClient, query_commitment}
use orchestrator_relayer.Relayer.Attestation.{root_or_panic}
use orchestrator_relayer.Cmd.QueryOutput.{
  ValidatorInfo, Signature, QueryOutput, to_valset_confirms_map, to_data_commitment_confirms_map,
  to_query_output,
}

unfoldable pub validate_range : ℕ → ℕ → Result (Unit {0})
validate_range start end =
    if start == 0
    then err start_is_0
    else if end == 0
    then err end_is_0
    else if start == end
    then err start_is_end
    else if ltb end start
    then err start_is_above_end
    else ok tt

unfoldable pub same_validator : ValidatorInfo → ValidatorInfo → Bool
same_validator i j =
    str_eq i.evm_address j.evm_address
    && str_eq i.moniker j.moniker
    && str_eq i.valop_address j.valop_address

-- `map[validatorInfo]uint64`, the last entry put first
abbrev pub SignersMap : Type 0
SignersMap = List (ValidatorInfo × ℕ)

unfoldable pub signatures_of : ValidatorInfo → SignersMap → Option ℕ
signatures_of signer [] = none
signatures_of signer ((i, n) ∷ signers_map) =
    if same_validator i signer then some n else signatures_of signer signers_map

unfoldable pub or_zero : Option ℕ → ℕ
or_zero none = 0
or_zero (some n) = n

unfoldable pub signer_of : Signature → ValidatorInfo
signer_of sig = record {
  evm_address = sig.evm_address;
  moniker = sig.moniker;
  valop_address = sig.valop_address;
}

-- one round of the inner loop: a signature that is missing keeps the number
unfoldable pub count_signature : Signature → SignersMap → SignersMap
count_signature sig signers_map =
    let val = or_zero (signatures_of (signer_of sig) signers_map) in
    (signer_of sig, (if sig.signed then (val + 1) % 2 ^ 64 else val)) ∷ signers_map

unfoldable pub count_signatures : List Signature → SignersMap → SignersMap
count_signatures [] signers_map = signers_map
count_signatures (sig ∷ sigs) signers_map = count_signatures sigs (count_signature sig signers_map)

unfoldable pub count_outputs : List QueryOutput → SignersMap → SignersMap
count_outputs [] signers_map = signers_map
count_outputs (o ∷ outputs) signers_map =
    count_outputs outputs (count_signatures o.signatures signers_map)

-- What the commands query with; `sign_bytes` and the threshold are celestia-app's.
pub record Queriers (W : Type 0) : Type 0 where
  pub app_querier : QueryClient W
  pub staking : StakingClient W
  pub tm_querier : TmClient W
  pub dht : IpfsDht W
  pub codecs : Codecs
  pub geth : Geth
  pub sign_bytes : Valset → Result Bytes
  pub two_thirds_threshold : Valset → ℕ
  pub crypto : TupleRootCrypto

module _ {W : Type 0} (queriers : Queriers W) where
  open queriers use {app_querier, staking, tm_querier, dht, codecs, geth, two_thirds_threshold}

  unfoldable pub parse_nonce : Bytes → Go W ℕ
  parse_nonce nonce =
      if str_eq nonce (codes "latest")
      then query_latest_attestation_nonce app_querier
      else lift (parse_uint 10 nonce)

  -- a validator without an EVM address is left out
  unfoldable pub with_info : StakingValidator → Bytes → Map ValidatorInfo → Map ValidatorInfo
  with_info val [] infos = infos
  with_info val (b ∷ evm_addr) infos =
      put (b ∷ evm_addr)
        (record {
          evm_address = b ∷ evm_addr;
          moniker = val.moniker;
          valop_address = val.operator_address;
        })
        infos

  unfoldable pub to_validators_info :
      List StakingValidator → Map ValidatorInfo → Go W (Map ValidatorInfo)
  to_validators_info [] infos = pure infos
  to_validators_info (val ∷ validator_set) infos = do
    evm_addr ← query_evm_address staking val.operator_address
    to_validators_info validator_set (with_info val evm_addr infos)

  unfoldable pub data_root_hash : ℕ → Bytes → Go W Bytes
  data_root_hash nonce commitment = do
    root ←
        lift
          (root_or_panic (data_commitment_tuple_root_sign_bytes queriers.crypto nonce commitment))
    pure (geth.hash_hex root)

  unfoldable pub output_for : Attestation → Valset → Map ValidatorInfo → ℕ → Go W QueryOutput
  output_for (valset att) last_valset infos nonce = do
    sign_bytes ← lift (queriers.sign_bytes att)
    confirms ← query_valset_confirms dht codecs nonce last_valset (geth.hash_hex sign_bytes)
    pure (
        to_query_output (to_valset_confirms_map confirms) infos two_thirds_threshold nonce
          last_valset)
  output_for (data_commitment att) last_valset infos nonce = do
    commitment ← query_commitment tm_querier att.begin_block att.end_block
    root_hash ← data_root_hash att.nonce commitment
    confirms ← query_data_commitment_confirms dht codecs last_valset nonce root_hash
    pure (
        to_query_output (to_data_commitment_confirms_map confirms) infos two_thirds_threshold nonce
          last_valset)
  output_for (other _) last_valset infos nonce = fail unknown_attestation_type

  unfoldable pub get_signatures : ℕ → Go W QueryOutput
  get_signatures nonce = do
    last_valset ← query_last_valset_before_nonce app_querier nonce
    validator_set ← query_staking_validator_set staking
    infos ← to_validators_info validator_set []
    o ← query_attestation_by_nonce app_querier nonce
    att ← found_or_fail o
    output_for att last_valset infos nonce

  unfoldable pub unless_nonce_1 : {A : Type 0} → ℕ → Go W A → Go W A
  unless_nonce_1 nonce rest = if nonce == 1 then fail nonce_1_is_not_signed else rest

  unfoldable pub signers_nonce : Bytes → Go W QueryOutput
  signers_nonce arg = do nonce ← parse_nonce arg; unless_nonce_1 nonce (get_signatures nonce)

  -- the loop from `nonce`, of so many rounds
  unfoldable pub get_range : ℕ → ℕ → Go W (List QueryOutput)
  get_range zero nonce = pure []
  get_range (suc count) nonce = do
    o ← get_signatures nonce
    outputs ← get_range count (nonce + 1)
    pure (o ∷ outputs)

  unfoldable pub signers_in : ℕ → ℕ → Go W SignersMap
  signers_in start_nonce end_nonce = do
    outputs ← get_range (end_nonce - start_nonce) start_nonce
    pure (count_outputs outputs [])

  unfoldable pub signers_range : Bytes → Bytes → Go W SignersMap
  signers_range start end = if str_eq start (codes "latest") then fail start_is_latest else do
    start_nonce ← parse_nonce start
    end_nonce ← parse_nonce end
    lift (validate_range start_nonce end_nonce)
    signers_in start_nonce end_nonce

  -- the signature that is printed, if one was found
  unfoldable pub signature_for : Attestation → Bytes → ℕ → Go W (Option Bytes)
  signature_for (valset att) evm_address nonce = do
    sign_bytes ← lift (queriers.sign_bytes att)
    confirm ←
        query_valset_confirm_by_evm_address dht codecs nonce evm_address (geth.hash_hex sign_bytes)
    pure (elim confirm [ none ↦ none | some c ↦ some c.signature ])
  signature_for (data_commitment att) evm_address nonce = do
    commitment ← query_commitment tm_querier att.begin_block att.end_block
    root_hash ← data_root_hash att.nonce commitment
    confirm ← query_data_commitment_confirm_by_evm_address dht codecs nonce evm_address root_hash
    pure (elim confirm [ none ↦ none | some c ↦ some c.signature ])
  signature_for (other _) evm_address nonce = fail unknown_attestation_type

  unfoldable pub get_signature_and_print_it : Bytes → ℕ → Go W (Option Bytes)
  get_signature_and_print_it evm_address nonce = do
    o ← query_attestation_by_nonce app_querier nonce
    att ← found_or_fail o
    signature_for att evm_address nonce

  unfoldable pub signature : Bytes → Bytes → Go W (Option Bytes)
  signature arg evm_address = do
    nonce ← parse_nonce arg
    unless_nonce_1 nonce (
        if geth.is_hex_address evm_address
        then get_signature_and_print_it evm_address nonce
        else fail invalid_evm_address_provided)
