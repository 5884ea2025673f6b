-- ===== src/Tests/Confirms.antt =====
-- p2p/validators.go and evm/evm_transaction_opts.go at concrete inputs.
use orchestrator_relayer.Prelude.{
  ◌≡◌, refl, arith, List, [], ◌∷◌, ◌++◌, codes, Bytes, str_eq, replicate,
}
use orchestrator_relayer.Effect.{ok}
use orchestrator_relayer.Std.Hex.{encode, decode}
use orchestrator_relayer.Std.Strings.{split, to_lower}
use orchestrator_relayer.Types.Confirms.{
  ValsetConfirm, DataCommitmentConfirm, new_valset_confirm, new_data_commitment_confirm,
}
use orchestrator_relayer.Evm.Signature.{eth_address_from_signature}
use orchestrator_relayer.Evm.Transactions.{sig_to_vrs, str_le, v_param}
use orchestrator_relayer.Evm.Transactions.Canonical.{Canonical, sig_to_vrs-Canonical}
use orchestrator_relayer.P2p.Keys.{
  get_valset_confirm_key, get_data_commitment_confirm_key, get_latest_valset_key,
  valset_confirm_namespace, data_commitment_confirm_namespace,
}
use orchestrator_relayer.P2p.Validators.{
  validate_valset_confirm, validate_data_commitment_confirm, select_confirm, select_latest_valset,
}
use orchestrator_relayer.P2p.Validators.Selection.{
  SelectsFirst, IsLatest, select_confirm-SelectsFirst, select_latest_valset_misses-IsLatest,
}
use orchestrator_relayer.P2p.Validators.LatestRise.{Selected, select_latest_valset-Selected}
use orchestrator_relayer.P2p.Validators.Soundness.{
  IsGenuine, validate_valset_confirm-IsGenuine, validate_data_commitment_confirm-IsGenuine,
}
use orchestrator_relayer.P2p.Validators.Completeness.{
  IsSigned, validate_valset_confirm_published, validate_data_commitment_confirm_published,
}
use orchestrator_relayer.Tests.Fixtures.{
  account, digest, account_signature, geth, print, scan, or_empty, valset_confirm_codec,
  data_commitment_confirm_codec, latest_valset_codec, latest_of, two_lines, read_valset_confirm,
  read_commitment_confirm, read_latest_valset,
}

-- the confirm's line is its address, a line feed and its signature
abbrev confirm_value : Bytes
confirm_value = codes "0xab01" ++ (10 ∷ encode account_signature)

account-IsSigned : IsSigned geth account digest account_signature
unfolding print scan or_empty encode decode eth_address_from_signature
account-IsSigned = record {
  prints = record {
    address_valid = refl;
    address_back = refl;
    digest_printed = refl;
    digest_bytes = (omega arith, (omega arith, tt));
  };
  address_field = record { filled = λ e. cc; no_slash = omega arith; no_colon = omega arith };
  digest_field = record { filled = λ e. cc; no_slash = omega arith; no_colon = omega arith };
  digest_filled = λ e. cc;
  signature_bytes = omega arith;
  recovers = refl;
}

valset_confirm_decodes :
    valset_confirm_codec.unmarshal confirm_value
    ≡ ok (new_valset_confirm geth.address_hex account (encode account_signature))
unfolding encode split str_eq two_lines read_valset_confirm new_valset_confirm print
valset_confirm_decodes = refl

commitment_confirm_decodes :
    data_commitment_confirm_codec.unmarshal confirm_value
    ≡ ok (new_data_commitment_confirm geth.address_hex (encode account_signature) account)
unfolding encode split str_eq two_lines read_commitment_confirm new_data_commitment_confirm print
commitment_confirm_decodes = refl

abbrev valset_key : Bytes
valset_key = get_valset_confirm_key 2 (geth.address_hex account) (geth.hash_hex digest)

abbrev commitment_key : Bytes
commitment_key = get_data_commitment_confirm_key 2 (geth.address_hex account) (geth.hash_hex digest)

validate_valset_confirm_published_example :
    validate_valset_confirm geth valset_confirm_codec valset_key confirm_value ≡ ok tt
validate_valset_confirm_published_example =
    validate_valset_confirm_published geth account digest account_signature account-IsSigned 2
      (omega arith) confirm_value valset_confirm_codec valset_confirm_decodes

validate_data_commitment_confirm_published_example :
    validate_data_commitment_confirm geth data_commitment_confirm_codec commitment_key confirm_value
    ≡ ok tt
validate_data_commitment_confirm_published_example =
    validate_data_commitment_confirm_published geth account digest account_signature
      account-IsSigned 2 (omega arith) confirm_value data_commitment_confirm_codec
      commitment_confirm_decodes

validate_valset_confirm-IsGenuine_example :
    (c : ValsetConfirm) × (valset_confirm_codec.unmarshal confirm_value ≡ ok c)
    × IsGenuine geth valset_confirm_namespace valset_key c.eth_address c.signature
validate_valset_confirm-IsGenuine_example =
    validate_valset_confirm-IsGenuine geth valset_confirm_codec valset_key confirm_value (
      validate_valset_confirm_published geth account digest account_signature account-IsSigned 2
        (omega arith) confirm_value valset_confirm_codec valset_confirm_decodes)

validate_data_commitment_confirm-IsGenuine_example :
    (c : DataCommitmentConfirm) × (data_commitment_confirm_codec.unmarshal confirm_value ≡ ok c)
    × IsGenuine geth data_commitment_confirm_namespace commitment_key c.eth_address c.signature
validate_data_commitment_confirm-IsGenuine_example =
    validate_data_commitment_confirm-IsGenuine geth data_commitment_confirm_codec commitment_key
      confirm_value
      (validate_data_commitment_confirm_published geth account digest account_signature
        account-IsSigned 2 (omega arith) confirm_value data_commitment_confirm_codec
        commitment_confirm_decodes)

abbrev two_values : List Bytes
two_values = (0 ∷ []) ∷ confirm_value ∷ []

select_confirm-SelectsFirst_example :
    SelectsFirst
      (validate_valset_confirm geth valset_confirm_codec)
      valset_key
      two_values
      (select_confirm (validate_valset_confirm geth valset_confirm_codec) valset_key two_values)
select_confirm-SelectsFirst_example =
    select_confirm-SelectsFirst (validate_valset_confirm geth valset_confirm_codec) valset_key
      two_values

select_latest_valset-Selected_example :
    Selected latest_valset_codec get_latest_valset_key ((2 ∷ []) ∷ (5 ∷ []) ∷ (3 ∷ []) ∷ []) (
      select_latest_valset latest_valset_codec get_latest_valset_key
        ((2 ∷ []) ∷ (5 ∷ []) ∷ (3 ∷ []) ∷ []))
select_latest_valset-Selected_example =
    select_latest_valset-Selected latest_valset_codec get_latest_valset_key
      ((2 ∷ []) ∷ (5 ∷ []) ∷ (3 ∷ []) ∷ [])

select_latest_valset_misses-IsLatest_example :
    (select_latest_valset latest_valset_codec get_latest_valset_key
        ((9 ∷ []) ∷ (2 ∷ []) ∷ (5 ∷ []) ∷ [])
      ≡ ok 2)
    × ¬ IsLatest latest_valset_codec (latest_of 9 ∷ latest_of 2 ∷ latest_of 5 ∷ []) 2
unfolding read_latest_valset
select_latest_valset_misses-IsLatest_example =
    select_latest_valset_misses-IsLatest latest_valset_codec (9 ∷ []) (2 ∷ []) (5 ∷ [])
      (latest_of 9) (latest_of 2) (latest_of 5) (refl, (refl, (refl, tt))) (omega arith)
      (omega arith)

-- 64 bytes 1 and a last byte 0
abbrev low_signature : Bytes
low_signature = replicate 64 1 ++ 0 ∷ []

sig_to_vrs-Canonical_example :
    Canonical geth (print low_signature) (record { v = 27; r = replicate 32 1; s = replicate 32 1 })
unfolding sig_to_vrs print scan or_empty encode decode to_lower str_le v_param str_eq
sig_to_vrs-Canonical_example =
    sig_to_vrs-Canonical geth (print low_signature)
      (record { v = 27; r = replicate 32 1; s = replicate 32 1 }) refl
