-- ===== src/Tests/Queries.antt =====
-- cmd/blobstream/query/cmd.go at concrete inputs.
use orchestrator_relayer.Prelude.{
  ◌≡◌, ◌≤◌, ◌↔◌, ◌%◌, ◌^◌, refl, ℕ, true, [], ◌∷◌, Bytes, codes, Map, put, lookup, str_eq,
  if◌then◌else◌,
}
use orchestrator_relayer.Effect.{ok}
use orchestrator_relayer.Std.Hex.{encode}
use orchestrator_relayer.Std.Strings.{split}
use orchestrator_relayer.Std.Strconv.{parse_uint}
use orchestrator_relayer.Types.Valsets.{Valset}
use orchestrator_relayer.P2p.Dht.{get_valset_confirm, get_decoded}
use orchestrator_relayer.P2p.Keys.{get_valset_confirm_key}
use orchestrator_relayer.P2p.Querier.{collect, query_func, query_valset_confirms}
use orchestrator_relayer.Rpc.AppQuerier.{
  query_attestation_by_nonce, query_last_valset_before_nonce, unpack_response,
}
use orchestrator_relayer.Rpc.AppQuerier.Staking.{
  StakingClient, query_staking_validator_set, query_evm_address,
}
use orchestrator_relayer.Cmd.QueryOutput.{
  to_query_output, fill_confirms_map, to_valset_confirms_map, fill_signatures, to_signature,
  add_power, info_of,
}
use orchestrator_relayer.Cmd.QueryOutput.Reports.{Reports, to_query_output-Reports}
use orchestrator_relayer.P2p.Querier.Powers.{among, AllDistinct}
use orchestrator_relayer.Cmd.QueryOutput.Agrees.{query_func-to_query_output}
use orchestrator_relayer.Cmd.Query.{
  Queriers, SignersMap, parse_nonce, with_info, to_validators_info, output_for, get_signatures,
  get_range, signers_in, signers_range, validate_range, count_outputs, count_signatures,
  count_signature, signatures_of, or_zero, signer_of, same_validator,
}
use orchestrator_relayer.Cmd.Query.Range.{Ranged, signers_range-Ranged}
use orchestrator_relayer.Tests.Fixtures.{
  geth, codecs, start, valset_of, member, app, tm, crypto, digest, account, print, unpack,
  two_lines, read_valset_confirm,
}
use orchestrator_relayer.Tests.Collecting.{full_dht, get, confirm, eth_address, collected}

abbrev threshold : Valset → ℕ
threshold _ = 7

abbrev confirms_map : Map Bytes
confirms_map = (print account, 1 ∷ []) ∷ []

to_query_output-Reports_example :
    let o = to_query_output confirms_map [] threshold 5 (valset_of 3) in
    (power : ℕ) × Reports confirms_map [] (member ∷ []) o.signatures power
    × (o.nonce ≡ 5)
    × (o.current_threshold ≡ power % 2 ^ 64)
    × ((o.can_relay ≡ true) ↔ (7 ≤ power % 2 ^ 64))
to_query_output-Reports_example = to_query_output-Reports confirms_map [] threshold 5 (valset_of 3)

one_member : AllDistinct (print account ∷ [])
unfolding AllDistinct among
one_member = (refl, tt)

query_func-to_query_output_example :
    let o =
      to_query_output
        (fill_confirms_map eth_address (λ c. c.signature) (confirm ∷ []) [])
        []
        threshold
        5
        (valset_of 3) in
    query_func eth_address get (member ∷ []) 7 start
    ≡ (ok (if o.can_relay then confirm ∷ [] else []), start)
query_func-to_query_output_example =
    query_func-to_query_output eth_address (λ c. c.signature) [] get threshold (valset_of 3) 5
      (confirm ∷ []) start start one_member one_member collected

-- one validator, whose EVM address is the member's
abbrev staking : StakingClient (Unit {0})
staking = record {
  validators = λ _ w. (ok (record { moniker = codes "m"; operator_address = codes "v" } ∷ []), w);
  evm_address = λ _ w. (ok (print account), w);
  last_unbonding_height = λ w. (ok 1, w);
  data_commitment_range_for_height =
      λ n w. (ok (record { nonce = n; begin_block = 1; end_block = 2 }), w);
  latest_data_commitment = λ w. (ok (record { nonce = 2; begin_block = 1; end_block = 2 }), w);
}

abbrev queriers : Queriers (Unit {0})
queriers = record {
  app_querier = app;
  staking = staking;
  tm_querier = tm;
  dht = full_dht;
  codecs = codecs;
  geth = geth;
  sign_bytes = λ _. ok digest;
  two_thirds_threshold = threshold;
  crypto = crypto;
}

abbrev counted : SignersMap
counted =
    (record { evm_address = print account; moniker = codes "m"; valop_address = codes "v" }, 2)
    ∷ (record { evm_address = print account; moniker = codes "m"; valop_address = codes "v" }, 1)
    ∷ []

-- the nonces 2 and 3
counts : signers_range queriers (codes "2") (codes "4") start ≡ (ok counted, start)
unfolding signers_range parse_nonce parse_uint validate_range signers_in get_range get_signatures
    query_last_valset_before_nonce query_staking_validator_set query_evm_address to_validators_info
    with_info put query_attestation_by_nonce unpack_response unpack output_for query_valset_confirms
    collect get_valset_confirm get_decoded split two_lines read_valset_confirm print encode str_eq
    to_valset_confirms_map fill_confirms_map to_query_output fill_signatures to_signature add_power
    info_of lookup count_outputs count_signatures count_signature signatures_of or_zero signer_of
    same_validator get_valset_confirm_key
counts = refl

signers_range-Ranged_example : Ranged queriers (codes "2") (codes "4") start counted start
signers_range-Ranged_example =
    signers_range-Ranged queriers (codes "2") (codes "4") start start counted counts
