-- ===== src/Tests/Relaying.antt =====
-- relayer/relayer.go at concrete inputs.
use mathlib.Core.Path.{subst}
use orchestrator_relayer.Prelude.{
  ℕ, zero, suc, ◌≡◌, refl, arith, List, [], ◌∷◌, ◌++◌, Bytes, some, none, str_eq, replicate, lookup,
  put, false,
}
use orchestrator_relayer.Effect.{deadline_exceeded, Result, ok, err, World}
use orchestrator_relayer.Std.Hex.{encode, decode}
use orchestrator_relayer.Std.Strings.{to_lower, split}
use orchestrator_relayer.Types.Confirms.{
  ValsetConfirm, DataCommitmentConfirm, data_commitment_tuple_root_sign_bytes, to_32_bytes,
}
use orchestrator_relayer.Types.Valsets.{DataCommitment, data_commitment, to_valset, LatestValset}
use orchestrator_relayer.Evm.Client.{
  Tx, Contract, wait_for_transaction, eth_members, eth_valset, update_validator_set,
  state_last_validator_set_checkpoint,
}
use orchestrator_relayer.Evm.Transactions.{sig_to_vrs, str_le, v_param}
use orchestrator_relayer.P2p.Querier.{
  members_map, current_threshold, collect, query_func, await, two_thirds,
  query_two_thirds_data_commitment_confirms,
}
use orchestrator_relayer.P2p.Keys.{get_data_commitment_confirm_key}
use orchestrator_relayer.Rpc.TmQuerier.{query_commitment}
use orchestrator_relayer.Evm.Client
use orchestrator_relayer.P2p.Dht.{
  get_data_commitment_confirm, IpfsDht, get_latest_valset, get_decoded,
}
use orchestrator_relayer.P2p.Querier.{query_latest_valset}
use orchestrator_relayer.Rpc.AppQuerier.{query_last_valset_before_nonce}
use orchestrator_relayer.Relayer.Wait.{
  EthClient, log_price, retry_loop, speed_up, speed_up_by, speed_up_legacy,
  create_speeded_up_legacy_transaction, if_higher, resend, wait_for_transaction_and_retry_if_needed,
}
use orchestrator_relayer.Relayer.Wait.Original.{Ends, wait_for_transaction_and_retry_if_needed-Ends}
use orchestrator_relayer.Relayer.Signatures.{
  save_data_commitment_signatures_to_store, save, fill_batch, put_unless, SignatureStore, sigs_map,
  match_members, match_attestation_confirm_sigs,
}
use orchestrator_relayer.Relayer.Signatures.Matching.{
  Matching, match_attestation_confirm_sigs-Matching,
}
use orchestrator_relayer.Relayer.Attestation
use orchestrator_relayer.Relayer.Attestation.{
  Relayer, authenticated, submit_data_root_tuple_root, process_attestation, before_await,
  and_then_await, query_previous_valset, relay, relay_data_commitment, commitment_and_hash,
  root_or_panic, query_valset_from_p2p_network_and_validate_it, query_current_valset,
}
use orchestrator_relayer.Relayer.Attestation.Submitted.{
  Submitted, submit_data_root_tuple_root-Submitted,
}
use orchestrator_relayer.Relayer.Attestation.Commitments.{
  RelaysCommitment, process_attestation-RelaysCommitment,
}
use orchestrator_relayer.Relayer.Attestation.Authentic.{
  HashPrints, ok_injective, Authentic, query_valset_from_p2p_network_and_validate_it-Authentic,
}
use orchestrator_relayer.Relayer.Attestation.Relayed.{Relayed, update_validator_set-Relayed}
use orchestrator_relayer.Tests.Fixtures.{
  two_lines, read_commitment_confirm, account, digest, geth, print, scan, or_empty, codecs,
  empty_dht, start, valset_of, latest_of, app, tm, crypto, read_latest_valset,
}

abbrev pub tx : Tx
tx = record { hash = 1 ∷ []; gas_price = some 10; gas_tip_cap = none; gas_fee_cap = none }

-- times out as often as the counter says, and then has a receipt of status 0
unfoldable countdown : ℕ → Result ℕ × ℕ
countdown zero = (ok 0, 0)
countdown (suc n) = (err deadline_exceeded, n)

abbrev client : EthClient ℕ
client = record {
  mined = λ _ n. countdown n;
  suggest_gas_price = λ n. (ok 20, n);
  suggest_gas_tip_cap = λ n. (ok 1, n);
  header_base_fee = λ n. (ok none, n);
  new_legacy_tx = λ t price. record t { hash = 2 ∷ t.hash; gas_price = some price };
  new_dynamic_tx = λ t tip fee. t;
  signer = λ t n. (ok t, n);
  send = λ _ n. (ok tt, n);
}

abbrev world : World ℕ
world = record { ext = 1; calls = [] }

abbrev waited : World ℕ
waited = (wait_for_transaction_and_retry_if_needed client tx world).1

waits : wait_for_transaction_and_retry_if_needed client tx world ≡ (ok tt, waited)
unfolding wait_for_transaction_and_retry_if_needed log_price retry_loop wait_for_transaction
    countdown speed_up speed_up_by speed_up_legacy create_speeded_up_legacy_transaction if_higher
    resend
waits = refl

wait_for_transaction_and_retry_if_needed-Ends_example : Ends client tx 10 world (ok tt) waited
wait_for_transaction_and_retry_if_needed-Ends_example =
    wait_for_transaction_and_retry_if_needed-Ends client tx 10 world waited (ok tt) refl waits

match_attestation_confirm_sigs-Matching_example :
    Matching geth [] (valset_of 3).members (match_attestation_confirm_sigs geth [] (valset_of 3))
match_attestation_confirm_sigs-Matching_example =
    match_attestation_confirm_sigs-Matching geth [] (valset_of 3)

-- the network's latest valset has nonce 3
abbrev pub dht : IpfsDht (Unit {0})
dht = record empty_dht { get_value = λ _ w. (ok (3 ∷ []), w) }

abbrev pub contract : Contract (Unit {0})
contract = record {
  update_validator_set = λ _ _ _ _ _ _ w. (ok tx, w);
  submit_data_root_tuple_root = λ _ _ _ _ _ w. (ok tx, w);
  state_event_nonce = λ w. (ok 3, w);
  state_last_validator_set_checkpoint = λ w. (ok digest, w);
}

abbrev pub store : SignatureStore (Unit {0})
store = record {
  new_key = λ k. k;
  has = λ _ w. (ok false, w);
  batch = λ w. (ok tt, w);
  put = λ _ _ w. (ok tt, w);
  commit = λ _ w. (ok tt, w);
}

abbrev pub relayer : Relayer (Unit {0})
relayer = record {
  app_querier = app;
  tm_querier = tm;
  dht = dht;
  codecs = codecs;
  geth = geth;
  contract = contract;
  signature_store = store;
  sign_bytes = λ _. ok digest;
  valset_hash = λ _. ok digest;
  two_thirds_threshold = λ _. 7;
  crypto = crypto;
  hex_bytes_string = encode;
  hex_to_hash = scan;
}

digest-HashPrints :
    (latest : LatestValset) (hash : Bytes)
    → relayer.sign_bytes (to_valset latest) ≡ ok hash
    → HashPrints geth hash
unfolding print
digest-HashPrints latest hash h =
    let same : digest ≡ hash = ok_injective digest hash h in
    subst (λ b. HashPrints geth b) same
      record { printed = refl; bytes = (omega arith, (omega arith, tt)) }

validates :
    query_valset_from_p2p_network_and_validate_it relayer start
    ≡ (ok (to_valset (latest_of 3)), start)
unfolding query_valset_from_p2p_network_and_validate_it authenticated query_latest_valset
    get_latest_valset get_decoded read_latest_valset state_last_validator_set_checkpoint print
    encode decode str_eq
validates = refl

query_valset_from_p2p_network_and_validate_it-Authentic_example :
    Authentic relayer (to_valset (latest_of 3)) start start
query_valset_from_p2p_network_and_validate_it-Authentic_example =
    query_valset_from_p2p_network_and_validate_it-Authentic relayer (to_valset (latest_of 3)) start
      start digest-HashPrints validates

abbrev confirms : List ValsetConfirm
confirms = record { eth_address = print account; signature = print (replicate 64 1 ++ 0 ∷ []) } ∷ []

abbrev relayed : World (Unit {0})
relayed = (Attestation.update_validator_set relayer (valset_of 4) 7 confirms start).1

relays : Attestation.update_validator_set relayer (valset_of 4) 7 confirms start ≡ (ok tx, relayed)
unfolding Attestation.update_validator_set query_current_valset query_last_valset_before_nonce
    match_attestation_confirm_sigs match_members sigs_map lookup put print scan or_empty encode
    decode str_eq sig_to_vrs to_lower str_le v_param update_validator_set eth_valset eth_members
relays = refl

update_validator_set-Relayed_example : Relayed relayer (valset_of 4) 7 confirms tx start relayed
update_validator_set-Relayed_example =
    update_validator_set-Relayed relayer (valset_of 4) 7 confirms start relayed tx relays

abbrev data_confirm : DataCommitmentConfirm
data_confirm = record { eth_address = print account; signature = print (replicate 64 1 ++ 0 ∷ []) }

abbrev commitment : DataCommitment
commitment = record { nonce = 4; begin_block = 10; end_block = 20 }

submits :
    submit_data_root_tuple_root relayer commitment
      (valset_of 3)
      (encode digest)
      (data_confirm ∷ [])
      start
    ≡ (
      ok tx,
      (submit_data_root_tuple_root relayer commitment
          (valset_of 3)
          (encode digest)
          (data_confirm ∷ [])
          start).1,
    )
unfolding submit_data_root_tuple_root match_attestation_confirm_sigs match_members sigs_map lookup
    put print scan or_empty encode decode str_eq sig_to_vrs to_lower str_le v_param
    Client.submit_data_root_tuple_root eth_valset eth_members
submits = refl

submit_data_root_tuple_root-Submitted_example :
    Submitted relayer commitment
      (valset_of 3)
      (encode digest)
      (data_confirm ∷ [])
      tx
      start
      (submit_data_root_tuple_root relayer commitment
        (valset_of 3)
        (encode digest)
        (data_confirm ∷ [])
        start).1
submit_data_root_tuple_root-Submitted_example =
    submit_data_root_tuple_root-Submitted relayer commitment (valset_of 3) (encode digest)
      (data_confirm ∷ []) start
      (submit_data_root_tuple_root relayer commitment (valset_of 3) (encode digest)
        (data_confirm ∷ []) start).1
      tx submits

-- a network that has the confirm under every key
abbrev full_relayer : Relayer (Unit {0})
full_relayer = record relayer {
  dht = record empty_dht {
    get_value = λ _ w. (ok (print account ++ (10 ∷ print (replicate 64 1 ++ 0 ∷ []))), w);
  };
}

abbrev after_relaying : World (Unit {0})
after_relaying = (process_attestation full_relayer (data_commitment commitment) [] start).1

processes :
    process_attestation full_relayer (data_commitment commitment) [] start
    ≡ (some (ok tx), after_relaying)
unfolding process_attestation before_await and_then_await query_previous_valset
    query_last_valset_before_nonce relay relay_data_commitment commitment_and_hash query_commitment
    root_or_panic data_commitment_tuple_root_sign_bytes to_32_bytes
    query_two_thirds_data_commitment_confirms two_thirds await query_func collect members_map
    current_threshold get_data_commitment_confirm get_decoded get_data_commitment_confirm_key split
    two_lines read_commitment_confirm save_data_commitment_signatures_to_store save fill_batch
    put_unless submit_data_root_tuple_root match_attestation_confirm_sigs match_members sigs_map
    lookup put print scan or_empty encode decode str_eq sig_to_vrs to_lower str_le v_param
    Client.submit_data_root_tuple_root eth_valset eth_members
processes = refl

process_attestation-RelaysCommitment_example :
    RelaysCommitment full_relayer commitment tx start after_relaying
process_attestation-RelaysCommitment_example =
    process_attestation-RelaysCommitment full_relayer commitment [] start after_relaying tx
      processes
