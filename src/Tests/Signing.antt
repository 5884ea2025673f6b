-- ===== src/Tests/Signing.antt =====
-- orchestrator/orchestrator.go at concrete inputs.
use orchestrator_relayer.Prelude.{none, true, ◌≡◌, refl, arith, [], ◌∷◌, some, str_eq}
use orchestrator_relayer.Effect.{ok, World}
use orchestrator_relayer.Std.Hex.{encode}
use orchestrator_relayer.Types.Valsets.{valset}
use orchestrator_relayer.Evm.Signature.{KeyStore, new_ethereum_signature}
use orchestrator_relayer.P2p.Dht.{
  get_valset_confirm, get_decoded, put_valset_confirm, put_latest_valset, put_encoded,
}
use orchestrator_relayer.P2p.Querier.{query_valset_confirm_by_evm_address}
use orchestrator_relayer.Rpc.AppQuerier.{
  unpack_response, query_attestation_by_nonce, query_last_valset_before_nonce,
  query_latest_attestation_nonce,
}
use orchestrator_relayer.Orchestrator.Broadcaster.{
  if_peers, provide_valset_confirm, provide_latest_valset,
}
use orchestrator_relayer.Orchestrator.Process.{
  Orchestrator, validator_part_of_valset, process_valset_event, unless_signed, sign_attestation,
  if_part_of_valset, check_and_sign, process,
}
use orchestrator_relayer.Orchestrator.Process.Signed.{Signed, sign_attestation-Signed}
use orchestrator_relayer.Orchestrator.Process.Outcome.{
  genesis, Processed, process-Processed, process_silent,
}
use orchestrator_relayer.Helpers.Retrier.{Wait, Retrier}
use orchestrator_relayer.Orchestrator.Nonces
use orchestrator_relayer.Orchestrator.Nonces.{
  process_nonce, State, Step, ticked, received, processed, requeued, Steps, no_step, step,
}
use orchestrator_relayer.Orchestrator.Nonces.Conserved.{total, Steps-total}
use orchestrator_relayer.Orchestrator.Nonces.Refines.{SpecSteps, spec_of, Steps-SpecSteps}
use orchestrator_relayer.Orchestrator.Queues.{requeue_test, sent, enqueue_missing, maybe_requeue}
use orchestrator_relayer.Orchestrator.Queues.Missing.{
  enqueue_missing-down_from, maybe_requeue_window,
}
use orchestrator_relayer.Tests.Fixtures.{
  account, digest, account_signature, geth, print, codecs, empty_dht, start, valset_of, unpack, app,
  tm, crypto,
}

abbrev key_store : KeyStore (Unit {0})
key_store acc hash w = (ok account_signature, w)

abbrev orch : Orchestrator (Unit {0})
orch = record {
  geth = geth;
  crypto = crypto;
  sign_bytes = λ _. ok digest;
  evm_key_store = some key_store;
  evm_account = account;
  app_querier = app;
  tm_querier = tm;
  dht = empty_dht;
  codecs = codecs;
}

abbrev after_signing : World (Unit {0})
after_signing = (sign_attestation orch 4 (valset (valset_of 4)) start).1

signs : sign_attestation orch 4 (valset (valset_of 4)) start ≡ (ok tt, after_signing)
unfolding sign_attestation unless_signed query_valset_confirm_by_evm_address get_valset_confirm
    get_decoded process_valset_event provide_latest_valset if_peers put_latest_valset put_encoded
    new_ethereum_signature provide_valset_confirm put_valset_confirm
signs = refl

sign_attestation-Signed_example : Signed orch 4 (valset (valset_of 4)) start after_signing
sign_attestation-Signed_example =
    sign_attestation-Signed orch 4 (valset (valset_of 4)) start after_signing signs

abbrev after_process : World (Unit {0})
after_process = (process orch 4 start).1

processes : process orch 4 start ≡ (ok tt, after_process)
unfolding process query_attestation_by_nonce unpack_response unpack check_and_sign
    query_last_valset_before_nonce if_part_of_valset validator_part_of_valset str_eq print encode
    sign_attestation unless_signed query_valset_confirm_by_evm_address get_valset_confirm
    get_decoded process_valset_event provide_latest_valset if_peers put_latest_valset put_encoded
    new_ethereum_signature provide_valset_confirm put_valset_confirm
processes = refl

process-Processed_example : Processed orch 4 start after_process
process-Processed_example = process-Processed orch 4 start after_process processes

genesis_processed : process orch 1 start ≡ (ok tt, start)
unfolding process query_attestation_by_nonce unpack_response unpack check_and_sign
genesis_processed = refl

process_silent_example : start.calls ≡ start.calls
process_silent_example = process_silent orch 1 start start (ok tt) (genesis refl) genesis_processed

enqueue_missing-down_from_example :
    enqueue_missing 7 3 (sent ∷ sent ∷ sent ∷ sent ∷ sent ∷ []) (9 ∷ [])
    ≡ (some (ok tt), 9 ∷ 7 ∷ 6 ∷ 5 ∷ 4 ∷ 3 ∷ [])
enqueue_missing-down_from_example =
    enqueue_missing-down_from 7 3 (9 ∷ []) (omega arith) (omega arith) (omega arith)

latest_answered : query_latest_attestation_nonce app start ≡ (ok 7, start)
unfolding query_latest_attestation_nonce
latest_answered = refl

maybe_requeue_window_example : maybe_requeue app (9 ∷ []) 5 start ≡ (ok (9 ∷ 5 ∷ []), start)
maybe_requeue_window_example =
    maybe_requeue_window app (9 ∷ []) 5 start start 7 latest_answered (omega arith)

abbrev no_wait : Wait (Unit {0})
no_wait d w = (none, w)

abbrev once : Retrier
once = record { retries_number = 1; base_delay = 1000 }

-- one nonce to process, and one that failed
abbrev first_state : State (Unit {0})
first_state = record {
  world = start;
  running = true;
  nonces_queue = 4 ∷ [];
  requeue_queue = [];
  requeueing = 5 ∷ [];
  moving = 0;
  carried = [];
  handled = [];
  dropped = [];
}

abbrev requeued_state : State (Unit {0})
requeued_state = record first_state { requeueing = []; requeue_queue = 5 ∷ [] }

abbrev ticked_state : State (Unit {0})
ticked_state = record requeued_state { moving = 1 }

abbrev received_state : State (Unit {0})
received_state = record requeued_state { requeue_queue = []; carried = 5 ∷ [] }

abbrev sent_state : State (Unit {0})
sent_state = record requeued_state { requeue_queue = []; nonces_queue = 4 ∷ 5 ∷ [] }

abbrev processed_state : State (Unit {0})
processed_state = record sent_state {
  world = after_process;
  nonces_queue = 5 ∷ [];
  handled = 4 ∷ [];
}

abbrev FromFirst : State (Unit {0}) → Type 0
FromFirst = Steps orch once no_wait first_state

requeues : maybe_requeue app [] 5 start ≡ (ok (5 ∷ []), start)
unfolding maybe_requeue query_latest_attestation_nonce requeue_test
requeues = refl

processes_nonce : process_nonce orch once no_wait 4 start ≡ (ok true, after_process)
unfolding process_nonce
processes_nonce = rw processes refl

five_steps : FromFirst processed_state
five_steps =
    step sent_state processed_state
      (step received_state sent_state
        (step ticked_state received_state
          (step requeued_state ticked_state
            (step first_state requeued_state no_step
              (requeued 5 [] [] start refl (omega arith) requeues))
            (ticked refl (λ e. cc) (omega arith)))
          (received 0 5 [] refl refl))
        (Nonces.sent 5 [] [] refl (omega arith)))
      (processed 4 (5 ∷ []) after_process refl refl processes_nonce)

Steps-total_example : total 5 processed_state ≡ total 5 first_state
Steps-total_example = Steps-total orch once no_wait 5 first_state processed_state five_steps

Steps-SpecSteps_example :
    SpecSteps orch once no_wait
      (spec_of orch once no_wait first_state)
      (spec_of orch once no_wait processed_state)
Steps-SpecSteps_example = Steps-SpecSteps orch once no_wait first_state processed_state five_steps
