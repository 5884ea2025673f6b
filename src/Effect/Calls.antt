-- ===== src/Effect/Calls.antt =====
-- The errors of the repository's errors.go files, and the calls that the program makes for
-- their effect.
use orchestrator_relayer.Prelude.{ℕ, Bool, true, false, Bytes, List, Option}

-- Sentinel errors. Wrapping an error keeps its cause, by which `errors.Is` finds it; the
-- messages are not modelled, so `errors.Wrap(e, _)` is `e`.
pub data Error : Type 0 where
  -- p2p/errors.go
  peers_timeout peers_threshold_cannot_be_negative not_enough_valset_confirms : Error
  not_enough_data_commitment_confirms invalid_confirm_namespace invalid_evm_address : Error
  not_the_same_evm_address invalid_confirm_key no_values no_valid_value_found : Error
  empty_namespace empty_evm_addr empty_digest empty_valset invalid_latest_valset_key : Error
  -- orchestrator/errors.go
  empty_peers_table signal_chan_notif : Error
  -- relayer/errors.go; `attestation_not_found` stands for the three sentinels of that name
  attestation_not_found validator_set_mismatch transaction_still_pending : Error
  -- types/errors.go, rpc/errors.go, evm/errors.go
  unknown_attestation_type not_data_commitment_request unmarshal_valset : Error
  not_found couldnt_reach_specified_height invalid : Error
  -- store/errors.go, store/fslock
  not_inited opened locked resource_temporarily_unavailable : Error
  -- made with `fmt.Errorf` where they are returned: store/store.go, and the commands
  badger_options_needed nonce_1_is_not_signed start_is_latest start_is_0 end_is_0 : Error
  start_is_end start_is_above_end invalid_evm_address_provided no_such_home : Error
  not_a_correct_evm_address account_not_found unable_to_unlock : Error
  no_evm_account_address empty_evm_account valid_evm_address_required backup_wait_is_0 : Error
  -- of the standard library
  parse_uint_error hex_decode_error context_canceled deadline_exceeded : Error
  -- of the packages that the program calls
  routing_not_found empty : Error
  foreign : ℕ → Error
  -- a panic, from which nothing here recovers
  panicked : Error

-- `errors.Is(err, routing.ErrNotFound)`
abbrev pub is_routing_not_found : Error → Bool
is_routing_not_found routing_not_found = true
is_routing_not_found _ = false

-- `errors.Is(err, context.DeadlineExceeded)`
abbrev pub is_deadline_exceeded : Error → Bool
is_deadline_exceeded deadline_exceeded = true
is_deadline_exceeded _ = false

-- The calls that change something outside: `dht.PutValue`, `ks.SignHash`, the two methods of
-- the contract, and the EVM client's waits and sends; `time.Sleep`; and those on files.
pub data Call : Type 0 where
  put_value : Bytes → Bytes → Call
  sign_hash : Bytes → Call
  contract_update_validator_set : ℕ → ℕ → ℕ → Call
  contract_submit_root : ℕ → ℕ → Bytes → Call
  commit_batch : List (Bytes × Bytes) → Call
  wait_mined : Bytes → Call
  send_transaction : Bytes → Call
  deploy_contract : Option ℕ → Call
  deploy_proxy : Option ℕ → Bytes → Bytes → Call
  sleep_for : ℕ → Call
  mkdir_all : Bytes → Call
  write_file : Bytes → Bytes → Call
