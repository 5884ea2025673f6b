-- ===== src/Cmd/BaseFlags.antt =====
-- cmd/blobstream/base/config.go: the flags of the commands. The flags of pflag are a parameter, at
pub mod Honours
-- the command line that was parsed.
use orchestrator_relayer.Prelude.{ℕ, Bool, true, false, List, [], ◌∷◌, ◌++◌, Option, Bytes, codes}
use orchestrator_relayer.Effect.{Error, Result, ok, err}
use orchestrator_relayer.Effect.Fallible.{◌>>=◌, ◌>>◌}

-- `cmd.Flags().Changed`, `GetString`, `GetBool` and `GetUint64`
pub record Flags : Type 0 where
  pub changed : Bytes → Bool
  pub get_string : Bytes → Result Bytes
  pub get_bool : Bytes → Result Bool
  pub get_uint64 : Bytes → Result ℕ

-- the kinds of flags, with their default values
pub data Default : Type 0 where
  string_default : Bytes → Default
  bool_default : Bool → Default
  uint64_default : ℕ → Default

-- what is declared with `cmd.Flags().String`, `Bool` and `Uint64`
abbrev pub FlagSet : Type 0
FlagSet = List (Bytes × Default)

unfoldable pub string_flag : Bytes → Bytes → FlagSet → FlagSet
string_flag name value cmd = (name, string_default value) ∷ cmd

unfoldable pub bool_flag : Bytes → Bool → FlagSet → FlagSet
bool_flag name value cmd = (name, bool_default value) ∷ cmd

unfoldable pub uint64_flag : Bytes → ℕ → FlagSet → FlagSet
uint64_flag name value cmd = (name, uint64_default value) ∷ cmd

abbrev pub flag_home : Bytes
flag_home = codes "home"

abbrev pub flag_evm_passphrase : Bytes
flag_evm_passphrase = codes "evm.passphrase"

abbrev pub flag_bootstrappers : Bytes
flag_bootstrappers = codes "p2p.bootstrappers"

abbrev pub flag_p2p_listen_address : Bytes
flag_p2p_listen_address = codes "p2p.listen-addr"

abbrev pub flag_p2p_nickname : Bytes
flag_p2p_nickname = codes "p2p.nickname"

abbrev pub flag_grpc_insecure : Bytes
flag_grpc_insecure = codes "grpc.insecure"

abbrev pub flag_evm_acc_address : Bytes
flag_evm_acc_address = codes "evm.account"

abbrev pub flag_evm_chain_id : Bytes
flag_evm_chain_id = codes "evm.chain-id"

abbrev pub flag_evm_rpc : Bytes
flag_evm_rpc = codes "evm.rpc"

abbrev pub flag_evm_gas_limit : Bytes
flag_evm_gas_limit = codes "evm.gas-limit"

abbrev pub flag_evm_contract_address : Bytes
flag_evm_contract_address = codes "evm.contract-address"

abbrev pub flag_evm_retry_timeout : Bytes
flag_evm_retry_timeout = codes "evm.retry-timeout"

abbrev pub flag_core_grpc : Bytes
flag_core_grpc = codes "core.grpc"

abbrev pub flag_core_rpc : Bytes
flag_core_rpc = codes "core.rpc"

abbrev pub flag_starting_nonce : Bytes
flag_starting_nonce = codes "starting-nonce"

abbrev pub flag_log_level : Bytes
flag_log_level = codes "log.level"

abbrev pub flag_log_format : Bytes
flag_log_format = codes "log.format"

abbrev pub flag_backup_relayer : Bytes
flag_backup_relayer = codes "relayer.backup"

abbrev pub flag_backup_relayer_wait_time : Bytes
flag_backup_relayer_wait_time = codes "relayer.wait-time"

abbrev pub flag_metrics : Bytes
flag_metrics = codes "metrics"

abbrev pub flag_metrics_endpoint : Bytes
flag_metrics_endpoint = codes "metrics.endpoint"

abbrev pub flag_metrics_tls : Bytes
flag_metrics_tls = codes "metrics.tls"

abbrev pub flag_metrics_p2p_endpoint : Bytes
flag_metrics_p2p_endpoint = codes "metrics.p2p"

unfoldable pub add_evm_passphrase_flag : FlagSet → FlagSet
add_evm_passphrase_flag = string_flag flag_evm_passphrase []

unfoldable pub add_log_level_flag : FlagSet → FlagSet
add_log_level_flag = string_flag flag_log_level (codes "info")

unfoldable pub add_log_format_flag : FlagSet → FlagSet
add_log_format_flag = string_flag flag_log_format (codes "plain")

unfoldable pub add_starting_nonce_flag : FlagSet → FlagSet
add_starting_nonce_flag = string_flag flag_starting_nonce (codes "latest")

unfoldable pub add_p2p_nickname_flag : FlagSet → FlagSet
add_p2p_nickname_flag = string_flag flag_p2p_nickname []

unfoldable pub add_p2p_listen_address_flag : FlagSet → FlagSet
add_p2p_listen_address_flag = string_flag flag_p2p_listen_address (codes "/ip4/0.0.0.0/tcp/30000")

unfoldable pub add_bootstrappers_flag : FlagSet → FlagSet
add_bootstrappers_flag = string_flag flag_bootstrappers []

unfoldable pub add_grpc_insecure_flag : FlagSet → FlagSet
add_grpc_insecure_flag = bool_flag flag_grpc_insecure false

unfoldable pub add_core_grpc_flag : FlagSet → FlagSet
add_core_grpc_flag = string_flag flag_core_grpc (codes "localhost:9090")

unfoldable pub add_evm_chain_id_flag : FlagSet → FlagSet
add_evm_chain_id_flag = uint64_flag flag_evm_chain_id 5

unfoldable pub add_core_rpc_flag : FlagSet → FlagSet
add_core_rpc_flag = string_flag flag_core_rpc (codes "tcp://localhost:26657")

unfoldable pub add_evm_rpc_flag : FlagSet → FlagSet
add_evm_rpc_flag = string_flag flag_evm_rpc (codes "http://localhost:8545")

unfoldable pub add_evm_contract_address_flag : FlagSet → FlagSet
add_evm_contract_address_flag = string_flag flag_evm_contract_address []

unfoldable pub add_evm_gas_limit_flag : FlagSet → FlagSet
add_evm_gas_limit_flag = uint64_flag flag_evm_gas_limit 2500000

unfoldable pub add_backup_relayer_flag : FlagSet → FlagSet
add_backup_relayer_flag = bool_flag flag_backup_relayer false

unfoldable pub add_backup_relayer_wait_time_flag : FlagSet → FlagSet
add_backup_relayer_wait_time_flag = uint64_flag flag_backup_relayer_wait_time 15

unfoldable pub add_home_flag : Bytes → FlagSet → FlagSet
add_home_flag default_home_dir = string_flag flag_home default_home_dir

unfoldable pub add_evm_acc_address_flag : FlagSet → FlagSet
add_evm_acc_address_flag = string_flag flag_evm_acc_address []

unfoldable pub add_evm_retry_timeout_flag : FlagSet → FlagSet
add_evm_retry_timeout_flag = uint64_flag flag_evm_retry_timeout 15

unfoldable pub add_metrics_flag : FlagSet → FlagSet
add_metrics_flag = bool_flag flag_metrics false

unfoldable pub add_metrics_endpoint_flag : FlagSet → FlagSet
add_metrics_endpoint_flag = string_flag flag_metrics_endpoint (codes "localhost:4318")

unfoldable pub add_metrics_tls_flag : FlagSet → FlagSet
add_metrics_tls_flag = bool_flag flag_metrics_tls false

unfoldable pub add_p2p_metrics_endpoint : FlagSet → FlagSet
add_p2p_metrics_endpoint = string_flag flag_metrics_p2p_endpoint (codes "localhost:30001")

module _ (cmd : Flags) where
  -- what the functions below return: the value, and whether the flag was changed
  abbrev with_changed {ℓ} : {A : Type ℓ} → Bytes → Result A → Result (A × Bool)
  with_changed name r = do val ← r; ok (val, cmd.changed name)

  unfoldable pub get_evm_passphrase_flag : Result (Bytes × Bool)
  get_evm_passphrase_flag = with_changed flag_evm_passphrase (cmd.get_string flag_evm_passphrase)

  unfoldable pub get_log_format_flag : Result (Bytes × Bool)
  get_log_format_flag = with_changed flag_log_format (cmd.get_string flag_log_format)

  unfoldable pub get_log_level_flag : Result (Bytes × Bool)
  get_log_level_flag = with_changed flag_log_level (cmd.get_string flag_log_level)

  unfoldable pub get_starting_nonce_flag : Result (Bytes × Bool)
  get_starting_nonce_flag = with_changed flag_starting_nonce (cmd.get_string flag_starting_nonce)

  unfoldable pub get_p2p_nickname_flag : Result (Bytes × Bool)
  get_p2p_nickname_flag = with_changed flag_p2p_nickname (cmd.get_string flag_p2p_nickname)

  unfoldable pub get_p2p_listen_address_flag : Result (Bytes × Bool)
  get_p2p_listen_address_flag =
      with_changed flag_p2p_listen_address (cmd.get_string flag_p2p_listen_address)

  unfoldable pub get_bootstrappers_flag : Result (Bytes × Bool)
  get_bootstrappers_flag = with_changed flag_bootstrappers (cmd.get_string flag_bootstrappers)

  unfoldable pub get_grpc_insecure_flag : Result (Bool × Bool)
  get_grpc_insecure_flag = with_changed flag_grpc_insecure (cmd.get_bool flag_grpc_insecure)

  unfoldable pub get_core_grpc_flag : Result (Bytes × Bool)
  get_core_grpc_flag = with_changed flag_core_grpc (cmd.get_string flag_core_grpc)

  unfoldable pub get_evm_chain_id_flag : Result (ℕ × Bool)
  get_evm_chain_id_flag = with_changed flag_evm_chain_id (cmd.get_uint64 flag_evm_chain_id)

  unfoldable pub get_core_rpc_flag : Result (Bytes × Bool)
  get_core_rpc_flag = with_changed flag_core_rpc (cmd.get_string flag_core_rpc)

  unfoldable pub get_evm_rpc_flag : Result (Bytes × Bool)
  get_evm_rpc_flag = with_changed flag_evm_rpc (cmd.get_string flag_evm_rpc)

  unfoldable pub get_evm_contract_address_flag : Result (Bytes × Bool)
  get_evm_contract_address_flag =
      with_changed flag_evm_contract_address (cmd.get_string flag_evm_contract_address)

  unfoldable pub get_evm_gas_limit_flag : Result (ℕ × Bool)
  get_evm_gas_limit_flag = with_changed flag_evm_gas_limit (cmd.get_uint64 flag_evm_gas_limit)

  unfoldable pub get_backup_relayer_flag : Result (Bool × Bool)
  get_backup_relayer_flag = with_changed flag_backup_relayer (cmd.get_bool flag_backup_relayer)

  unfoldable pub get_backup_relayer_wait_time_flag : Result (ℕ × Bool)
  get_backup_relayer_wait_time_flag =
      with_changed flag_backup_relayer_wait_time (cmd.get_uint64 flag_backup_relayer_wait_time)

  unfoldable pub get_home_flag : Result (Bytes × Bool)
  get_home_flag = with_changed flag_home (cmd.get_string flag_home)

  unfoldable pub get_evm_acc_address_flag : Result (Bytes × Bool)
  get_evm_acc_address_flag = with_changed flag_evm_acc_address (cmd.get_string flag_evm_acc_address)

  unfoldable pub get_evm_retry_timeout_flag : Result (ℕ × Bool)
  get_evm_retry_timeout_flag =
      with_changed flag_evm_retry_timeout (cmd.get_uint64 flag_evm_retry_timeout)

  unfoldable pub get_metrics_flag : Result (Bool × Bool)
  get_metrics_flag = with_changed flag_metrics (cmd.get_bool flag_metrics)

  unfoldable pub get_metrics_endpoint_flag : Result (Bytes × Bool)
  get_metrics_endpoint_flag =
      with_changed flag_metrics_endpoint (cmd.get_string flag_metrics_endpoint)

  unfoldable pub get_metrics_tls_flag : Result (Bool × Bool)
  get_metrics_tls_flag = with_changed flag_metrics_tls (cmd.get_bool flag_metrics_tls)

  unfoldable pub get_p2p_metrics_endpoint_flag : Result (Bytes × Bool)
  get_p2p_metrics_endpoint_flag =
      with_changed flag_metrics_p2p_endpoint (cmd.get_string flag_metrics_p2p_endpoint)
