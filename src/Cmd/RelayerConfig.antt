-- ===== src/Cmd/RelayerConfig.antt =====
-- cmd/blobstream/relayer/config.go: the flags and the configuration of the relayer's `start`.
pub mod Overrides
use orchestrator_relayer.Prelude.{
  ℕ, ◌==◌, ◌&&◌, Bool, true, false, List, [], ◌∷◌, Bytes, codes, str_eq, if◌then◌else◌,
}
use orchestrator_relayer.Effect.{panicked, backup_wait_is_0, Result, ok, err}
use orchestrator_relayer.Effect.Fallible.{◌>>=◌, ◌>>◌, guard}
use orchestrator_relayer.Evm.Geth.{Geth}
use orchestrator_relayer.Cmd.BaseFlags.{
  add_evm_chain_id_flag, get_evm_chain_id_flag, FlagSet, add_evm_passphrase_flag,
  add_log_level_flag, add_log_format_flag, add_p2p_nickname_flag, add_p2p_listen_address_flag,
  add_bootstrappers_flag, add_grpc_insecure_flag, add_core_grpc_flag, add_core_rpc_flag,
  add_evm_rpc_flag, add_evm_contract_address_flag, add_evm_gas_limit_flag, add_backup_relayer_flag,
  add_backup_relayer_wait_time_flag, add_evm_acc_address_flag, add_evm_retry_timeout_flag,
  add_metrics_flag, add_metrics_endpoint_flag, add_metrics_tls_flag, add_p2p_metrics_endpoint,
  get_evm_passphrase_flag, get_log_format_flag, get_log_level_flag, get_p2p_nickname_flag,
  get_p2p_listen_address_flag, get_bootstrappers_flag, get_grpc_insecure_flag, get_core_grpc_flag,
  get_core_rpc_flag, get_evm_rpc_flag, get_evm_contract_address_flag, get_evm_gas_limit_flag,
  get_backup_relayer_flag, get_backup_relayer_wait_time_flag, get_home_flag,
  get_evm_acc_address_flag, get_evm_retry_timeout_flag, get_metrics_flag, get_metrics_endpoint_flag,
  get_metrics_tls_flag, get_p2p_metrics_endpoint_flag, Flags,
}
use orchestrator_relayer.Cmd.Base.{
  Config, Environment, default_service_path, validate_evm_address, if_changed, with_tcp, InitConfig,
  parse_home_and_logs, with_default_home, add_with_default_home, TelemetryConfig,
}

abbrev pub service_name_relayer : Bytes
service_name_relayer = codes "relayer"

unfoldable pub add_flags_after_home : FlagSet → FlagSet
add_flags_after_home cmd =
    let cmd = add_evm_acc_address_flag cmd in
    let cmd = add_evm_chain_id_flag cmd in
    let cmd = add_core_grpc_flag cmd in
    let cmd = add_core_rpc_flag cmd in
    let cmd = add_evm_rpc_flag cmd in
    let cmd = add_evm_contract_address_flag cmd in
    let cmd = add_evm_gas_limit_flag cmd in
    let cmd = add_evm_passphrase_flag cmd in
    let cmd = add_p2p_nickname_flag cmd in
    let cmd = add_p2p_listen_address_flag cmd in
    let cmd = add_bootstrappers_flag cmd in
    let cmd = add_grpc_insecure_flag cmd in
    let cmd = add_log_level_flag cmd in
    let cmd = add_log_format_flag cmd in
    let cmd = add_evm_retry_timeout_flag cmd in
    let cmd = add_backup_relayer_flag cmd in
    let cmd = add_backup_relayer_wait_time_flag cmd in
    let cmd = add_metrics_flag cmd in
    let cmd = add_metrics_endpoint_flag cmd in
    let cmd = add_metrics_tls_flag cmd in let cmd = add_p2p_metrics_endpoint cmd in cmd

unfoldable pub add_relayer_start_flags : Environment → FlagSet → Result FlagSet
add_relayer_start_flags env cmd =
    add_with_default_home env service_name_relayer cmd add_flags_after_home

pub record StartConfig : Type 0 where
  pub base : Config
  pub evm_chain_id : ℕ
  pub evm_rpc : Bytes
  pub core_grpc : Bytes
  pub core_rpc : Bytes
  pub evm_acc_address : Bytes
  pub contract_addr : Bytes
  pub evm_gas_limit : ℕ
  pub bootstrappers : Bytes
  pub p2p_listen_addr : Bytes
  pub p2p_nickname : Bytes
  pub grpc_insecure : Bool
  pub log_level : Bytes
  pub log_format : Bytes
  pub evm_retry_timeout : ℕ
  pub is_backup_relayer : Bool
  pub backup_relayer_wait_time : ℕ
  pub metrics_config : TelemetryConfig

unfoldable pub default_start_config : StartConfig
default_start_config = record {
  base = record { home = []; evm_passphrase = [] };
  evm_chain_id = 5;
  evm_rpc = codes "http://localhost:8545";
  core_grpc = codes "localhost:9090";
  core_rpc = codes "tcp://localhost:26657";
  evm_acc_address = [];
  contract_addr = [];
  evm_gas_limit = 2500000;
  bootstrappers = [];
  p2p_listen_addr = codes "/ip4/0.0.0.0/tcp/30000";
  p2p_nickname = [];
  grpc_insecure = true;
  log_level = [];
  log_format = [];
  evm_retry_timeout = 15;
  is_backup_relayer = false;
  backup_relayer_wait_time = 0;
  metrics_config = record {
    metrics = false;
    endpoint = codes "localhost:4318";
    tls = false;
    p2p_endpoint = codes "localhost:30001";
  };
}

unfoldable pub validate_basics : Geth → StartConfig → Result (Unit {0})
validate_basics geth cfg = do
  validate_evm_address geth cfg.evm_acc_address
  validate_evm_address geth cfg.contract_addr
  if cfg.is_backup_relayer && cfg.backup_relayer_wait_time == 0 then err backup_wait_is_0 else ok tt

-- `fileConfig` is changed in place in the source; after an error it is not used.
unfoldable pub parse_relayer_start_flags : Flags → StartConfig → Result StartConfig
parse_relayer_start_flags cmd file_config = do
  evm_acc_addr ← get_evm_acc_address_flag cmd
  evm_chain_id ← get_evm_chain_id_flag cmd
  core_rpc ← get_core_rpc_flag cmd
  core_grpc ← get_core_grpc_flag cmd
  contract_addr ← get_evm_contract_address_flag cmd
  evm_rpc ← get_evm_rpc_flag cmd
  evm_gas_limit ← get_evm_gas_limit_flag cmd
  bootstrappers ← get_bootstrappers_flag cmd
  p2p_listen_address ← get_p2p_listen_address_flag cmd
  p2p_nickname ← get_p2p_nickname_flag cmd
  home_dir ← get_home_flag cmd
  passphrase ← get_evm_passphrase_flag cmd
  grpc_insecure ← get_grpc_insecure_flag cmd
  log_level ← get_log_level_flag cmd
  log_format ← get_log_format_flag cmd
  retry_timeout ← get_evm_retry_timeout_flag cmd
  is_backup_relayer ← get_backup_relayer_flag cmd
  backup_relayer_wait_time ← get_backup_relayer_wait_time_flag cmd
  metrics ← get_metrics_flag cmd
  endpoint ← get_metrics_endpoint_flag cmd
  tls ← get_metrics_tls_flag cmd
  p2p ← get_p2p_metrics_endpoint_flag cmd
  ok (record {
    base = record { home = home_dir.0; evm_passphrase = passphrase.0 };
    evm_chain_id = if_changed evm_chain_id file_config.evm_chain_id;
    evm_rpc = if_changed evm_rpc file_config.evm_rpc;
    core_grpc = if_changed core_grpc file_config.core_grpc;
    core_rpc = if_changed (with_tcp core_rpc.0, core_rpc.1) file_config.core_rpc;
    evm_acc_address = evm_acc_addr.0;
    contract_addr = if_changed contract_addr file_config.contract_addr;
    evm_gas_limit = if_changed evm_gas_limit file_config.evm_gas_limit;
    bootstrappers = if_changed bootstrappers file_config.bootstrappers;
    p2p_listen_addr = if_changed p2p_listen_address file_config.p2p_listen_addr;
    p2p_nickname = p2p_nickname.0;
    grpc_insecure = if_changed grpc_insecure file_config.grpc_insecure;
    log_level = log_level.0;
    log_format = log_format.0;
    evm_retry_timeout = if_changed retry_timeout file_config.evm_retry_timeout;
    is_backup_relayer = is_backup_relayer.0;
    backup_relayer_wait_time = backup_relayer_wait_time.0;
    metrics_config = record {
      metrics = if_changed metrics file_config.metrics_config.metrics;
      endpoint = if_changed endpoint file_config.metrics_config.endpoint;
      tls = if_changed tls file_config.metrics_config.tls;
      p2p_endpoint = if_changed p2p file_config.metrics_config.p2p_endpoint;
    };
  })

unfoldable pub add_init_flags : Environment → FlagSet → Result FlagSet
add_init_flags env cmd =
    add_with_default_home env service_name_relayer cmd
      λ cmd. add_log_format_flag (add_log_level_flag cmd)

unfoldable pub parse_init_flags : Environment → Flags → Result InitConfig
parse_init_flags env cmd = parse_home_and_logs env service_name_relayer cmd
