-- ===== src/Cmd/OrchestratorConfig.antt =====
-- cmd/blobstream/orchestrator/config.go: the flags and the configuration of the orchestrator's `start`.
pub mod Overrides
use orchestrator_relayer.Prelude.{
  ℕ, ◌==◌, ◌&&◌, Bool, true, false, List, [], ◌∷◌, Bytes, codes, str_eq, if◌then◌else◌,
}
use orchestrator_relayer.Effect.{panicked, Result, ok, err}
use orchestrator_relayer.Effect.Fallible.{◌>>=◌, ◌>>◌, guard}
use orchestrator_relayer.Evm.Geth.{Geth}
use orchestrator_relayer.Cmd.BaseFlags.{
  FlagSet, add_evm_passphrase_flag, add_log_level_flag, add_log_format_flag, add_p2p_nickname_flag,
  add_p2p_listen_address_flag, add_bootstrappers_flag, add_grpc_insecure_flag, add_core_grpc_flag,
  add_core_rpc_flag, add_evm_acc_address_flag, add_metrics_flag, add_metrics_endpoint_flag,
  add_metrics_tls_flag, add_p2p_metrics_endpoint, get_evm_passphrase_flag, get_log_format_flag,
  get_log_level_flag, get_p2p_nickname_flag, get_p2p_listen_address_flag, get_bootstrappers_flag,
  get_grpc_insecure_flag, get_core_grpc_flag, get_core_rpc_flag, get_home_flag,
  get_evm_acc_address_flag, get_metrics_flag, get_metrics_endpoint_flag, get_metrics_tls_flag,
  get_p2p_metrics_endpoint_flag, Flags,
}
use orchestrator_relayer.Cmd.Base.{
  Config, Environment, default_service_path, validate_evm_address, if_changed, with_tcp, InitConfig,
  parse_home_and_logs, with_default_home, add_with_default_home, TelemetryConfig,
}

abbrev pub service_name_orchestrator : Bytes
service_name_orchestrator = codes "orchestrator"

unfoldable pub add_flags_before_home : FlagSet → FlagSet
add_flags_before_home cmd =
    add_evm_passphrase_flag (add_evm_acc_address_flag (add_core_grpc_flag (add_core_rpc_flag cmd)))

unfoldable pub add_flags_after_home : FlagSet → FlagSet
add_flags_after_home cmd =
    let cmd = add_p2p_nickname_flag cmd in
    let cmd = add_p2p_listen_address_flag cmd in
    let cmd = add_bootstrappers_flag cmd in
    let cmd = add_grpc_insecure_flag cmd in
    let cmd = add_log_level_flag cmd in
    let cmd = add_log_format_flag cmd in
    let cmd = add_metrics_flag cmd in
    let cmd = add_metrics_endpoint_flag cmd in
    let cmd = add_metrics_tls_flag cmd in let cmd = add_p2p_metrics_endpoint cmd in cmd

unfoldable pub add_orchestrator_flags : Environment → FlagSet → Result FlagSet
add_orchestrator_flags env cmd =
    add_with_default_home env service_name_orchestrator (add_flags_before_home cmd)
      add_flags_after_home

pub record StartConfig : Type 0 where
  pub base : Config
  pub core_grpc : Bytes
  pub core_rpc : Bytes
  pub evm_acc_address : Bytes
  pub bootstrappers : Bytes
  pub p2p_listen_addr : Bytes
  pub p2p_nickname : Bytes
  pub grpc_insecure : Bool
  pub log_level : Bytes
  pub log_format : Bytes
  pub metrics_config : TelemetryConfig

unfoldable pub default_start_config : StartConfig
default_start_config = record {
  base = record { home = []; evm_passphrase = [] };
  core_grpc = codes "localhost:9090";
  core_rpc = codes "tcp://localhost:26657";
  evm_acc_address = [];
  bootstrappers = [];
  p2p_listen_addr = codes "/ip4/0.0.0.0/tcp/30000";
  p2p_nickname = [];
  grpc_insecure = true;
  log_level = [];
  log_format = [];
  metrics_config = record {
    metrics = false;
    endpoint = codes "localhost:4318";
    tls = false;
    p2p_endpoint = codes "localhost:30001";
  };
}

unfoldable pub validate_basics : Geth → StartConfig → Result (Unit {0})
validate_basics geth cfg = validate_evm_address geth cfg.evm_acc_address

-- `startConf` is changed in place in the source; after an error it is not used.
unfoldable pub parse_orchestrator_flags : Flags → StartConfig → Result StartConfig
parse_orchestrator_flags cmd start_conf = do
  evm_acc_addr ← get_evm_acc_address_flag cmd
  core_rpc ← get_core_rpc_flag cmd
  core_grpc ← get_core_grpc_flag cmd
  bootstrappers ← get_bootstrappers_flag cmd
  p2p_listen_address ← get_p2p_listen_address_flag cmd
  p2p_nickname ← get_p2p_nickname_flag cmd
  home_dir ← get_home_flag cmd
  passphrase ← get_evm_passphrase_flag cmd
  grpc_insecure ← get_grpc_insecure_flag cmd
  metrics ← get_metrics_flag cmd
  endpoint ← get_metrics_endpoint_flag cmd
  tls ← get_metrics_tls_flag cmd
  p2p ← get_p2p_metrics_endpoint_flag cmd
  log_level ← get_log_level_flag cmd
  log_format ← get_log_format_flag cmd
  ok (record {
    base = record { home = home_dir.0; evm_passphrase = passphrase.0 };
    core_grpc = if_changed core_grpc start_conf.core_grpc;
    core_rpc = if_changed (with_tcp core_rpc.0, core_rpc.1) start_conf.core_rpc;
    evm_acc_address = evm_acc_addr.0;
    bootstrappers = if_changed bootstrappers start_conf.bootstrappers;
    p2p_listen_addr = if_changed p2p_listen_address start_conf.p2p_listen_addr;
    p2p_nickname = if_changed p2p_nickname start_conf.p2p_nickname;
    grpc_insecure = if_changed grpc_insecure start_conf.grpc_insecure;
    log_level = log_level.0;
    log_format = log_format.0;
    metrics_config = record {
      metrics = if_changed metrics start_conf.metrics_config.metrics;
      endpoint = if_changed endpoint start_conf.metrics_config.endpoint;
      tls = if_changed tls start_conf.metrics_config.tls;
      p2p_endpoint = if_changed p2p start_conf.metrics_config.p2p_endpoint;
    };
  })

unfoldable pub add_init_flags : Environment → FlagSet → Result FlagSet
add_init_flags env cmd =
    add_with_default_home env service_name_orchestrator cmd
      λ cmd. add_log_format_flag (add_log_level_flag cmd)

unfoldable pub parse_init_flags : Environment → Flags → Result InitConfig
parse_init_flags env cmd = parse_home_and_logs env service_name_orchestrator cmd
