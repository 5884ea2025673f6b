-- ===== src/Cmd/DeployConfig.antt =====
-- cmd/blobstream/deploy/config.go: the flags and the configuration of `deploy`.
use orchestrator_relayer.Prelude.{ℕ, Bool, [], Bytes, codes, str_eq, if◌then◌else◌}
use orchestrator_relayer.Effect.{no_evm_account_address, Result, ok, err}
use orchestrator_relayer.Effect.Fallible.{◌>>=◌, ◌>>◌}
use orchestrator_relayer.Cmd.BaseFlags.{
  add_evm_chain_id_flag, get_evm_chain_id_flag, FlagSet, add_evm_passphrase_flag,
  add_log_level_flag, add_log_format_flag, add_starting_nonce_flag, add_grpc_insecure_flag,
  add_core_grpc_flag, add_core_rpc_flag, add_evm_rpc_flag, add_evm_gas_limit_flag,
  add_evm_acc_address_flag, get_evm_passphrase_flag, get_log_format_flag, get_log_level_flag,
  get_starting_nonce_flag, get_grpc_insecure_flag, get_core_grpc_flag, get_core_rpc_flag,
  get_evm_rpc_flag, get_evm_gas_limit_flag, get_home_flag, get_evm_acc_address_flag, Flags,
}
use orchestrator_relayer.Cmd.Base.{Config, Environment, with_tcp, add_with_default_home}

abbrev pub service_name_deployer : Bytes
service_name_deployer = codes "deployer"

unfoldable pub before_home : FlagSet → FlagSet
before_home cmd =
    let cmd = add_evm_acc_address_flag cmd in
    let cmd = add_evm_chain_id_flag cmd in
    let cmd = add_core_grpc_flag cmd in
    let cmd = add_core_rpc_flag cmd in
    let cmd = add_evm_rpc_flag cmd in
    let cmd = add_starting_nonce_flag cmd in
    let cmd = add_evm_gas_limit_flag cmd in let cmd = add_evm_passphrase_flag cmd in cmd

unfoldable pub add_deploy_flags : Environment → FlagSet → Result FlagSet
add_deploy_flags env cmd = add_with_default_home env service_name_deployer (before_home cmd) λ cmd.
    let cmd = add_grpc_insecure_flag cmd in
    let cmd = add_log_level_flag cmd in let cmd = add_log_format_flag cmd in cmd

pub record DeployConfig : Type 0 where
  pub base : Config
  pub evm_rpc : Bytes
  pub core_rpc : Bytes
  pub core_grpc : Bytes
  pub evm_chain_id : ℕ
  pub evm_acc_address : Bytes
  pub starting_nonce : Bytes
  pub evm_gas_limit : ℕ
  pub grpc_insecure : Bool
  pub log_level : Bytes
  pub log_format : Bytes

unfoldable pub unless_empty : Bytes → Result (Unit {0})
unless_empty evm_acc_addr = if str_eq evm_acc_addr [] then err no_evm_account_address else ok tt

unfoldable pub parse_deploy_flags : Flags → Result DeployConfig
parse_deploy_flags cmd = do
  evm_acc_addr ← get_evm_acc_address_flag cmd
  unless_empty evm_acc_addr.0
  evm_chain_id ← get_evm_chain_id_flag cmd
  core_rpc ← get_core_rpc_flag cmd
  core_grpc ← get_core_grpc_flag cmd
  evm_rpc ← get_evm_rpc_flag cmd
  starting_nonce ← get_starting_nonce_flag cmd
  evm_gas_limit ← get_evm_gas_limit_flag cmd
  home_dir ← get_home_flag cmd
  passphrase ← get_evm_passphrase_flag cmd
  grpc_insecure ← get_grpc_insecure_flag cmd
  log_level ← get_log_level_flag cmd
  log_format ← get_log_format_flag cmd
  ok (record {
    base = record { home = home_dir.0; evm_passphrase = passphrase.0 };
    evm_rpc = evm_rpc.0;
    core_rpc = with_tcp core_rpc.0;
    core_grpc = core_grpc.0;
    evm_chain_id = evm_chain_id.0;
    evm_acc_address = evm_acc_addr.0;
    starting_nonce = starting_nonce.0;
    evm_gas_limit = evm_gas_limit.0;
    grpc_insecure = grpc_insecure.0;
    log_level = log_level.0;
    log_format = log_format.0;
  })
