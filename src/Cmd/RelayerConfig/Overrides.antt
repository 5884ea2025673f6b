-- ===== src/Cmd/RelayerConfig/Overrides.antt =====
-- The relayer's configuration from its flags and its file.
use mathlib.Core.Path.{subst}
use orchestrator_relayer.Prelude.{◌≡◌, refl, [], Bytes, arith, inl, inr, str_eq}
use orchestrator_relayer.Effect.{ok, Result-cases}
use orchestrator_relayer.Cmd.BaseFlags.{
  Flags, FlagSet, string_flag, bool_flag, uint64_flag, flag_home, flag_evm_passphrase,
  flag_bootstrappers, flag_p2p_listen_address, flag_p2p_nickname, flag_grpc_insecure,
  flag_evm_acc_address, flag_evm_chain_id, flag_evm_rpc, flag_evm_gas_limit,
  flag_evm_contract_address, flag_evm_retry_timeout, flag_core_grpc, flag_core_rpc, flag_log_level,
  flag_log_format, flag_backup_relayer, flag_backup_relayer_wait_time, flag_metrics,
  flag_metrics_endpoint, flag_metrics_tls, flag_metrics_p2p_endpoint, add_evm_passphrase_flag,
  add_log_level_flag, add_log_format_flag, add_p2p_nickname_flag, add_p2p_listen_address_flag,
  add_bootstrappers_flag, add_grpc_insecure_flag, add_core_grpc_flag, add_evm_chain_id_flag,
  add_core_rpc_flag, add_evm_rpc_flag, add_evm_contract_address_flag, add_evm_gas_limit_flag,
  add_backup_relayer_flag, add_backup_relayer_wait_time_flag, add_home_flag,
  add_evm_acc_address_flag, add_evm_retry_timeout_flag, add_metrics_flag, add_metrics_endpoint_flag,
  add_metrics_tls_flag, add_p2p_metrics_endpoint, get_evm_passphrase_flag, get_log_format_flag,
  get_log_level_flag, get_p2p_nickname_flag, get_p2p_listen_address_flag, get_bootstrappers_flag,
  get_grpc_insecure_flag, get_core_grpc_flag, get_evm_chain_id_flag, get_core_rpc_flag,
  get_evm_rpc_flag, get_evm_contract_address_flag, get_evm_gas_limit_flag, get_backup_relayer_flag,
  get_backup_relayer_wait_time_flag, get_home_flag, get_evm_acc_address_flag,
  get_evm_retry_timeout_flag, get_metrics_flag, get_metrics_endpoint_flag, get_metrics_tls_flag,
  get_p2p_metrics_endpoint_flag,
}
use orchestrator_relayer.Cmd.BaseFlags.Honours.{
  Honours, default_of, Read, string_value, bool_value, uint64_value, Overridden,
  if_changed-Overridden,
}
use orchestrator_relayer.Cmd.Base.{
  Environment, default_service_path, with_tcp, if_changed, add_with_default_home,
}
use orchestrator_relayer.Cmd.RelayerConfig.{
  StartConfig, service_name_relayer, add_relayer_start_flags, parse_relayer_start_flags,
  add_flags_after_home,
}

-- A configuration that is read from the flags over one from a file.
pub record Overrides (cmd : Flags) (file config : StartConfig) : Type 0 where
  pub evm_acc_address : cmd.get_string flag_evm_acc_address ≡ ok config.evm_acc_address
  pub evm_chain_id :
      Overridden
        (cmd.get_uint64 flag_evm_chain_id)
        (λ v. v)
        (cmd.changed flag_evm_chain_id)
        file.evm_chain_id
        config.evm_chain_id
  pub core_rpc :
      Overridden
        (cmd.get_string flag_core_rpc)
        with_tcp
        (cmd.changed flag_core_rpc)
        file.core_rpc
        config.core_rpc
  pub core_grpc :
      Overridden
        (cmd.get_string flag_core_grpc)
        (λ v. v)
        (cmd.changed flag_core_grpc)
        file.core_grpc
        config.core_grpc
  pub contract_addr :
      Overridden
        (cmd.get_string flag_evm_contract_address)
        (λ v. v)
        (cmd.changed flag_evm_contract_address)
        file.contract_addr
        config.contract_addr
  pub evm_rpc :
      Overridden
        (cmd.get_string flag_evm_rpc)
        (λ v. v)
        (cmd.changed flag_evm_rpc)
        file.evm_rpc
        config.evm_rpc
  pub evm_gas_limit :
      Overridden
        (cmd.get_uint64 flag_evm_gas_limit)
        (λ v. v)
        (cmd.changed flag_evm_gas_limit)
        file.evm_gas_limit
        config.evm_gas_limit
  pub bootstrappers :
      Overridden
        (cmd.get_string flag_bootstrappers)
        (λ v. v)
        (cmd.changed flag_bootstrappers)
        file.bootstrappers
        config.bootstrappers
  pub p2p_listen_addr :
      Overridden
        (cmd.get_string flag_p2p_listen_address)
        (λ v. v)
        (cmd.changed flag_p2p_listen_address)
        file.p2p_listen_addr
        config.p2p_listen_addr
  pub p2p_nickname : cmd.get_string flag_p2p_nickname ≡ ok config.p2p_nickname
  pub home : cmd.get_string flag_home ≡ ok config.base.home
  pub evm_passphrase : cmd.get_string flag_evm_passphrase ≡ ok config.base.evm_passphrase
  pub grpc_insecure :
      Overridden
        (cmd.get_bool flag_grpc_insecure)
        (λ v. v)
        (cmd.changed flag_grpc_insecure)
        file.grpc_insecure
        config.grpc_insecure
  pub log_level : cmd.get_string flag_log_level ≡ ok config.log_level
  pub log_format : cmd.get_string flag_log_format ≡ ok config.log_format
  pub evm_retry_timeout :
      Overridden
        (cmd.get_uint64 flag_evm_retry_timeout)
        (λ v. v)
        (cmd.changed flag_evm_retry_timeout)
        file.evm_retry_timeout
        config.evm_retry_timeout
  pub is_backup_relayer : cmd.get_bool flag_backup_relayer ≡ ok config.is_backup_relayer
  pub backup_relayer_wait_time :
      cmd.get_uint64 flag_backup_relayer_wait_time ≡ ok config.backup_relayer_wait_time
  pub metrics :
      Overridden
        (cmd.get_bool flag_metrics)
        (λ v. v)
        (cmd.changed flag_metrics)
        file.metrics_config.metrics
        config.metrics_config.metrics
  pub endpoint :
      Overridden
        (cmd.get_string flag_metrics_endpoint)
        (λ v. v)
        (cmd.changed flag_metrics_endpoint)
        file.metrics_config.endpoint
        config.metrics_config.endpoint
  pub tls :
      Overridden
        (cmd.get_bool flag_metrics_tls)
        (λ v. v)
        (cmd.changed flag_metrics_tls)
        file.metrics_config.tls
        config.metrics_config.tls
  pub p2p_endpoint :
      Overridden
        (cmd.get_string flag_metrics_p2p_endpoint)
        (λ v. v)
        (cmd.changed flag_metrics_p2p_endpoint)
        file.metrics_config.p2p_endpoint
        config.metrics_config.p2p_endpoint

-- the values of the flags
record Values (cmd : Flags) : Type 0 where
  evm_acc_addr : Read (cmd.get_string flag_evm_acc_address)
  evm_chain_id : Read (cmd.get_uint64 flag_evm_chain_id)
  core_rpc : Read (cmd.get_string flag_core_rpc)
  core_grpc : Read (cmd.get_string flag_core_grpc)
  contract_addr : Read (cmd.get_string flag_evm_contract_address)
  evm_rpc : Read (cmd.get_string flag_evm_rpc)
  evm_gas_limit : Read (cmd.get_uint64 flag_evm_gas_limit)
  bootstrappers : Read (cmd.get_string flag_bootstrappers)
  p2p_listen_address : Read (cmd.get_string flag_p2p_listen_address)
  p2p_nickname : Read (cmd.get_string flag_p2p_nickname)
  home_dir : Read (cmd.get_string flag_home)
  passphrase : Read (cmd.get_string flag_evm_passphrase)
  grpc_insecure : Read (cmd.get_bool flag_grpc_insecure)
  log_level : Read (cmd.get_string flag_log_level)
  log_format : Read (cmd.get_string flag_log_format)
  retry_timeout : Read (cmd.get_uint64 flag_evm_retry_timeout)
  is_backup_relayer : Read (cmd.get_bool flag_backup_relayer)
  backup_relayer_wait_time : Read (cmd.get_uint64 flag_backup_relayer_wait_time)
  metrics : Read (cmd.get_bool flag_metrics)
  endpoint : Read (cmd.get_string flag_metrics_endpoint)
  tls : Read (cmd.get_bool flag_metrics_tls)
  p2p : Read (cmd.get_string flag_metrics_p2p_endpoint)

configured : (cmd : Flags) → Values cmd → StartConfig → StartConfig
configured cmd values file = record {
  evm_acc_address = values.evm_acc_addr.0;
  evm_chain_id =
      if_changed (values.evm_chain_id.0, cmd.changed flag_evm_chain_id) file.evm_chain_id;
  core_rpc = if_changed (with_tcp values.core_rpc.0, cmd.changed flag_core_rpc) file.core_rpc;
  core_grpc = if_changed (values.core_grpc.0, cmd.changed flag_core_grpc) file.core_grpc;
  contract_addr =
      if_changed (values.contract_addr.0, cmd.changed flag_evm_contract_address) file.contract_addr;
  evm_rpc = if_changed (values.evm_rpc.0, cmd.changed flag_evm_rpc) file.evm_rpc;
  evm_gas_limit =
      if_changed (values.evm_gas_limit.0, cmd.changed flag_evm_gas_limit) file.evm_gas_limit;
  bootstrappers =
      if_changed (values.bootstrappers.0, cmd.changed flag_bootstrappers) file.bootstrappers;
  p2p_listen_addr =
      if_changed (values.p2p_listen_address.0, cmd.changed flag_p2p_listen_address)
        file.p2p_listen_addr;
  p2p_nickname = values.p2p_nickname.0;
  grpc_insecure =
      if_changed (values.grpc_insecure.0, cmd.changed flag_grpc_insecure) file.grpc_insecure;
  log_level = values.log_level.0;
  log_format = values.log_format.0;
  evm_retry_timeout =
      if_changed (values.retry_timeout.0, cmd.changed flag_evm_retry_timeout)
        file.evm_retry_timeout;
  is_backup_relayer = values.is_backup_relayer.0;
  backup_relayer_wait_time = values.backup_relayer_wait_time.0;
  base = record { home = values.home_dir.0; evm_passphrase = values.passphrase.0 };
  metrics_config = record {
    metrics = if_changed (values.metrics.0, cmd.changed flag_metrics) file.metrics_config.metrics;
    endpoint =
        if_changed (values.endpoint.0, cmd.changed flag_metrics_endpoint)
          file.metrics_config.endpoint;
    tls = if_changed (values.tls.0, cmd.changed flag_metrics_tls) file.metrics_config.tls;
    p2p_endpoint =
        if_changed (values.p2p.0, cmd.changed flag_metrics_p2p_endpoint)
          file.metrics_config.p2p_endpoint;
  };
}

configured-Overrides :
    (cmd : Flags) (values : Values cmd) (file : StartConfig)
    → Overrides cmd file (configured cmd values file)
unfolding configured
configured-Overrides cmd values file = record {
  evm_acc_address = values.evm_acc_addr.1;
  evm_chain_id = if_changed-Overridden _ (λ v. v) values.evm_chain_id.0 _ _ values.evm_chain_id.1;
  core_rpc = if_changed-Overridden _ with_tcp values.core_rpc.0 _ _ values.core_rpc.1;
  core_grpc = if_changed-Overridden _ (λ v. v) values.core_grpc.0 _ _ values.core_grpc.1;
  contract_addr =
      if_changed-Overridden _ (λ v. v) values.contract_addr.0 _ _ values.contract_addr.1;
  evm_rpc = if_changed-Overridden _ (λ v. v) values.evm_rpc.0 _ _ values.evm_rpc.1;
  evm_gas_limit =
      if_changed-Overridden _ (λ v. v) values.evm_gas_limit.0 _ _ values.evm_gas_limit.1;
  bootstrappers =
      if_changed-Overridden _ (λ v. v) values.bootstrappers.0 _ _ values.bootstrappers.1;
  p2p_listen_addr =
      if_changed-Overridden _ (λ v. v) values.p2p_listen_address.0 _ _ values.p2p_listen_address.1;
  p2p_nickname = values.p2p_nickname.1;
  home = values.home_dir.1;
  evm_passphrase = values.passphrase.1;
  grpc_insecure =
      if_changed-Overridden _ (λ v. v) values.grpc_insecure.0 _ _ values.grpc_insecure.1;
  log_level = values.log_level.1;
  log_format = values.log_format.1;
  evm_retry_timeout =
      if_changed-Overridden _ (λ v. v) values.retry_timeout.0 _ _ values.retry_timeout.1;
  is_backup_relayer = values.is_backup_relayer.1;
  backup_relayer_wait_time = values.backup_relayer_wait_time.1;
  metrics = if_changed-Overridden _ (λ v. v) values.metrics.0 _ _ values.metrics.1;
  endpoint = if_changed-Overridden _ (λ v. v) values.endpoint.0 _ _ values.endpoint.1;
  tls = if_changed-Overridden _ (λ v. v) values.tls.0 _ _ values.tls.1;
  p2p_endpoint = if_changed-Overridden _ (λ v. v) values.p2p.0 _ _ values.p2p.1;
}

parse_relayer_start_flags-configured :
    (cmd : Flags) (values : Values cmd) (file : StartConfig)
    → parse_relayer_start_flags cmd file ≡ ok (configured cmd values file)
unfolding configured parse_relayer_start_flags get_evm_acc_address_flag get_evm_chain_id_flag
    get_core_rpc_flag get_core_grpc_flag get_evm_contract_address_flag get_evm_rpc_flag
    get_evm_gas_limit_flag get_bootstrappers_flag get_p2p_listen_address_flag get_p2p_nickname_flag
    get_home_flag get_evm_passphrase_flag get_grpc_insecure_flag get_log_level_flag
    get_log_format_flag get_evm_retry_timeout_flag get_backup_relayer_flag
    get_backup_relayer_wait_time_flag get_metrics_flag get_metrics_endpoint_flag
    get_metrics_tls_flag get_p2p_metrics_endpoint_flag
parse_relayer_start_flags-configured cmd values file =
    rw
      (
        values.evm_acc_addr.1, values.evm_chain_id.1, values.core_rpc.1, values.core_grpc.1,
        values.contract_addr.1, values.evm_rpc.1, values.evm_gas_limit.1, values.bootstrappers.1,
        values.p2p_listen_address.1, values.p2p_nickname.1, values.home_dir.1, values.passphrase.1,
        values.grpc_insecure.1, values.log_level.1, values.log_format.1, values.retry_timeout.1,
        values.is_backup_relayer.1, values.backup_relayer_wait_time.1, values.metrics.1,
        values.endpoint.1, values.tls.1, values.p2p.1,
      )
      refl

honoured :
    (cmd : Flags) (dir : Bytes)
    → Honours cmd (add_flags_after_home (add_home_flag dir []))
    → Values cmd
unfolding add_flags_after_home add_home_flag string_flag bool_flag uint64_flag
    add_evm_acc_address_flag add_evm_chain_id_flag add_core_grpc_flag add_core_rpc_flag
    add_evm_rpc_flag add_evm_contract_address_flag add_evm_gas_limit_flag add_evm_passphrase_flag
    add_p2p_nickname_flag add_p2p_listen_address_flag add_bootstrappers_flag add_grpc_insecure_flag
    add_log_level_flag add_log_format_flag add_evm_retry_timeout_flag add_backup_relayer_flag
    add_backup_relayer_wait_time_flag add_metrics_flag add_metrics_endpoint_flag
    add_metrics_tls_flag add_p2p_metrics_endpoint default_of str_eq
honoured cmd dir honours = record {
  evm_acc_addr = string_value honours flag_evm_acc_address refl;
  evm_chain_id = uint64_value honours flag_evm_chain_id refl;
  core_rpc = string_value honours flag_core_rpc refl;
  core_grpc = string_value honours flag_core_grpc refl;
  contract_addr = string_value honours flag_evm_contract_address refl;
  evm_rpc = string_value honours flag_evm_rpc refl;
  evm_gas_limit = uint64_value honours flag_evm_gas_limit refl;
  bootstrappers = string_value honours flag_bootstrappers refl;
  p2p_listen_address = string_value honours flag_p2p_listen_address refl;
  p2p_nickname = string_value honours flag_p2p_nickname refl;
  home_dir = string_value honours flag_home refl;
  passphrase = string_value honours flag_evm_passphrase refl;
  grpc_insecure = bool_value honours flag_grpc_insecure refl;
  log_level = string_value honours flag_log_level refl;
  log_format = string_value honours flag_log_format refl;
  retry_timeout = uint64_value honours flag_evm_retry_timeout refl;
  is_backup_relayer = bool_value honours flag_backup_relayer refl;
  backup_relayer_wait_time = uint64_value honours flag_backup_relayer_wait_time refl;
  metrics = bool_value honours flag_metrics refl;
  endpoint = string_value honours flag_metrics_endpoint refl;
  tls = bool_value honours flag_metrics_tls refl;
  p2p = string_value honours flag_metrics_p2p_endpoint refl;
}

-- The flags that the command declares suffice to read its configuration: with pflag's behaviour on these
-- flags, reading them does not fail. Every field for which the file has a value takes the flag's if it was
-- changed on the command line and keeps the file's otherwise, `core_rpc` with `tcp://` put before a flag without it;
-- the other fields take the flags' values.
pub parse_relayer_start_flags-Overrides :
    (env : Environment) (cmd : Flags) (set : FlagSet) (file : StartConfig)
    → add_relayer_start_flags env [] ≡ ok set
    → Honours cmd set
    → (config : StartConfig) × (parse_relayer_start_flags cmd file ≡ ok config)
      × Overrides cmd file config
unfolding add_relayer_start_flags add_with_default_home
parse_relayer_start_flags-Overrides env cmd set file added honours =
    elim (Result-cases (default_service_path env service_name_relayer)) [
      | inl (dir, found) ↦
          let same : set ≡ add_flags_after_home (add_home_flag dir []) =
            ground (arith, found, added) in
          let values = honoured cmd dir (subst (Honours cmd) same honours) in
          (
            configured cmd values file,
            parse_relayer_start_flags-configured cmd values file,
            configured-Overrides cmd values file,
          )
      | inr (e, lost) ↦ absurd (ground (arith, lost, added))
    ]
