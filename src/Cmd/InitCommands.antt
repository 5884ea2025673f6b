-- ===== src/Cmd/InitCommands.antt =====
-- cmd/blobstream/{orchestrator,relayer,bootstrapper}/cmd.go: the `init` commands.
use orchestrator_relayer.Prelude.{Bool, true, false, Bytes, codes}
use orchestrator_relayer.Effect.{Result, Go, pure, lift, ◌>>=◌, ◌>>◌}
use orchestrator_relayer.Store.Init.{FileCalls, InitOptions, is_init, init}
use orchestrator_relayer.Cmd.BaseFlags.{Flags}
use orchestrator_relayer.Cmd.Base.{Environment, InitConfig}
use orchestrator_relayer.Cmd.ConfigFiles.{ConfigFiles, initialize_config_file}
use orchestrator_relayer.Cmd.OrchestratorConfig
use orchestrator_relayer.Cmd.RelayerConfig
use orchestrator_relayer.Cmd.BootstrapperConfig

abbrev pub orchestrator_options : InitOptions
orchestrator_options = record {
  need_data_store = true;
  need_signature_store = false;
  need_evm_key_store = true;
  need_p2p_key_store = true;
}

abbrev pub relayer_options : InitOptions
relayer_options = record {
  need_data_store = true;
  need_signature_store = true;
  need_evm_key_store = true;
  need_p2p_key_store = true;
}

abbrev pub bootstrapper_options : InitOptions
bootstrapper_options = record {
  need_data_store = false;
  need_signature_store = false;
  need_evm_key_store = false;
  need_p2p_key_store = true;
}

-- `parse_level` is `zerolog.ParseLevel`, the part of `GetLogger` that can fail.
module _ {W : Type 0} (env : Environment) (fs : FileCalls W)
    (parse_level : Bytes → Result (Unit {0})) where
  -- the configuration of the command, and whether its store is there
  unfoldable pub checked_init : Result InitConfig → InitOptions → Go W (InitConfig × Bool)
  checked_init parsed options = do
    config ← lift parsed
    lift (parse_level config.log_level)
    inited ← is_init fs config.home options
    pure (config, inited)

  unfoldable pub default_config_file : {C : Type 0} → ConfigFiles W C → Bytes → C → Go W (Unit {0})
  default_config_file files home default =
      let config_path = files.join home (codes "config") in
      initialize_config_file files (files.join config_path (codes "config.toml")) config_path
        default

  unfoldable pub init_with_config :
      {C : Type 0} → ConfigFiles W C → C → InitOptions → InitConfig × Bool → Go W (Unit {0})
  init_with_config files default options (config, true) = pure tt
  init_with_config files default options (config, false) = do
    init fs config.home options
    default_config_file files config.home default

  unfoldable pub init_orchestrator :
      ConfigFiles W OrchestratorConfig.StartConfig → Flags → Go W (Unit {0})
  init_orchestrator files cmd = do
    checked ← checked_init (OrchestratorConfig.parse_init_flags env cmd) orchestrator_options
    init_with_config files OrchestratorConfig.default_start_config orchestrator_options checked

  unfoldable pub init_relayer : ConfigFiles W RelayerConfig.StartConfig → Flags → Go W (Unit {0})
  init_relayer files cmd = do
    checked ← checked_init (RelayerConfig.parse_init_flags env cmd) relayer_options
    init_with_config files RelayerConfig.default_start_config relayer_options checked

  -- it has no configuration file
  unfoldable pub init_without_config : InitOptions → InitConfig × Bool → Go W (Unit {0})
  init_without_config options (config, true) = pure tt
  init_without_config options (config, false) = init fs config.home options

  unfoldable pub init_bootstrapper : Flags → Go W (Unit {0})
  init_bootstrapper cmd = do
    checked ← checked_init (BootstrapperConfig.parse_init_flags env cmd) bootstrapper_options
    init_without_config bootstrapper_options checked
