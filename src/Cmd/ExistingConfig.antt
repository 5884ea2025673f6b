-- ===== src/Cmd/ExistingConfig.antt =====
-- cmd/blobstream/query/cmd.go: finding the configuration of an orchestrator or a relayer.
use orchestrator_relayer.Prelude.{not, ◌&&◌, Bool, [], ◌∷◌, Bytes, codes, str_eq, if◌then◌else◌}
use orchestrator_relayer.Effect.{no_such_home, ok, err, Go, pure, fail, lift, attempt, ◌>>=◌}
use orchestrator_relayer.Cmd.BaseFlags.{Flags, get_home_flag}
use orchestrator_relayer.Cmd.Base.{Environment, get_home_directory}
use orchestrator_relayer.Cmd.ConfigFiles.{ConfigFiles, get_start_config}
use orchestrator_relayer.Cmd.QueryConfig.{QueryConfig, new_partial_config, default_config}
use orchestrator_relayer.Cmd.OrchestratorConfig
use orchestrator_relayer.Cmd.RelayerConfig

-- what the search for a configuration takes: the environment, and the files of both services
pub record Homes (W : Type 0) : Type 0 where
  pub env : Environment
  pub orchestrators : ConfigFiles W OrchestratorConfig.StartConfig
  pub relayers : ConfigFiles W RelayerConfig.StartConfig

unfoldable pub of_orchestrator : OrchestratorConfig.StartConfig → QueryConfig
of_orchestrator conf =
    new_partial_config conf.core_grpc conf.core_rpc conf.bootstrappers conf.grpc_insecure

unfoldable pub of_relayer : RelayerConfig.StartConfig → QueryConfig
of_relayer conf =
    new_partial_config conf.core_grpc conf.core_rpc conf.bootstrappers conf.grpc_insecure

module _ {W : Type 0} (homes : Homes W) where
  open homes use {env, orchestrators, relayers}

  unfoldable pub from_home : Bytes → Go W QueryConfig
  from_home home_dir = do
    let config_path = orchestrators.join home_dir (codes "config")
    o ← attempt (get_start_config orchestrators [] config_path)
    elim o [
      | ok conf ↦ pure (of_orchestrator conf)
      | err _ ↦ do
        r ← attempt (get_start_config relayers (config_path ∷ []) config_path)
        elim r [ ok conf ↦ pure (of_relayer conf) | err _ ↦ fail no_such_home ]
    ]

  -- the viper keeps the orchestrator's path for the relayer's search
  unfoldable pub from_default_homes : Flags → Go W QueryConfig
  from_default_homes cmd = do
    orch_home ← lift (get_home_directory env cmd OrchestratorConfig.service_name_orchestrator)
    let orch_path = orchestrators.join orch_home (codes "config")
    o ← attempt (get_start_config orchestrators [] orch_path)
    elim o [
      | ok conf ↦ pure (of_orchestrator conf)
      | err _ ↦ do
        rel_home ← lift (get_home_directory env cmd RelayerConfig.service_name_relayer)
        r ←
            attempt
              (get_start_config relayers (orch_path ∷ []) (relayers.join rel_home (codes "config")))
        elim r [ ok conf ↦ pure (of_relayer conf) | err _ ↦ pure default_config ]
    ]

  unfoldable pub home_or_search : Flags → Bytes × Bool → Go W QueryConfig
  home_or_search cmd (home_dir, changed) =
      if changed && not (str_eq home_dir []) then from_home home_dir else from_default_homes cmd

  unfoldable pub try_to_get_existing_config : Flags → Go W QueryConfig
  try_to_get_existing_config cmd = do home ← lift (get_home_flag cmd); home_or_search cmd home
