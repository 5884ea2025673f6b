-- ===== src/Tests/Commands.antt =====
-- cmd/blobstream/relayer/config.go and cmd/blobstream/orchestrator/config.go at concrete inputs.
use orchestrator_relayer.Prelude.{
  ◌≡◌, refl, ℕ, Bool, [], Option, some, Bytes, codes, str_eq, if◌then◌else◌, arith, Bool-cases, inl,
  inr,
}
use orchestrator_relayer.Effect.{invalid, Result, ok, err}
use orchestrator_relayer.Std.Strings.{to_lower}
use orchestrator_relayer.Cmd.BaseFlags.{
  Flags, FlagSet, Default, string_default, bool_default, uint64_default, flag_core_rpc,
  add_home_flag,
}
use orchestrator_relayer.Cmd.BaseFlags.Honours.{default_of, Honours, Reads}
use orchestrator_relayer.Cmd.Base.{
  Environment, default_service_path, in_home, add_with_default_home,
}
use orchestrator_relayer.Cmd.RelayerConfig
use orchestrator_relayer.Cmd.OrchestratorConfig
use orchestrator_relayer.Cmd.RelayerConfig.Overrides as RelayerOverrides
use orchestrator_relayer.Cmd.OrchestratorConfig.Overrides as OrchestratorOverrides
use orchestrator_relayer.Cmd.RelayerConfig.Overrides.{parse_relayer_start_flags-Overrides}
use orchestrator_relayer.Cmd.OrchestratorConfig.Overrides.{parse_orchestrator_flags-Overrides}

string_of : Option Default → Result Bytes
string_of (some (string_default d)) = ok d
string_of _ = err invalid

bool_of : Option Default → Result Bool
bool_of (some (bool_default d)) = ok d
bool_of _ = err invalid

uint64_of : Option Default → Result ℕ
uint64_of (some (uint64_default d)) = ok d
uint64_of _ = err invalid

-- the command line `--core.rpc localhost:1`
settings : FlagSet → Flags
settings set = record {
  changed = λ name. str_eq name flag_core_rpc;
  get_string = λ name.
      if str_eq name flag_core_rpc
      then ok (codes "localhost:1")
      else string_of (default_of name set);
  get_bool = λ name. bool_of (default_of name set);
  get_uint64 = λ name. uint64_of (default_of name set);
}

settings-Honours : (set : FlagSet) → Honours (settings set) set
unfolding settings string_of bool_of uint64_of
settings-Honours set = record {
  strings = read;
  bools = λ name d h. (d, rw h refl, λ _. refl);
  uint64s = λ name d h. (d, rw h refl, λ _. refl);
}
  where
    read :
        (name d : Bytes)
        → default_of name set ≡ some (string_default d)
        → Reads ((settings set).get_string name) ((settings set).changed name) d
    read name d h = elim (Bool-cases (str_eq name flag_core_rpc)) [
      | inl given ↦
          (codes "localhost:1", rw given refl, λ kept. absurd (ground (arith, given, kept)))
      | inr other ↦ (d, rw (other, h) refl, λ _. refl)
    ]

abbrev env : Environment
env = record { getenv = λ _. []; user_home_dir = ok (codes "/root") }

abbrev relayer_set : FlagSet
relayer_set = RelayerConfig.add_flags_after_home (add_home_flag (codes "/root/.relayer") [])

relayer_added : RelayerConfig.add_relayer_start_flags env [] ≡ ok relayer_set
unfolding RelayerConfig.add_relayer_start_flags add_with_default_home default_service_path in_home
    to_lower str_eq
relayer_added = refl

parse_relayer_start_flags-Overrides_example :
    (config : RelayerConfig.StartConfig) × (RelayerConfig.parse_relayer_start_flags
        (settings relayer_set)
        RelayerConfig.default_start_config
      ≡ ok config)
    × RelayerOverrides.Overrides (settings relayer_set) RelayerConfig.default_start_config config
parse_relayer_start_flags-Overrides_example =
    parse_relayer_start_flags-Overrides env (settings relayer_set) relayer_set
      RelayerConfig.default_start_config relayer_added (settings-Honours relayer_set)

abbrev orchestrator_set : FlagSet
orchestrator_set =
    OrchestratorConfig.add_flags_after_home
      (add_home_flag (codes "/root/.orchestrator") (OrchestratorConfig.add_flags_before_home []))

orchestrator_added : OrchestratorConfig.add_orchestrator_flags env [] ≡ ok orchestrator_set
unfolding OrchestratorConfig.add_orchestrator_flags add_with_default_home default_service_path
    in_home to_lower str_eq
orchestrator_added = refl

parse_orchestrator_flags-Overrides_example :
    (config : OrchestratorConfig.StartConfig) × (OrchestratorConfig.parse_orchestrator_flags
        (settings orchestrator_set)
        OrchestratorConfig.default_start_config
      ≡ ok config)
    × OrchestratorOverrides.Overrides
        (settings orchestrator_set)
        OrchestratorConfig.default_start_config
        config
parse_orchestrator_flags-Overrides_example =
    parse_orchestrator_flags-Overrides env (settings orchestrator_set) orchestrator_set
      OrchestratorConfig.default_start_config orchestrator_added (settings-Honours orchestrator_set)
