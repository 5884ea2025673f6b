-- ===== src/Cmd/Base.antt =====
-- cmd/blobstream/base/config.go: the home directory, the EVM address, and what the commands share in reading
-- their flags. The environment is a parameter.
use orchestrator_relayer.Prelude.{
  Bool, not, ◌&&◌, [], ◌++◌, Bytes, codes, map, str_eq, if◌then◌else◌,
}
use orchestrator_relayer.Effect.{
  empty_evm_account, valid_evm_address_required, panicked, Result, ok, err,
}
use orchestrator_relayer.Effect.Fallible.{◌>>=◌, guard}
use orchestrator_relayer.Std.Strings.{to_upper, to_lower, has_prefix}
use orchestrator_relayer.Evm.Geth.{Geth}
use orchestrator_relayer.Cmd.BaseFlags.{
  Flags, FlagSet, flag_home, add_home_flag, get_home_flag, get_log_level_flag, get_log_format_flag,
}

pub record Config : Type 0 where
  pub home : Bytes
  pub evm_passphrase : Bytes

-- `os.Getenv` and `os.UserHomeDir`
pub record Environment : Type 0 where
  pub getenv : Bytes → Bytes
  pub user_home_dir : Result Bytes

unfoldable pub in_home : Bytes → Bytes → Bytes
in_home service_name home = home ++ codes "/." ++ map to_lower service_name

unfoldable pub default_service_path : Environment → Bytes → Result Bytes
default_service_path env service_name =
    let home = env.getenv (map to_upper service_name ++ codes "_HOME") in
    if str_eq home []
    then elim env.user_home_dir [ err e ↦ err e | ok dir ↦ ok (in_home service_name dir) ]
    else ok (in_home service_name home)

unfoldable pub home_or_default : Environment → Bytes → Bytes × Bool → Result Bytes
home_or_default env service (home_dir, changed) =
    if changed && not (str_eq home_dir []) then ok home_dir else default_service_path env service

unfoldable pub get_home_directory : Environment → Flags → Bytes → Result Bytes
get_home_directory env cmd service = elim (get_home_flag cmd) [
  | err e ↦ err e
  | ok home ↦ home_or_default env service home
]

unfoldable pub validate_evm_address : Geth → Bytes → Result (Unit {0})
validate_evm_address geth addr =
    if str_eq addr []
    then err empty_evm_account
    else guard (geth.is_hex_address addr) valid_evm_address_required

-- `if changed { conf.x = val }`
abbrev pub if_changed {ℓ} : {A : Type ℓ} → A × Bool → A → A
if_changed (val, changed) before = if changed then val else before

-- `if !strings.HasPrefix(coreRPC, "tcp://") { coreRPC = fmt.Sprintf("tcp://%s", coreRPC) }`
unfoldable pub with_tcp : Bytes → Bytes
with_tcp core_rpc =
    if has_prefix core_rpc (codes "tcp://") then core_rpc else codes "tcp://" ++ core_rpc

pub record TelemetryConfig : Type 0 where
  pub metrics : Bool
  pub endpoint : Bytes
  pub tls : Bool
  pub p2p_endpoint : Bytes

pub record InitConfig : Type 0 where
  pub home : Bytes
  pub log_level : Bytes
  pub log_format : Bytes

-- the default home directory for an empty one
unfoldable pub with_default_home : Environment → Bytes → Bytes → Result Bytes
with_default_home env service home_dir =
    if str_eq home_dir [] then default_service_path env service else ok home_dir

-- `parseInitFlags`, the same code in the three packages
unfoldable pub parse_home_and_logs : Environment → Bytes → Flags → Result InitConfig
parse_home_and_logs env service cmd = do
  home_flag ← cmd.get_string flag_home
  home_dir ← with_default_home env service home_flag
  log_level ← get_log_level_flag cmd
  log_format ← get_log_format_flag cmd
  ok (record { home = home_dir; log_level = log_level.0; log_format = log_format.0 })

-- A flag for the home directory, with its default, and further flags; without a default the program panics.
unfoldable pub add_with_default_home :
    Environment → Bytes → FlagSet → (FlagSet → FlagSet) → Result FlagSet
add_with_default_home env service cmd more = elim (default_service_path env service) [
  | err _ ↦ err panicked
  | ok home_dir ↦ ok (more (add_home_flag home_dir cmd))
]
