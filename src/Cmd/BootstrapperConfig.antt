-- ===== src/Cmd/BootstrapperConfig.antt =====
-- cmd/blobstream/bootstrapper/config.go: the flags and the configurations of the bootstrapper.
use orchestrator_relayer.Prelude.{Bytes, codes}
use orchestrator_relayer.Effect.{Result, ok}
use orchestrator_relayer.Effect.Fallible.{◌>>=◌}
use orchestrator_relayer.Cmd.BaseFlags.{
  FlagSet, flag_home, flag_bootstrappers, flag_p2p_listen_address, flag_p2p_nickname,
  add_log_level_flag, add_log_format_flag, add_p2p_nickname_flag, add_p2p_listen_address_flag,
  add_bootstrappers_flag, get_log_format_flag, get_log_level_flag, Flags,
}
use orchestrator_relayer.Cmd.Base.{
  Environment, InitConfig, parse_home_and_logs, with_default_home, add_with_default_home,
}

abbrev pub service_name_bootstrapper : Bytes
service_name_bootstrapper = codes "bootstrapper"

unfoldable pub add_start_flags : Environment → FlagSet → Result FlagSet
add_start_flags env cmd = add_with_default_home env service_name_bootstrapper cmd λ cmd.
    let cmd = add_p2p_nickname_flag cmd in
    let cmd = add_p2p_listen_address_flag cmd in
    let cmd = add_bootstrappers_flag cmd in
    let cmd = add_log_level_flag cmd in let cmd = add_log_format_flag cmd in cmd

pub record StartConfig : Type 0 where
  pub home : Bytes
  pub p2p_listen_addr : Bytes
  pub p2p_nickname : Bytes
  pub bootstrappers : Bytes
  pub log_level : Bytes
  pub log_format : Bytes

unfoldable pub parse_start_flags : Environment → Flags → Result StartConfig
parse_start_flags env cmd = do
  p2p_listen_address ← cmd.get_string flag_p2p_listen_address
  p2p_nickname ← cmd.get_string flag_p2p_nickname
  home_flag ← cmd.get_string flag_home
  home_dir ← with_default_home env service_name_bootstrapper home_flag
  bootstrappers ← cmd.get_string flag_bootstrappers
  log_level ← get_log_level_flag cmd
  log_format ← get_log_format_flag cmd
  ok (record {
    home = home_dir;
    p2p_listen_addr = p2p_listen_address;
    p2p_nickname = p2p_nickname;
    bootstrappers = bootstrappers;
    log_level = log_level.0;
    log_format = log_format.0;
  })

unfoldable pub add_init_flags : Environment → FlagSet → Result FlagSet
add_init_flags env cmd =
    add_with_default_home env service_name_bootstrapper cmd
      λ cmd. add_log_format_flag (add_log_level_flag cmd)

unfoldable pub parse_init_flags : Environment → Flags → Result InitConfig
parse_init_flags env cmd = parse_home_and_logs env service_name_bootstrapper cmd
