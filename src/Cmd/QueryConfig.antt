-- ===== src/Cmd/QueryConfig.antt =====
-- cmd/blobstream/query/config.go: the flags and the configuration of the queries.
use orchestrator_relayer.Prelude.{Bool, true, [], Bytes, codes}
use orchestrator_relayer.Effect.{Result, ok, err}
use orchestrator_relayer.Effect.Fallible.{◌>>=◌}
use orchestrator_relayer.Cmd.BaseFlags.{
  FlagSet, string_flag, flag_home, add_grpc_insecure_flag, add_core_grpc_flag, add_core_rpc_flag,
  get_grpc_insecure_flag, get_core_grpc_flag, get_core_rpc_flag, Flags,
}
use orchestrator_relayer.Cmd.Base.{if_changed, with_tcp}

abbrev pub flag_p2p_node : Bytes
flag_p2p_node = codes "p2p-node"

abbrev pub flag_output_file : Bytes
flag_output_file = codes "output-file"

unfoldable pub add_flags : FlagSet → FlagSet
add_flags cmd =
    let cmd = add_core_grpc_flag cmd in
    let cmd = add_core_rpc_flag cmd in
    let cmd = string_flag flag_p2p_node [] cmd in
    let cmd = string_flag flag_output_file [] cmd in
    let cmd = add_grpc_insecure_flag cmd in string_flag flag_home [] cmd

pub record QueryConfig : Type 0 where
  pub core_grpc : Bytes
  pub core_rpc : Bytes
  pub target_node : Bytes
  pub output_file : Bytes
  pub grpc_insecure : Bool

unfoldable pub new_partial_config : Bytes → Bytes → Bytes → Bool → QueryConfig
new_partial_config core_grpc core_rpc target_node grpc_insecure = record {
  core_grpc = core_grpc;
  core_rpc = core_rpc;
  target_node = target_node;
  output_file = [];
  grpc_insecure = grpc_insecure;
}

unfoldable pub default_config : QueryConfig
default_config = record {
  core_grpc = codes "localhost:9090";
  core_rpc = codes "tcp://localhost:26657";
  target_node = [];
  output_file = [];
  grpc_insecure = true;
}

unfoldable pub get_p2p_node_flag : Flags → Result (Bytes × Bool)
get_p2p_node_flag cmd = elim (cmd.get_string flag_p2p_node) [
  | ok val ↦ ok (val, cmd.changed flag_p2p_node)
  | err e ↦ err e
]

unfoldable pub parse_flags : Flags → QueryConfig → Result QueryConfig
parse_flags cmd start_conf = do
  core_rpc ← get_core_rpc_flag cmd
  core_grpc ← get_core_grpc_flag cmd
  target_node ← get_p2p_node_flag cmd
  output_file ← cmd.get_string flag_output_file
  grpc_insecure ← get_grpc_insecure_flag cmd
  ok (record {
    core_grpc = if_changed core_grpc start_conf.core_grpc;
    core_rpc = if_changed (with_tcp core_rpc.0, core_rpc.1) start_conf.core_rpc;
    target_node = if_changed target_node start_conf.target_node;
    output_file = output_file;
    grpc_insecure = if_changed grpc_insecure start_conf.grpc_insecure;
  })
