-- ===== src/Cmd/ConfigFiles.antt =====
-- cmd/blobstream/relayer/config.go and cmd/blobstream/orchestrator/config.go: their configuration files.
use orchestrator_relayer.Prelude.{Bool, true, false, List, [], ◌∷◌, ◌++◌, Bytes, codes}
use orchestrator_relayer.Effect.{
  mkdir_all, write_file, Result, ok, Go, pure, lift, query, call, ◌>>=◌, ◌>>◌,
}

-- The file system, viper and the templates, at a type of configurations: `filepath.Join`, whether `os.Stat`
-- finds something, `os.MkdirAll`, the rendering of the template, `os.WriteFile`, reading
-- `config.toml` at the paths added so far, and unmarshalling the text that was read.
pub record ConfigFiles (W C : Type 0) : Type 0 where
  pub join : Bytes → Bytes → Bytes
  pub exists : Bytes → W → Bool × W
  pub make_dir : Bytes → W → Result (Unit {0}) × W
  pub render : C → Result Bytes
  pub write : Bytes → Bytes → W → Result (Unit {0}) × W
  pub read_in_config : List Bytes → W → Result Bytes × W
  pub unmarshal : Bytes → Result C

-- cmd/blobstream/relayer/config.go and cmd/blobstream/orchestrator/config.go: the same code at two types.
module _ {W C : Type 0} (files : ConfigFiles W C) where
  unfoldable pub ensure_config_path : Bytes → Go W (Unit {0})
  ensure_config_path config_path = call (mkdir_all config_path) (files.make_dir config_path)

  unfoldable pub write_config_to_file : Bytes → C → Go W (Unit {0})
  write_config_to_file config_file_path config = do
    content ← lift (files.render config)
    call (write_file config_file_path content) (files.write config_file_path content)

  unfoldable pub initialize_config_file : Bytes → Bytes → C → Go W (Unit {0})
  initialize_config_file config_file_path config_path conf = do
    ensure_config_path config_path
    write_config_to_file config_file_path conf

  -- with the paths that were added to the viper before
  unfoldable pub get_start_config : List Bytes → Bytes → Go W C
  get_start_config paths config_path = do
    v ← query (files.read_in_config (paths ++ config_path ∷ []))
    lift (files.unmarshal v)

  unfoldable pub initialize_if_missing : Bool → Bytes → Bytes → C → Go W (Unit {0})
  initialize_if_missing true config_file_path config_path conf = pure tt
  initialize_if_missing false config_file_path config_path conf =
      initialize_config_file config_file_path config_path conf

  unfoldable pub load_file_configuration : C → Bytes → Go W C
  load_file_configuration default home_dir = do
    let config_path = files.join home_dir (codes "config")
    let config_file_path = files.join config_path (codes "config.toml")
    there ← query (λ w. let (b, w') = files.exists config_file_path w in (ok b, w'))
    initialize_if_missing there config_file_path config_path default
    get_start_config [] config_path
