-- ===== src/Cmd.antt =====
-- cmd/blobstream: the commands.
pub mod QueryOutput
pub mod Query
pub mod BaseFlags
pub mod Base
pub mod ConfigFiles
pub mod RelayerConfig
pub mod OrchestratorConfig
pub mod DeployConfig
pub mod BootstrapperConfig
pub mod QueryConfig
pub mod ExistingConfig
pub mod Accounts
pub mod Services
pub mod InitCommands
