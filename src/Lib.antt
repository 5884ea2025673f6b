-- ===== src/Lib.antt =====
-- The orchestrator and the relayer of Blobstream. Orchestrators sign the attestations of a celestia-app
-- chain (validator sets, and commitments to ranges of data roots) and publish the signatures, as
-- confirms, in a distributed hash table; a relayer collects confirms until two thirds of the voting
-- power have signed and submits them to a contract on an EVM chain.
--
-- The parts and their files, with paths from the repository's root:
--   * Prelude, Effect, Std: shared names; errors, results and actions; and what the program uses of
--     Go's strconv, strings and encoding/hex.
--   * Types: types/*.go. Confirms and valsets; JSON is a parameter, `Codec`.
--   * Evm: evm/*.go. Signature has `NewEthereumSignature` and the checks; Transactions has `SigToVRS`;
--     Client has the calls of the contract; Deployment has the options of a transaction and the
--     deployment of the contract. go-ethereum is the parameter `Geth`.
--   * P2p: p2p/*.go. Keys has the DHT's keys and `ParseKey`; Validators has `Validate` and `Select` of
--     the three validators; Dht has the wrapper of the table; Querier has the queries for confirms.
--     libp2p's table is the parameter `IpfsDht`.
--   * Rpc: rpc/*.go. AppQuerier has the queries of the application and the searches through its
--     history; TmQuerier has those of the Tendermint node, and its connection.
--   * Helpers: helpers/retrier.go, helpers/ticker.go and helpers/parse.go.
--   * Orchestrator: orchestrator/*.go. Broadcaster publishes; Process is `Process` and what it calls;
--     Queues has the enqueueing of missing nonces and the requeueing; Listener has
--     `StartNewEventsListener` and `EnqueueMissingEvents`; Nonces is `ProcessNonces` with its
--     goroutines, as a relation of steps that may come in any order, and Nonces/Refines its specification
--     as a bag of nonces.
--   * Relayer: relayer/relayer.go. Attestation is `ProcessAttestation` with its fallbacks,
--     `UpdateValidatorSet` and `SubmitDataRootTupleRoot`; Signatures matches signatures with members
--     and saves them; Wait is `waitForTransactionAndRetryIfNeeded`; Loop is `processFunc` of `Start`,
--     whose rounds each take the events of their wait for confirms from a list.
--   * Cmd: cmd/blobstream. QueryOutput, Query and ExistingConfig are query/cmd.go; BaseFlags and Base are
--     base/config.go; ConfigFiles, RelayerConfig, OrchestratorConfig, DeployConfig, BootstrapperConfig and
--     QueryConfig are the config.go files. pflag's flags, viper and the environment are parameters.
--     InitCommands has the init commands, Services is common/helpers.go, and Accounts has the prompts
--     and the accounts of keys/evm/evm.go.
--   * Store: store. Lock is store/fslock; Init is store/init.go; Open is store/store.go. The system calls,
--     badger and the key stores are parameters; the properties state the laws of them that they use.
--   * Tests: concrete instances of the parameters, and the theorems applied to them.
--
-- Go's methods keep their names, in snake case. A method that reaches outside is an action `Go W A`, from
-- a world to a result and a world: the world holds the state `W` of the services, of which nothing is
-- assumed, and the list of the calls that were made for their effect, the newest first. Errors are the
-- repository's sentinels, found through wrappings as `errors.Is` does; messages and logs are not
-- modelled, but a nil pointer that only a log reads is a panic. Strings and byte slices are lists of
-- bytes; numbers of 64 bits wrap where the code can make them. What a `select` picks is an event of a
-- list that the loop is given, and a loop that still waits at the end of the list returns `none`.
--
-- The searches of AppQuerier run on fuel, the height and one more, or the nonce: each round lowers the
-- height by the blocks of a period, which is a parameter of the client. A result `none` is fuel that
-- ran out.
--
-- Not modelled: the commands that start a service, and those that change the stores of keys (in
-- cmd/blobstream/keys), the creation of the P2P host and of the DHT, telemetry, `Orchestrator.Start`,
-- which only starts the goroutines, and the ticker and the retries around `processFunc`.

mod Prelude
mod Tests
pub mod Effect
pub mod Std
pub mod Types
pub mod Evm
pub mod P2p
pub mod Rpc
pub mod Helpers
pub mod Orchestrator
pub mod Relayer
pub mod Cmd
pub mod Store
