-- ===== src/Rpc/AppQuerier/Staking.antt =====
-- rpc/app_querier.go: the queries of the staking module, of the EVM addresses and of data commitments.
use orchestrator_relayer.Prelude.{ℕ, List, Bytes}
use orchestrator_relayer.Effect.{Result, Go, query}
use orchestrator_relayer.Types.Valsets.{DataCommitment}

-- `stakingtypes.Validator`, as far as it is read
pub record StakingValidator : Type 0 where
  pub moniker : Bytes
  pub operator_address : Bytes

-- The further queries of the generated gRPC clients; the first takes the pagination's limit.
pub record StakingClient (W : Type 0) : Type 0 where
  pub validators : ℕ → W → Result (List StakingValidator) × W
  pub evm_address : Bytes → W → Result Bytes × W
  pub last_unbonding_height : W → Result ℕ × W
  pub data_commitment_range_for_height : ℕ → W → Result DataCommitment × W
  pub latest_data_commitment : W → Result DataCommitment × W

module _ {W : Type 0} (client : StakingClient W) where
  unfoldable pub query_staking_validator_set : Go W (List StakingValidator)
  query_staking_validator_set = query (client.validators 10000)

  unfoldable pub query_evm_address : Bytes → Go W Bytes
  query_evm_address valop_address = query (client.evm_address valop_address)

  unfoldable pub query_last_unbonding_height : Go W ℕ
  query_last_unbonding_height = query client.last_unbonding_height

  unfoldable pub query_data_commitment_for_height : ℕ → Go W DataCommitment
  query_data_commitment_for_height height = query (client.data_commitment_range_for_height height)

  unfoldable pub query_latest_data_commitment : Go W DataCommitment
  query_latest_data_commitment = query client.latest_data_commitment
