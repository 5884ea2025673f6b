-- ===== src/Rpc/AppQuerier.antt =====
-- rpc/app_querier.go. The generated gRPC client, the unpacking of `Any` values and the context are
-- parameters. A response of `LatestValsetRequestBeforeNonce` carries a valset.
pub mod Recursive
pub mod LastValset
pub mod Staking
pub mod Connection
use orchestrator_relayer.Prelude.{
  ℕ, zero, suc, ◌-◌, ◌+◌, ◌%◌, ◌^◌, Bool, true, false, Option, none, some, Bytes, ltb, leb,
  if◌then◌else◌,
}
use orchestrator_relayer.Effect.{
  Error, attestation_not_found, not_data_commitment_request, unmarshal_valset, not_found, Result,
  ok, err, World, Go, pure, fail, lift, query, attempt, ◌>>=◌,
}
use orchestrator_relayer.Types.Valsets.{
  Valset, DataCommitment, Attestation, valset, data_commitment, other,
}

-- The queries, at the latest height (`none`) or at a height in the metadata; `unpack` is
-- `UnpackAny`, of which a nil message gives a nil attestation; `ctx_err` is `ctx.Err()`, `none` where the
-- context is not done; `blocks` is `uint64(BlocksIn20DaysPeriod)`.
pub record QueryClient (W : Type 0) : Type 0 where
  pub attestation_request_by_nonce : Option ℕ → ℕ → W → Result (Option Bytes) × W
  pub latest_attestation_nonce : Option ℕ → W → Result ℕ × W
  pub earliest_attestation_nonce : W → Result ℕ × W
  pub latest_valset_request_before_nonce : Option ℕ → ℕ → W → Result Valset × W
  pub unpack : Option Bytes → Result (Option Attestation)
  pub ctx_err : W → Option Error × W
  pub blocks : ℕ

-- the type assertion `.(*celestiatypes.Valset)`
unfoldable pub as_valset : Option Attestation → Option Valset
as_valset none = none
as_valset (some (valset v)) = some v
as_valset (some (data_commitment d)) = none
as_valset (some (other n)) = none

unfoldable pub as_data_commitment : Option Attestation → Option DataCommitment
as_data_commitment none = none
as_data_commitment (some (valset v)) = none
as_data_commitment (some (data_commitment d)) = some d
as_data_commitment (some (other n)) = none

module _ {W : Type 0} (client : QueryClient W) where
  -- `select { case <-ctx.Done(): return nil, ctx.Err() default: rest }`
  abbrev pub unless_done : {A : Type 0} → Go W A → Go W A
  unless_done rest s =
      let (r, w) = client.ctx_err s.ext in
      let s' : World W = record s { ext = w } in elim r [ some e ↦ (err e, s') | none ↦ rest s' ]

  unfoldable pub unpack_response : Option Bytes → Go W (Option Attestation)
  unpack_response none = pure none
  unpack_response (some any) = lift (client.unpack (some any))

  unfoldable pub query_attestation_by_nonce : ℕ → Go W (Option Attestation)
  unfolding unpack_response
  query_attestation_by_nonce nonce = do
    resp ← query (client.attestation_request_by_nonce none nonce)
    unpack_response resp

  pub query_historical_attestation_by_nonce : ℕ → ℕ → Go W (Option Attestation)
  unfolding unpack_response
  query_historical_attestation_by_nonce nonce height = do
    resp ← query (client.attestation_request_by_nonce (some height) nonce)
    unpack_response resp

  unfoldable pub query_latest_attestation_nonce : Go W ℕ
  query_latest_attestation_nonce = query (client.latest_attestation_nonce none)

  pub query_historical_latest_attestation_nonce : ℕ → Go W ℕ
  query_historical_latest_attestation_nonce height =
      query (client.latest_attestation_nonce (some height))

  unfoldable pub query_earliest_attestation_nonce : Go W ℕ
  query_earliest_attestation_nonce = query client.earliest_attestation_nonce

  unfoldable pub query_last_valset_before_nonce : ℕ → Go W Valset
  query_last_valset_before_nonce nonce =
      query (client.latest_valset_request_before_nonce none nonce)

  pub query_historical_last_valset_before_nonce : ℕ → ℕ → Go W Valset
  query_historical_last_valset_before_nonce nonce height =
      query (client.latest_valset_request_before_nonce (some height) nonce)

  cast_data_commitment : Option Attestation → Go W DataCommitment
  cast_data_commitment none = fail attestation_not_found
  cast_data_commitment (some att) = elim (as_data_commitment (some att)) [
    | some dcc ↦ pure dcc
    | none ↦ fail not_data_commitment_request
  ]

  pub query_data_commitment_by_nonce : ℕ → Go W DataCommitment
  unfolding cast_data_commitment
  query_data_commitment_by_nonce nonce = do
    attestation ← query_attestation_by_nonce nonce
    cast_data_commitment attestation

  cast_valset : Option Attestation → Go W Valset
  cast_valset none = fail attestation_not_found
  cast_valset (some att) = elim (as_valset (some att)) [
    | some value ↦ pure value
    | none ↦ fail unmarshal_valset
  ]

  pub query_valset_by_nonce : ℕ → Go W Valset
  unfolding cast_valset
  query_valset_by_nonce nonce = do
    attestation ← query_attestation_by_nonce nonce
    cast_valset attestation

  pub query_historical_valset_by_nonce : ℕ → ℕ → Go W Valset
  unfolding cast_valset
  query_historical_valset_by_nonce nonce height = do
    attestation ← query_historical_attestation_by_nonce nonce height
    cast_valset attestation

  pub query_latest_valset : Go W Valset
  query_latest_valset = do
    latest_nonce ← query_latest_attestation_nonce
    r ← attempt (query_valset_by_nonce latest_nonce)
    elim r [ ok vs ↦ pure vs | err _ ↦ query_last_valset_before_nonce latest_nonce ]

  -- The loops below run on fuel: `none` is fuel that ran out, which the theorems of
  -- AppQuerier.Recursive exclude for fuel above the height.
  unfoldable pub historical_attestation_loop : ℕ → ℕ → ℕ → Go W (Option (Option Attestation))
  historical_attestation_loop zero nonce current_height = pure none
  historical_attestation_loop (suc f) nonce current_height = elim (leb 1 current_height) [
    | false ↦ fail not_found
    | true ↦ unless_done (do
      r ← attempt (query (client.attestation_request_by_nonce (some current_height) nonce))
      elim r [
        | ok resp ↦ do att ← lift (client.unpack resp); pure (some att)
        | err _ ↦ elim (leb current_height client.blocks) [
          | true ↦ fail not_found
          | false ↦ historical_attestation_loop f nonce (current_height - client.blocks)
        ]
      ])
  ]

  unfoldable pub query_recursive_historical_attestation_by_nonce :
      ℕ → ℕ → Go W (Option (Option Attestation))
  query_recursive_historical_attestation_by_nonce nonce height =
      historical_attestation_loop (suc height) nonce height

  latest_valset_loop : ℕ → ℕ → Go W (Option Valset)
  latest_valset_loop zero current_height = pure none
  latest_valset_loop (suc f) current_height = elim (leb 1 current_height) [
    | false ↦ fail not_found
    | true ↦ unless_done (do
      latest_nonce ← query_historical_latest_attestation_nonce current_height
      r ← attempt (query_historical_valset_by_nonce latest_nonce current_height)
      elim r [
        | ok vs ↦ pure (some vs)
        | err _ ↦ do
          q ← attempt (query_historical_last_valset_before_nonce latest_nonce current_height)
          elim q [
            | ok vs ↦ pure (some vs)
            | err _ ↦ elim (leb current_height client.blocks) [
              | true ↦ fail not_found
              | false ↦ latest_valset_loop f (current_height - client.blocks)
            ]
          ]
      ])
  ]

  pub query_recursive_latest_valset : ℕ → Go W (Option Valset)
  query_recursive_latest_valset height = latest_valset_loop (suc height) height

  -- one round a nonce, down to 0, with the inner loop at each
  unfoldable pub last_valset_loop : ℕ → ℕ → Go W (Option Valset)
  last_valset_loop height zero = unless_done (fail not_found)
  last_valset_loop height (suc n) = unless_done (do
    r ← query_recursive_historical_attestation_by_nonce (suc n) height
    elim r [
      | none ↦ pure none
      | some att ↦ elim (as_valset att) [
        | some vs ↦ pure (some vs)
        | none ↦ last_valset_loop height n
      ]
    ])

  -- `currentNonce := nonce - 1` wraps at 0
  unfoldable pub query_recursive_historical_last_valset_before_nonce : ℕ → ℕ → Go W (Option Valset)
  unfolding last_valset_loop
  query_recursive_historical_last_valset_before_nonce nonce height =
      last_valset_loop height ((nonce + 2 ^ 64 - 1) % 2 ^ 64)
