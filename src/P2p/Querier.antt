-- ===== src/P2p/Querier.antt =====
-- p2p/querier.go: collecting confirms from the DHT until two thirds of the power have signed.
-- The methods for valset confirms and for data commitment confirms are the same code at two types,
-- and two instances of `two_thirds` here.
pub mod TwoThirds
pub mod Powers
pub mod Enough
pub mod Reads
use orchestrator_relayer.Prelude.{
  ℕ, ◌+◌, ◌%◌, ◌^◌, Bool, true, false, List, [], ◌∷◌, ◌++◌, Option, none, some, Bytes, leb, length,
  if◌then◌else◌, Map, lookup, put,
}
use orchestrator_relayer.Effect.{
  Error, is_routing_not_found, not_enough_valset_confirms, not_enough_data_commitment_confirms,
  Result, ok, err, World, Go, pure, fail, attempt, ◌>>=◌,
}
use orchestrator_relayer.Types.Confirms.{ValsetConfirm, DataCommitmentConfirm}
use orchestrator_relayer.Types.Valsets.{BridgeValidator, Valset, LatestValset}
use orchestrator_relayer.P2p.Keys.{get_valset_confirm_key, get_data_commitment_confirm_key}
use orchestrator_relayer.P2p.Dht.{
  IpfsDht, Codecs, Event, ctx_done, timed_out, tick, get_valset_confirm,
  get_data_commitment_confirm, get_latest_valset,
}

-- `vals[val.GetEvmAddress()] = val` for each member
unfoldable pub members_map : List BridgeValidator → Map BridgeValidator → Map BridgeValidator
members_map [] vals = vals
members_map (m ∷ ms) vals = members_map ms (put m.evm_address m vals)

module _ {C : Type 0} (eth_address : C → Bytes) where
  -- the loop over the confirms: a signer that is no member adds nothing
  unfoldable pub current_threshold : Map BridgeValidator → List C → ℕ → ℕ
  current_threshold vals [] curr = curr
  current_threshold vals (c ∷ cs) curr =
      current_threshold vals cs (elim (lookup (eth_address c) vals) [
        | none ↦ curr
        | some val ↦ (curr + val.power) % 2 ^ 64
      ])

module _ {W C : Type 0} (get : BridgeValidator → Go W C) where
  -- the loop over the members; a confirm that is not found is passed over
  unfoldable pub collect : List BridgeValidator → List C → Go W (List C)
  collect [] confirms = pure confirms
  collect (m ∷ ms) confirms = do
    r ← attempt (get m)
    elim r [
      | ok c ↦ collect ms (confirms ++ c ∷ [])
      | err e ↦ elim (is_routing_not_found e) [ true ↦ collect ms confirms | false ↦ fail e ]
    ]

module _ {W C : Type 0} (eth_address : C → Bytes) (get : BridgeValidator → Go W C) where
  -- `queryFunc`, with what it leaves in `validConfirms`
  unfoldable pub query_func : List BridgeValidator → ℕ → Go W (List C)
  query_func members maj_threshold = do
    confirms ← collect get members []
    pure (
        if leb maj_threshold (current_threshold eth_address (members_map members []) confirms 0)
        then confirms
        else [])

  -- The loop, one event a round. `none`: it still waits.
  unfoldable pub await :
      List BridgeValidator → ℕ → Error → List Event → World W → Option (Result (List C)) × World W
  await members maj_threshold late [] s = (none, s)
  await members maj_threshold late (ctx_done e ∷ events) s = (some (err e), s)
  await members maj_threshold late (timed_out ∷ events) s = (some (err late), s)
  await members maj_threshold late (tick ∷ events) s =
      let (r, s') = query_func members maj_threshold s in
      elim r [
        | err e ↦ (some (err e), s')
        | ok [] ↦ await members maj_threshold late events s'
        | ok (c ∷ cs) ↦ (some (ok (c ∷ cs)), s')
      ]

  -- the first query is made before the loop, so as not to wait for the ticker
  unfoldable pub two_thirds :
      List BridgeValidator → ℕ → Error → List Event → World W → Option (Result (List C)) × World W
  two_thirds members maj_threshold late events s =
      await members maj_threshold late (tick ∷ events) s

module _ {W : Type 0} (dht : IpfsDht W) (codecs : Codecs) where
  -- `TwoThirdsThreshold` is celestia-app's
  module _ (two_thirds_threshold : Valset → ℕ) where
    unfoldable pub query_two_thirds_data_commitment_confirms :
        Valset
        → ℕ
        → Bytes
        → List Event
        → World W
        → Option (Result (List DataCommitmentConfirm)) × World W
    query_two_thirds_data_commitment_confirms previous_valset nonce data_root_tuple_root =
        two_thirds (λ c. c.eth_address)
          (λ m.
            get_data_commitment_confirm dht codecs
              (get_data_commitment_confirm_key nonce m.evm_address data_root_tuple_root))
          previous_valset.members (two_thirds_threshold previous_valset)
          not_enough_data_commitment_confirms

    pub query_two_thirds_valset_confirms :
        ℕ → Valset → Bytes → List Event → World W → Option (Result (List ValsetConfirm)) × World W
    query_two_thirds_valset_confirms valset_nonce previous_valset sign_bytes =
        two_thirds (λ c. c.eth_address)
          (λ m.
            get_valset_confirm dht codecs
              (get_valset_confirm_key valset_nonce m.evm_address sign_bytes))
          previous_valset.members (two_thirds_threshold previous_valset) not_enough_valset_confirms

  -- a confirm that is not found is no error
  abbrev or_nil : {C : Type 0} → Go W C → Go W (Option C)
  or_nil get = do
    r ← attempt get
    elim r [
      | ok confirm ↦ pure (some confirm)
      | err e ↦ if is_routing_not_found e then pure none else fail e
    ]

  unfoldable pub query_valset_confirm_by_evm_address :
      ℕ → Bytes → Bytes → Go W (Option ValsetConfirm)
  query_valset_confirm_by_evm_address nonce address sign_bytes =
      or_nil (get_valset_confirm dht codecs (get_valset_confirm_key nonce address sign_bytes))

  unfoldable pub query_data_commitment_confirm_by_evm_address :
      ℕ → Bytes → Bytes → Go W (Option DataCommitmentConfirm)
  query_data_commitment_confirm_by_evm_address nonce address data_root_tuple_root = or_nil (
      get_data_commitment_confirm dht codecs
        (get_data_commitment_confirm_key nonce address data_root_tuple_root))

  unfoldable pub query_data_commitment_confirms :
      Valset → ℕ → Bytes → Go W (List DataCommitmentConfirm)
  query_data_commitment_confirms valset nonce data_root_tuple_root =
      collect
        (λ m.
          get_data_commitment_confirm dht codecs
            (get_data_commitment_confirm_key nonce m.evm_address data_root_tuple_root))
        valset.members []

  unfoldable pub query_valset_confirms : ℕ → Valset → Bytes → Go W (List ValsetConfirm)
  query_valset_confirms nonce valset sign_bytes =
      collect
        (λ m. get_valset_confirm dht codecs (get_valset_confirm_key nonce m.evm_address sign_bytes))
        valset.members []

  unfoldable pub query_latest_valset : Go W LatestValset
  query_latest_valset = get_latest_valset dht codecs
