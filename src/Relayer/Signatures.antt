-- ===== src/Relayer/Signatures.antt =====
-- relayer/relayer.go: matching signatures with the members of a valset, and saving them.
pub mod Matching
use orchestrator_relayer.Prelude.{
  ℕ, Bool, true, false, List, [], ◌∷◌, ◌++◌, Option, none, some, Bytes, Map, lookup, put,
  if◌then◌else◌,
}
use orchestrator_relayer.Effect.{
  commit_batch, Result, ok, err, World, Go, fail, pure, lift, query, call, ◌>>=◌, ◌>>◌,
}
use orchestrator_relayer.Types.Confirms.{ValsetConfirm, DataCommitmentConfirm, Codec}
use orchestrator_relayer.Types.Valsets.{BridgeValidator, Valset, DataCommitment}
use orchestrator_relayer.Evm.Geth.{Geth}
use orchestrator_relayer.Evm.Transactions.{Signature, zero_signature, sig_to_vrs}
use orchestrator_relayer.P2p.Keys.{get_valset_confirm_key, get_data_commitment_confirm_key}

-- `sigsMap[c.EthAddress] = c.Signature` for each confirm
module _ {C : Type 0} (eth_address signature : C → Bytes) where
  unfoldable pub sigs_map : List C → Map Bytes → Map Bytes
  sigs_map [] m = m
  sigs_map (c ∷ cs) m = sigs_map cs (put (eth_address c) (signature c) m)

module _ (geth : Geth) (signatures : Map Bytes) where
  -- the loop; a member without a signature keeps the zero one
  unfoldable pub match_members : List BridgeValidator → Result (List Signature)
  match_members [] = ok []
  match_members (val ∷ members) = elim (lookup val.evm_address signatures) [
    | none ↦ elim (match_members members) [ ok sigs ↦ ok (zero_signature ∷ sigs) | err e ↦ err e ]
    | some sig ↦ elim (sig_to_vrs geth sig) [
      | err e ↦ err e
      | ok vrs ↦ elim (match_members members) [ ok sigs ↦ ok (vrs ∷ sigs) | err e ↦ err e ]
    ]
  ]

  unfoldable pub match_attestation_confirm_sigs : Valset → Result (List Signature)
  unfolding match_members
  match_attestation_confirm_sigs current_valset = match_members current_valset.members

-- `datastore.NewKey`, `Has`, opening a batch, `Put` in it, and `Commit` of a batch with its puts
pub record SignatureStore (W : Type 0) : Type 0 where
  pub new_key : Bytes → Bytes
  pub has : Bytes → W → Result Bool × W
  pub batch : W → Result (Unit {0}) × W
  pub put : Bytes → Bytes → W → Result (Unit {0}) × W
  pub commit : List (Bytes × Bytes) → W → Result (Unit {0}) × W

module _ {W C : Type 0} (store : SignatureStore W) (codec : Codec C) (key : C → Bytes) where
  unfoldable pub put_unless :
      Bool → Bytes → Bytes → List (Bytes × Bytes) → Go W (List (Bytes × Bytes))
  put_unless true k value puts = pure puts
  put_unless false k value puts = do query (store.put k value); pure (puts ++ (k, value) ∷ [])

  -- the loop over the confirms, with the batch's puts so far
  unfoldable pub fill_batch : List C → List (Bytes × Bytes) → Go W (List (Bytes × Bytes))
  unfolding put_unless
  fill_batch [] puts = pure puts
  fill_batch (c ∷ cs) puts = do
    value ← lift (codec.marshal c)
    has ← query (store.has (store.new_key (key c)))
    more ← put_unless has (store.new_key (key c)) value puts
    fill_batch cs more

  unfoldable pub save : List C → Go W (Unit {0})
  unfolding fill_batch
  save confirms = do puts ← fill_batch confirms []; call (commit_batch puts) (store.commit puts)

module _ {W : Type 0} (geth : Geth) (store : SignatureStore W) where
  -- the sign bytes come from celestia-app's `SignBytes`
  pub save_valset_signatures_to_store :
      Codec ValsetConfirm → (Valset → Result Bytes) → Valset → List ValsetConfirm → Go W (Unit {0})
  save_valset_signatures_to_store codec sign_bytes att confirms = do
    query store.batch
    digest ← lift (sign_bytes att)
    save store codec (λ c. get_valset_confirm_key att.nonce c.eth_address (geth.hash_hex digest))
        confirms

  unfoldable pub save_data_commitment_signatures_to_store :
      Codec DataCommitmentConfirm
      → DataCommitment
      → Bytes
      → List DataCommitmentConfirm
      → Go W (Unit {0})
  save_data_commitment_signatures_to_store codec att data_root_tuple_root confirms = do
    query store.batch
    save store codec
        (λ c. get_data_commitment_confirm_key att.nonce c.eth_address data_root_tuple_root) confirms
