-- ===== src/Types/Valsets.antt =====
-- types/latest_valset.go, and the attestations of celestia-app.
pub mod Agrees
use orchestrator_relayer.Prelude.{
  ℕ, ◌≡◌, refl, Bool, true, false, not, List, [], ◌∷◌, ◌++◌, ◌&&◌, ◌||◌, Option, none, some, Bytes,
  str_eq, ◌==◌, if◌then◌else◌, length,
}

pub record BridgeValidator : Type 0 where
  pub power : ℕ
  pub evm_address : Bytes

pub record Valset : Type 0 where
  pub nonce : ℕ
  pub members : List BridgeValidator
  pub height : ℕ
  pub time : ℕ  -- in microseconds

pub record DataCommitment : Type 0 where
  pub nonce : ℕ
  pub begin_block : ℕ
  pub end_block : ℕ

-- `AttestationRequestI`; `other` is any further implementation, with its nonce
pub data Attestation : Type 0 where
  valset : Valset → Attestation
  data_commitment : DataCommitment → Attestation
  other : ℕ → Attestation

-- `att.GetNonce()`
abbrev pub get_nonce : Attestation → ℕ
get_nonce (valset v) = v.nonce
get_nonce (data_commitment d) = d.nonce
get_nonce (other n) = n

pub record LatestValset : Type 0 where
  pub nonce : ℕ
  pub members : List BridgeValidator
  pub height : ℕ

unfoldable pub to_valset : LatestValset → Valset
to_valset v = record { nonce = v.nonce; members = v.members; height = v.height; time = 1 }

unfoldable pub to_latest_valset : Valset → LatestValset
to_latest_valset vs = record { nonce = vs.nonce; members = vs.members; height = vs.height }

unfoldable pub is_empty_latest_valset : LatestValset → Bool
is_empty_latest_valset v = v.nonce == 0 && v.height == 0 && length v.members == 0

-- The loop over `vs.Members`, which indexes the other list: `none` is an index out of range.
members_equal : List BridgeValidator → List BridgeValidator → Option Bool
members_equal [] ls = some true
members_equal (v ∷ vs) [] = none
members_equal (v ∷ vs) (l ∷ ls) =
    let rest = members_equal vs ls in
    if not (str_eq v.evm_address l.evm_address) || not (v.power == l.power)
    then some false
    else rest

then_nonce_and_height : Valset → LatestValset → Option Bool → Option Bool
then_nonce_and_height vs lvs none = none
then_nonce_and_height vs lvs (some false) = some false
then_nonce_and_height vs lvs (some true) = some (vs.nonce == lvs.nonce && vs.height == lvs.height)

pub is_valset_equal_to_latest_valset : Valset → LatestValset → Option Bool
unfolding members_equal then_nonce_and_height
is_valset_equal_to_latest_valset vs lvs =
    then_nonce_and_height vs lvs (members_equal vs.members lvs.members)
