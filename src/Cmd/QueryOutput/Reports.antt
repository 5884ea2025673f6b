-- ===== src/Cmd/QueryOutput/Reports.antt =====
-- What `toQueryOutput` reports of each member.
use mathlib.Core.Path.{subst}
use orchestrator_relayer.Prelude.{
  ℕ, zero, ◌+◌, ◌%◌, ◌^◌, ◌≤◌, ◌<◌, ◌≡◌, refl, sym, ◌∙◌, ◌↔◌, true, false, List, [], ◌∷◌, Option,
  none, some, Bytes, arith, leb→le, le→leb, Map, lookup,
}
use orchestrator_relayer.Types.Valsets.{BridgeValidator, Valset}
use orchestrator_relayer.Cmd.QueryOutput.{
  ValidatorInfo, Signature, info_of, to_signature, add_power, fill_signatures, to_query_output,
}

module _ (confirms_map : Map Bytes) (validators_info : Map ValidatorInfo) where
  -- A member's entry: its address, and what is known of its validator.
  pub record Describes (val : BridgeValidator) (sig : Signature) : Type 0 where
    pub address : sig.evm_address ≡ val.evm_address
    pub moniker : sig.moniker ≡ (info_of (lookup val.evm_address validators_info)).moniker
    pub valop : sig.valop_address ≡ (info_of (lookup val.evm_address validators_info)).valop_address

  -- The entries of the members, in order, with the sum of the powers of those that have signed.
  pub data Reports : List BridgeValidator → List Signature → ℕ → Type 0 where
    no_members : Reports [] [] zero
    has_signed :
        {val : BridgeValidator} {sig : Signature} {members : List BridgeValidator}
        {sigs : List Signature} {power : ℕ}
        → Describes val sig
        → sig.signed ≡ true
        → lookup val.evm_address confirms_map ≡ some sig.signature
        → Reports members sigs power
        → Reports (val ∷ members) (sig ∷ sigs) (val.power + power)
    has_missed :
        {val : BridgeValidator} {sig : Signature} {members : List BridgeValidator}
        {sigs : List Signature} {power : ℕ}
        → Describes val sig
        → sig.signed ≡ false
        → sig.signature ≡ []
        → lookup val.evm_address confirms_map ≡ none
        → Reports members sigs power
        → Reports (val ∷ members) (sig ∷ sigs) power

  to_signature-Describes :
      (val : BridgeValidator) (found : Option Bytes)
      → Describes val (to_signature confirms_map validators_info val found)
  unfolding to_signature
  to_signature-Describes val none = record { address = refl; moniker = refl; valop = refl }
  to_signature-Describes val (some sig) = record { address = refl; moniker = refl; valop = refl }

  entry-Reports :
      (val : BridgeValidator) (found : Option Bytes) (members : List BridgeValidator)
      → (sigs : List Signature) (power curr : ℕ) → lookup val.evm_address confirms_map ≡ found
      → Reports members sigs power
      → (total : ℕ) × Reports
          (val ∷ members)
          (to_signature confirms_map validators_info val found ∷ sigs)
          total
        × ((add_power confirms_map validators_info val found curr + power) % 2 ^ 64
            ≡ (curr + total) % 2 ^ 64)
  unfolding add_power to_signature
  entry-Reports val none members sigs power curr h rest =
      (power, has_missed (to_signature-Describes val none) refl refl h rest, refl)
  entry-Reports val (some sig) members sigs power curr h rest = (
    val.power + power,
    has_signed (to_signature-Describes val (some sig)) refl h rest,
    omega arith,
  )

  fill_signatures-Reports :
      (members : List BridgeValidator) (curr : ℕ)
      → curr < 2 ^ 64
      → let (sigs, total) = fill_signatures confirms_map validators_info members curr in
        (power : ℕ) × Reports members sigs power × (total ≡ (curr + power) % 2 ^ 64)
  unfolding fill_signatures
  fill_signatures-Reports [] curr small = (zero, no_members, omega (arith, small))
  fill_signatures-Reports (val ∷ members) curr small =
      let found = lookup val.evm_address confirms_map in
      let (power, rest, sum) =
        fill_signatures-Reports members (add_power confirms_map validators_info val found curr)
          (below found) in
      let (total, all, e) = entry-Reports val found members _ power curr refl rest in
      (total, all, cc (sum, e))
    where
      below : (o : Option Bytes) → add_power confirms_map validators_info val o curr < 2 ^ 64
      below none = unfold add_power in small
      below (some _) = unfold add_power in omega arith

  -- `toQueryOutput` reports every member of the valset, in order: signed, with the signature, when there
  -- is a confirm under its address, and not signed, with none, otherwise. The current threshold is the
  -- sum of the powers of those that have signed, in 64 bits, and `can_relay` is set exactly when it
  -- reaches the two-thirds threshold of the valset.
  pub to_query_output-Reports :
      (two_thirds_threshold : Valset → ℕ) (nonce : ℕ) (last_valset : Valset)
      → let o =
          to_query_output confirms_map validators_info two_thirds_threshold nonce last_valset in
        (power : ℕ) × Reports last_valset.members o.signatures power
        × (o.nonce ≡ nonce)
        × (o.current_threshold ≡ power % 2 ^ 64)
        × ((o.can_relay ≡ true) ↔ (two_thirds_threshold last_valset ≤ power % 2 ^ 64))
  unfolding to_query_output
  to_query_output-Reports two_thirds_threshold nonce last_valset =
      let (power, reports, sum) = fill_signatures-Reports last_valset.members 0 (omega arith) in
      let same : (to_query_output confirms_map validators_info two_thirds_threshold nonce
            last_valset).current_threshold
          ≡ power % 2 ^ 64 =
        sum ∙ omega arith in
      (
        power,
        reports,
        refl,
        same,
        (
          λ h. subst (λ n. two_thirds_threshold last_valset ≤ n) same (leb→le _ _ h),
          λ h. le→leb _ _ (subst (λ n. two_thirds_threshold last_valset ≤ n) (sym same) h),
        ),
      )
