-- ===== src/Relayer/Signatures/Matching.antt =====
-- What `matchAttestationConfirmSigs` hands to the contract.
use mathlib.Core.Path.{subst}
use orchestrator_relayer.Prelude.{
  ◌≡◌, sym, ◌⊎◌, inl, inr, List, [], ◌∷◌, none, some, arith, Bytes, Map, lookup, Option-cases,
}
use orchestrator_relayer.Effect.{Error, Result, ok, err, Result-cases}
use orchestrator_relayer.Types.Valsets.{BridgeValidator, Valset}
use orchestrator_relayer.Evm.Geth.{Geth}
use orchestrator_relayer.Evm.Transactions.{Signature, zero_signature, sig_to_vrs}
use orchestrator_relayer.Relayer.Signatures.{match_members, match_attestation_confirm_sigs}

module _ (geth : Geth) (signatures : Map Bytes) where
  -- what stands at a member's place: its signature, or the zero one where there is none
  pub data Placed (val : BridgeValidator) : Signature → Type 0 where
    absent : lookup val.evm_address signatures ≡ none → Placed val zero_signature
    present :
        {vrs : Signature} (sig : Bytes)
        → lookup val.evm_address signatures ≡ some sig
        → sig_to_vrs geth sig ≡ ok vrs
        → Placed val vrs

  -- position by position
  pub data InOrder : List BridgeValidator → List Signature → Type 0 where
    no_members : InOrder [] []
    member :
        {val : BridgeValidator} {members : List BridgeValidator} {vrs : Signature}
        {sigs : List Signature}
        → Placed val vrs
        → InOrder members sigs
        → InOrder (val ∷ members) (vrs ∷ sigs)

  -- the first member whose signature `SigToVRS` refuses, with its error
  pub data Refused (e : Error) : List BridgeValidator → Type 0 where
    here :
        {val : BridgeValidator} {members : List BridgeValidator} (sig : Bytes)
        → lookup val.evm_address signatures ≡ some sig
        → sig_to_vrs geth sig ≡ err e
        → Refused e (val ∷ members)
    there :
        {val : BridgeValidator} {members : List BridgeValidator} (vrs : Signature)
        → Placed val vrs
        → Refused e members
        → Refused e (val ∷ members)

  pub data Matching (members : List BridgeValidator) : Result (List Signature) → Type 0 where
    matched : (sigs : List Signature) → InOrder members sigs → Matching members (ok sigs)
    refused : (e : Error) → Refused e members → Matching members (err e)

  -- `match_members` on a member whose place is known
  placed_lem :
      (val : BridgeValidator) (members : List BridgeValidator) (vrs : Signature)
      → Placed val vrs
      → match_members geth signatures (val ∷ members)
        ≡ elim (match_members geth signatures members) [ ok sigs ↦ ok (vrs ∷ sigs) | err e ↦ err e ]
  unfolding match_members
  placed_lem val members vrs (absent p) = ground (arith, p)
  placed_lem val members vrs (present sig p q) = ground (arith, p, q)

  refused_lem :
      (val : BridgeValidator) (members : List BridgeValidator) (sig : Bytes) (e : Error)
      → lookup val.evm_address signatures ≡ some sig
      → sig_to_vrs geth sig ≡ err e
      → match_members geth signatures (val ∷ members) ≡ err e
  unfolding match_members
  refused_lem val members sig e p q = ground (arith, p, q)

  Placed-or_refused :
      (val : BridgeValidator)
      → ((vrs : Signature) × Placed val vrs)
        ⊎ ((sig : Bytes) × (e : Error) × (lookup val.evm_address signatures ≡ some sig)
            × (sig_to_vrs geth sig ≡ err e))
  Placed-or_refused val = elim (Option-cases (lookup val.evm_address signatures)) [
    | inl p ↦ inl (zero_signature, absent p)
    | inr (sig, p) ↦ elim (Result-cases (sig_to_vrs geth sig)) [
      | inl (vrs, q) ↦ inl (vrs, present sig p q)
      | inr (e, q) ↦ inr (sig, e, p, q)
    ]
  ]

  extended :
      (val : BridgeValidator) (members : List BridgeValidator) (vrs : Signature)
      (r : Result (List Signature))
      → Placed val vrs
      → Matching members r
      → Matching (val ∷ members) (elim r [ ok sigs ↦ ok (vrs ∷ sigs) | err e ↦ err e ])
  extended val members vrs _ p (matched sigs in_order) = matched (vrs ∷ sigs) (member p in_order)
  extended val members vrs _ p (refused e bad) = refused e (there vrs p bad)

  match_members-Matching :
      (members : List BridgeValidator) → Matching members (match_members geth signatures members)
  match_members-Matching [] = unfold match_members in matched [] no_members
  match_members-Matching (val ∷ members) = elim (Placed-or_refused val) [
    | inl (vrs, p) ↦
        subst (λ r. Matching (val ∷ members) r) (sym (placed_lem val members vrs p))
          (extended val members vrs (match_members geth signatures members) p
            (match_members-Matching members))
    | inr (sig, e, p, q) ↦
        subst (λ r. Matching (val ∷ members) r) (sym (refused_lem val members sig e p q))
          (refused e (here sig p q))
  ]

  pub Matching-ok :
      {members : List BridgeValidator} {sigs : List Signature}
      → Matching members (ok sigs)
      → InOrder members sigs
  Matching-ok (matched sigs in_order) = in_order

  -- For every valset, `matchAttestationConfirmSigs` gives the members' signatures in the members'
  -- order, each taken apart by `SigToVRS` and the zero one where a member has none; or the error of
  -- `SigToVRS` at the first member whose signature it refuses.
  pub match_attestation_confirm_sigs-Matching :
      (valset : Valset)
      → Matching valset.members (match_attestation_confirm_sigs geth signatures valset)
  unfolding match_attestation_confirm_sigs
  match_attestation_confirm_sigs-Matching valset = match_members-Matching valset.members
