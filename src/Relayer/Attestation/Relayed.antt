-- ===== src/Relayer/Attestation/Relayed.antt =====
-- What `UpdateValidatorSet` hands to the contract.
use mathlib.Core.Path.{subst}
use orchestrator_relayer.Prelude.{
  ℕ, ◌≡◌, sym, ap, ◌∙◌, ◌≢◌, inl, inr, true, false, List, [], ◌∷◌, arith, Bytes, Map, ◌==◌, ==_iff,
  Bool-cases, if◌then◌else◌,
}
use orchestrator_relayer.Effect.{Call, contract_update_validator_set, ok, World, bind-inv, lift}
use orchestrator_relayer.Types.Confirms.{ValsetConfirm}
use orchestrator_relayer.Types.Valsets.{Valset}
use orchestrator_relayer.Evm.Transactions.{Signature}
use orchestrator_relayer.Evm.Client
use orchestrator_relayer.Evm.Client.{Tx, Validator, eth_valset}
use orchestrator_relayer.Rpc.AppQuerier.{query_last_valset_before_nonce}
use orchestrator_relayer.Relayer.Signatures.{sigs_map, match_attestation_confirm_sigs}
use orchestrator_relayer.Relayer.Signatures.Matching.{
  InOrder, Matching, Matching-ok, match_attestation_confirm_sigs-Matching,
}
use orchestrator_relayer.Relayer.Attestation.{Relayer, query_current_valset, update_validator_set}

module _ {W : Type 0} (relayer : Relayer W) where
  open relayer use {app_querier, geth, contract}

  -- The valset that signs: the new one itself where its nonce is 1, else the last one before it, as the
  -- app answers now.
  pub data CurrentValset (new_valset current : Valset) (s t : World W) : Type 0 where
    genesis :
        new_valset.nonce ≡ 1 → current ≡ new_valset → s ≡ t → CurrentValset new_valset current s t
    from_app :
        new_valset.nonce ≢ 1
        → query_last_valset_before_nonce app_querier new_valset.nonce s ≡ (ok current, t)
        → CurrentValset new_valset current s t

  query_genesis :
      (new_valset current : Valset) (s t : World W)
      → (new_valset.nonce == 1) ≡ true
      → query_current_valset relayer new_valset s ≡ (ok current, t)
      → (current ≡ new_valset) × (s ≡ t)
  unfolding query_current_valset
  query_genesis new_valset current s t p h = (ground (arith, p, h), ground (arith, p, h))

  query_app :
      (new_valset current : Valset) (s t : World W)
      → (new_valset.nonce == 1) ≡ false
      → query_current_valset relayer new_valset s ≡ (ok current, t)
      → query_last_valset_before_nonce app_querier new_valset.nonce s ≡ (ok current, t)
  unfolding query_current_valset
  query_app new_valset current s t p h = ground (arith, p, h)

  query_current_valset-CurrentValset :
      (new_valset current : Valset) (s t : World W)
      → query_current_valset relayer new_valset s ≡ (ok current, t)
      → CurrentValset new_valset current s t
  query_current_valset-CurrentValset new_valset current s t h =
      elim (Bool-cases (new_valset.nonce == 1)) [
        | inl p ↦
            let (same, still) = query_genesis new_valset current s t p h in
            genesis ((==_iff new_valset.nonce 1).0 p) same still
        | inr p ↦ from_app (ground (arith, p)) (query_app new_valset current s t p h)
      ]

  CurrentValset-calls :
      (new_valset current : Valset) (s t : World W)
      → CurrentValset new_valset current s t
      → t.calls ≡ s.calls
  unfolding query_last_valset_before_nonce
  CurrentValset-calls new_valset current s t (genesis p same still) = ap (λ u. u.calls) (sym still)
  CurrentValset-calls new_valset current s t (from_app p h) = ap (λ u. u.1.calls) (sym h)

  -- 0 for the first valset
  abbrev current_nonce : Valset → Valset → ℕ
  current_nonce current new_valset = if new_valset.nonce == 1 then 0 else current.nonce

  abbrev update_call : ℕ → Valset → Valset → Call
  update_call threshold current new_valset =
      contract_update_validator_set new_valset.nonce (current_nonce current new_valset) threshold

  -- The call of the contract's method and its answer, with the hash of the new valset, the members of
  -- `current` as they go to the contract, and the signatures placed in their order.
  pub record Relayed (new_valset : Valset) (new_threshold : ℕ) (confirms : List ValsetConfirm)
      (tx : Tx) (s s' : World W) : Type 0 where
    pub current : Valset
    pub queried : World W
    pub origin : CurrentValset new_valset current s queried
    pub sigs : List Signature
    pub in_order :
        InOrder geth
          (sigs_map (λ c. c.eth_address) (λ c. c.signature) confirms [])
          current.members
          sigs
    pub members : List Validator
    pub members_eq : eth_valset geth current ≡ ok members
    pub hash : Bytes
    pub hash_eq : relayer.valset_hash new_valset ≡ ok hash
    pub answered :
        contract.update_validator_set new_valset.nonce
          (current_nonce current new_valset)
          new_threshold
          hash
          members
          sigs
          queried.ext
        ≡ (ok tx, s'.ext)
    pub calls_eq : s'.calls ≡ update_call new_threshold current new_valset ∷ s.calls

  pub ok_matching :
      (signatures : Map Bytes) (current : Valset) (sigs : List Signature)
      → match_attestation_confirm_sigs geth signatures current ≡ ok sigs
      → InOrder geth signatures current.members sigs
  ok_matching signatures current sigs h = Matching-ok geth signatures (
      subst (λ r. Matching geth signatures current.members r) h
        (match_attestation_confirm_sigs-Matching geth signatures current))

  client_lem :
      (threshold : ℕ) (current new_valset : Valset) (sigs : List Signature) (s s' : World W)
      (tx : Tx)
      → Client.update_validator_set geth contract relayer.valset_hash new_valset.nonce threshold
          current new_valset sigs s
        ≡ (ok tx, s')
      → (members : List Validator) × (eth_valset geth current ≡ ok members)
        × (hash : Bytes) × (relayer.valset_hash new_valset ≡ ok hash)
        × (contract.update_validator_set new_valset.nonce
              (current_nonce current new_valset)
              threshold
              hash
              members
              sigs
              s.ext
            ≡ (ok tx, s'.ext))
        × (s'.calls ≡ update_call threshold current new_valset ∷ s.calls)
  unfolding Client.update_validator_set
  client_lem threshold current new_valset sigs s s' tx h =
      let (members, t, p, h₁) = bind-inv (lift (eth_valset geth current)) _ s s' tx h in
      let (hash, u, q, h₂) = bind-inv (lift (relayer.valset_hash new_valset)) _ t s' tx h₁ in
      let same : u ≡ s = sym (ap (λ r. r.1) p ∙ ap (λ r. r.1) q) in
      (
        members,
        ap (λ r. r.0) p,
        hash,
        ap (λ r. r.0) q,
        ap
              (λ v.
                contract.update_validator_set new_valset.nonce (current_nonce current new_valset)
                  threshold hash members sigs v.ext)
              (sym same)
            ∙ ap (λ r. (r.0, r.1.ext)) h₂,
        sym (ap (λ r. r.1.calls) h₂)
            ∙ ap (λ v. update_call threshold current new_valset ∷ v.calls) same,
      )

  -- When `UpdateValidatorSet` succeeds, it has called the contract's method exactly once and called
  -- nothing else, with the new nonce and threshold, the hash of the new valset, the current nonce, 0 for
  -- the first valset, the members of the current valset, all with Ethereum addresses, and each member's
  -- signature at its place; the current valset is the new one for nonce 1, else the one that the app
  -- answers with at that moment; the transaction is what the contract answered.
  pub update_validator_set-Relayed :
      (new_valset : Valset) (new_threshold : ℕ) (confirms : List ValsetConfirm) (s s' : World W)
      (tx : Tx)
      → update_validator_set relayer new_valset new_threshold confirms s ≡ (ok tx, s')
      → Relayed new_valset new_threshold confirms tx s s'
  unfolding update_validator_set
  update_validator_set-Relayed new_valset new_threshold confirms s s' tx h =
      let signatures = sigs_map (λ c. c.eth_address) (λ c. c.signature) confirms [] in
      let (current, t, p, h₁) = bind-inv (query_current_valset relayer new_valset) _ s s' tx h in
      let (sigs, u, q, h₂) =
        bind-inv (lift (match_attestation_confirm_sigs geth signatures current)) _ t s' tx h₁ in
      let still : t ≡ u = ap (λ r. r.1) q in
      let (members, valid, hash, hashed, answered, calls) =
        client_lem new_threshold current new_valset sigs u s' tx h₂ in
      let origin = query_current_valset-CurrentValset new_valset current s t p in
      record {
        current = current;
        queried = t;
        origin = origin;
        sigs = sigs;
        in_order = ok_matching signatures current sigs (ap (λ r. r.0) q);
        members = members;
        members_eq = valid;
        hash = hash;
        hash_eq = hashed;
        answered =
            ap
              (λ v.
                contract.update_validator_set new_valset.nonce (current_nonce current new_valset)
                  new_threshold hash members sigs v.ext)
              still
            ∙ answered;
        calls_eq =
            calls
            ∙ ap (λ cs. update_call new_threshold current new_valset ∷ cs)
                (sym (ap (λ r. r.1.calls) q) ∙ CurrentValset-calls new_valset current s t origin);
      }
