-- ===== src/Relayer/Attestation/Submitted.antt =====
-- What `SubmitDataRootTupleRoot` hands to the contract.
use orchestrator_relayer.Prelude.{◌≡◌, sym, ap, ◌∙◌, List, [], ◌∷◌, Bytes}
use orchestrator_relayer.Effect.{contract_submit_root, ok, World, bind-inv, lift}
use orchestrator_relayer.Types.Confirms.{DataCommitmentConfirm}
use orchestrator_relayer.Types.Valsets.{Valset, DataCommitment}
use orchestrator_relayer.Evm.Transactions.{Signature}
use orchestrator_relayer.Evm.Client
use orchestrator_relayer.Evm.Client.{Tx, Validator, eth_valset}
use orchestrator_relayer.Relayer.Signatures.{sigs_map, match_attestation_confirm_sigs}
use orchestrator_relayer.Relayer.Signatures.Matching.{InOrder}
use orchestrator_relayer.Relayer.Attestation.{Relayer, submit_data_root_tuple_root}
use orchestrator_relayer.Relayer.Attestation.Relayed.{ok_matching}

module _ {W : Type 0} (relayer : Relayer W) where
  open relayer use {geth, contract}

  -- The call of the contract's method and its answer, with the current valset's members as they go to
  -- the contract and the signatures placed in their order.
  pub record Submitted (att : DataCommitment) (current : Valset) (commitment : Bytes)
      (confirms : List DataCommitmentConfirm) (tx : Tx) (s s' : World W) : Type 0 where
    pub sigs : List Signature
    pub in_order :
        InOrder geth
          (sigs_map (λ c. c.eth_address) (λ c. c.signature) confirms [])
          current.members
          sigs
    pub members : List Validator
    pub members_eq : eth_valset geth current ≡ ok members
    pub answered :
        contract.submit_data_root_tuple_root att.nonce current.nonce
          (relayer.hex_to_hash commitment)
          members
          sigs
          s.ext
        ≡ (ok tx, s'.ext)
    pub calls_eq :
        s'.calls
        ≡ contract_submit_root att.nonce current.nonce (relayer.hex_to_hash commitment) ∷ s.calls

  -- When `SubmitDataRootTupleRoot` succeeds, it has called the contract's method exactly once and called
  -- nothing else, with the data commitment's nonce, the current valset's nonce, the commitment as a
  -- hash, the members of the current valset, all with Ethereum addresses, and each member's signature at
  -- its place; the transaction is what the contract answered.
  pub submit_data_root_tuple_root-Submitted :
      (att : DataCommitment) (current : Valset) (commitment : Bytes)
      (confirms : List DataCommitmentConfirm) (s s' : World W) (tx : Tx)
      → submit_data_root_tuple_root relayer att current commitment confirms s ≡ (ok tx, s')
      → Submitted att current commitment confirms tx s s'
  unfolding submit_data_root_tuple_root Client.submit_data_root_tuple_root
  submit_data_root_tuple_root-Submitted att current commitment confirms s s' tx h =
      let signatures = sigs_map (λ c. c.eth_address) (λ c. c.signature) confirms [] in
      let (sigs, t, p, h₁) =
        bind-inv (lift (match_attestation_confirm_sigs geth signatures current)) _ s s' tx h in
      let (members, u, q, h₂) = bind-inv (lift (eth_valset geth current)) _ t s' tx h₁ in
      let same : u ≡ s = sym (ap (λ r. r.1) p ∙ ap (λ r. r.1) q) in
      record {
        sigs = sigs;
        in_order = ok_matching relayer signatures current sigs (ap (λ r. r.0) p);
        members = members;
        members_eq = ap (λ r. r.0) q;
        answered =
            ap
              (λ v.
                contract.submit_data_root_tuple_root att.nonce current.nonce
                  (relayer.hex_to_hash commitment) members sigs v.ext)
              (sym same)
            ∙ ap (λ r. (r.0, r.1.ext)) h₂;
        calls_eq =
            sym (ap (λ r. r.1.calls) h₂)
            ∙ ap
                (λ v.
                  contract_submit_root att.nonce current.nonce (relayer.hex_to_hash commitment)
                  ∷ v.calls)
                same;
      }
