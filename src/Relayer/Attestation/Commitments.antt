-- ===== src/Relayer/Attestation/Commitments.antt =====
-- `ProcessAttestation` of a data commitment, as a whole.
use orchestrator_relayer.Prelude.{◌≡◌, refl, Option, none, some, List, Bytes, arith}
use orchestrator_relayer.Effect.{
  not_enough_data_commitment_confirms, Result, ok, err, World, Go, bind-inv,
}
use orchestrator_relayer.Types.Confirms.{DataCommitmentConfirm}
use orchestrator_relayer.Types.Valsets.{BridgeValidator, Valset, DataCommitment, data_commitment}
use orchestrator_relayer.Evm.Client.{Tx}
use orchestrator_relayer.P2p.Keys.{get_data_commitment_confirm_key}
use orchestrator_relayer.P2p.Dht.{Event, get_data_commitment_confirm}
use orchestrator_relayer.P2p.Querier.{query_two_thirds_data_commitment_confirms}
use orchestrator_relayer.P2p.Querier.TwoThirds.{IsMajority, two_thirds-Outcome}
use orchestrator_relayer.Relayer.Signatures.{save_data_commitment_signatures_to_store}
use orchestrator_relayer.Relayer.Attestation.{
  Relayer, query_previous_valset, and_then_await, before_await, commitment_and_hash,
  relay_data_commitment, relay, process_attestation,
}
use orchestrator_relayer.Relayer.Attestation.Submitted.{
  Submitted, submit_data_root_tuple_root-Submitted,
}

module _ {W : Type 0} (relayer : Relayer W) where
  open relayer use {dht, codecs, geth, signature_store, two_thirds_threshold}

  before_await-inv :
      {A B : Type 0} (p : Result A × World W) (k : A → World W → Option (Result B) × World W)
      (b : B) (s' : World W)
      → before_await relayer p k ≡ (some (ok b), s')
      → (a : A) × (t : World W) × (p ≡ (ok a, t)) × (k a t ≡ (some (ok b), s'))
  unfolding before_await
  before_await-inv (ok a, t) k b s' h = (a, t, refl, h)
  before_await-inv (err e, t) k b s' h = absurd (ground (arith, h))

  and_then_await-inv :
      {A B : Type 0} (p : Option (Result A) × World W) (k : A → Go W B) (b : B) (s' : World W)
      → and_then_await relayer p k ≡ (some (ok b), s')
      → (a : A) × (t : World W) × (p ≡ (some (ok a), t)) × (k a t ≡ (ok b, s'))
  unfolding and_then_await
  and_then_await-inv (none, t) k b s' h = absurd (ground (arith, h))
  and_then_await-inv (some (ok a), t) k b s' h = (a, t, refl, ground (arith, h))
  and_then_await-inv (some (err e), t) k b s' h = absurd (ground (arith, h))

  -- the confirm that the network has for a member
  abbrev confirm_of : DataCommitment → Bytes → BridgeValidator → Go W DataCommitmentConfirm
  confirm_of dc hash m =
      get_data_commitment_confirm dht codecs
        (get_data_commitment_confirm_key dc.nonce m.evm_address hash)

  -- The steps, each in the world that the one before it left: the previous valset, the commitment and
  -- its hash, confirms of a majority of that valset, saving them, and submitting them.
  pub record RelaysCommitment (dc : DataCommitment) (tx : Tx) (s s' : World W) : Type 0 where
    pub previous : Valset
    pub commitment : Bytes
    pub hash : Bytes
    pub confirms : List DataCommitmentConfirm
    pub queried : World W
    pub committed : World W
    pub collected : World W
    pub stored : World W
    pub previous_eq : query_previous_valset relayer dc.nonce s ≡ (ok (some previous), queried)
    pub hash_eq : commitment_and_hash relayer dc queried ≡ (ok (commitment, hash), committed)
    pub majority :
        IsMajority
          (λ c. c.eth_address)
          (confirm_of dc hash)
          previous.members
          (two_thirds_threshold previous)
          confirms
    pub saved :
        save_data_commitment_signatures_to_store geth signature_store codecs.data_commitment_confirm
          dc hash confirms collected
        ≡ (ok tt, stored)
    pub submitted :
        Submitted relayer dc previous (relayer.hex_bytes_string commitment) confirms tx stored s'

  majority_lem :
      (dc : DataCommitment) (previous : Valset) (hash : Bytes) (events : List Event)
      (confirms : List DataCommitmentConfirm) (s s' : World W)
      → query_two_thirds_data_commitment_confirms dht codecs two_thirds_threshold previous dc.nonce
          hash events s
        ≡ (some (ok confirms), s')
      → IsMajority
          (λ c. c.eth_address)
          (confirm_of dc hash)
          previous.members
          (two_thirds_threshold previous)
          confirms
  unfolding query_two_thirds_data_commitment_confirms
  majority_lem dc previous hash events confirms s s' h =
      two_thirds-Outcome (λ c. c.eth_address) (confirm_of dc hash) previous.members
        (two_thirds_threshold previous) not_enough_data_commitment_confirms events s s'
        (ok confirms) h

  relay_data_commitment-RelaysCommitment :
      (dc : DataCommitment) (previous : Valset) (events : List Event) (s t s' : World W) (tx : Tx)
      → query_previous_valset relayer dc.nonce s ≡ (ok (some previous), t)
      → relay_data_commitment relayer dc previous events t ≡ (some (ok tx), s')
      → RelaysCommitment dc tx s s'
  unfolding relay_data_commitment
  relay_data_commitment-RelaysCommitment dc previous events s t s' tx p h =
      let ((commitment, hash), u, q, h₁) =
        before_await-inv (commitment_and_hash relayer dc t) _ tx s' h in
      let (confirms, v, r, h₂) =
        and_then_await-inv
          (query_two_thirds_data_commitment_confirms dht codecs two_thirds_threshold previous
            dc.nonce hash events u)
          _ tx s' h₁ in
      let (_, w, saved, h₃) =
        bind-inv
          (save_data_commitment_signatures_to_store geth signature_store
            codecs.data_commitment_confirm dc hash confirms)
          _ v s' tx h₂ in
      record {
        previous = previous;
        commitment = commitment;
        hash = hash;
        confirms = confirms;
        queried = t;
        committed = u;
        collected = v;
        stored = w;
        previous_eq = p;
        hash_eq = q;
        majority = majority_lem dc previous hash events confirms u v r;
        saved = saved;
        submitted =
            submit_data_root_tuple_root-Submitted relayer dc previous
              (relayer.hex_bytes_string commitment) confirms w s' tx h₃;
      }

  -- When `ProcessAttestation` succeeds on a data commitment, whatever the events, it has found a previous
  -- valset and the commitment's hash, collected confirms of that hash from members of the valset, of
  -- which the signers' powers reach its two thirds threshold, saved them, and submitted the commitment
  -- to the contract with the signatures of exactly those confirms in the order of the members.
  pub process_attestation-RelaysCommitment :
      (dc : DataCommitment) (events : List Event) (s s' : World W) (tx : Tx)
      → process_attestation relayer (data_commitment dc) events s ≡ (some (ok tx), s')
      → RelaysCommitment dc tx s s'
  unfolding process_attestation relay
  process_attestation-RelaysCommitment dc events s s' tx h =
      let (previous, t, p, h₁) =
        before_await-inv (query_previous_valset relayer dc.nonce s) _ tx s' h in
      go previous t p h₁
    where
      go :
          (previous : Option Valset) (t : World W)
          → query_previous_valset relayer dc.nonce s ≡ (ok previous, t)
          → ◌≡◌ {A = Option (Result Tx) × World W}
              (elim previous [
                | none ↦ (none, t)
                | some valset ↦ relay relayer (data_commitment dc) valset events t
              ])
              (some (ok tx), s')
          → RelaysCommitment dc tx s s'
      go none t p h₁ = absurd (ground (arith, h₁))
      go (some previous) t p h₁ =
          relay_data_commitment-RelaysCommitment dc previous events s t s' tx p h₁
