-- ===== src/Orchestrator/Process/Signed.antt =====
-- What signing an attestation has done where it succeeds.
use orchestrator_relayer.Prelude.{ℕ, ◌≡◌, sym, ap, ◌∙◌, Option, none, some, Bytes, arith}
use orchestrator_relayer.Effect.{ok, World, Go, bind-inv, ◌>>=◌, lift}
use orchestrator_relayer.Types.Confirms.{
  data_commitment_tuple_root_sign_bytes, ValsetConfirm, DataCommitmentConfirm,
}
use orchestrator_relayer.Types.Valsets.{
  Valset, DataCommitment, Attestation, valset, data_commitment, other,
}
use orchestrator_relayer.P2p.Querier.{
  query_valset_confirm_by_evm_address, query_data_commitment_confirm_by_evm_address,
}
use orchestrator_relayer.P2p.Querier.Reads.{
  query_valset_confirm_by_evm_address-calls, query_data_commitment_confirm_by_evm_address-calls,
}
use orchestrator_relayer.Rpc.TmQuerier.{query_commitment}
use orchestrator_relayer.Orchestrator.Process.{
  Orchestrator, account_hex, process_valset_event, process_data_commitment_event, sign_attestation,
  unless_signed, root_or_panic,
}
use orchestrator_relayer.Orchestrator.Process.Published.{
  PublishedValset, PublishedDataCommitment, process_valset_event-PublishedValset,
  process_data_commitment_event-Published, lift-inv,
}

module _ {W : Type 0} (orch : Orchestrator W) where
  open orch use {geth, crypto, sign_bytes, app_querier, tm_querier, dht, codecs}

  -- What signing an attestation did where it succeeded: nothing, since the DHT has the account's
  -- confirm already, or the confirm was published.
  pub data Signed (nonce : ℕ) : Attestation → World W → World W → Type 0 where
    valset_signed_before :
        (vs : Valset) (digest : Bytes) (c : ValsetConfirm) (s s' : World W)
        → sign_bytes vs ≡ ok digest
        → query_valset_confirm_by_evm_address dht codecs nonce
            (account_hex orch)
            (geth.hash_hex digest)
            s
          ≡ (ok (some c), s')
        → s'.calls ≡ s.calls
        → Signed nonce (valset vs) s s'
    valset_published :
        (vs : Valset) (s t s' : World W)
        → t.calls ≡ s.calls
        → PublishedValset orch vs t s'
        → Signed nonce (valset vs) s s'
    commitment_signed_before :
        (dc : DataCommitment) (commitment root : Bytes) (c : DataCommitmentConfirm)
        (s u t s' : World W)
        → query_commitment tm_querier dc.begin_block dc.end_block s ≡ (ok commitment, u)
        → data_commitment_tuple_root_sign_bytes crypto dc.nonce commitment ≡ some root
        → query_data_commitment_confirm_by_evm_address dht codecs dc.nonce
            (account_hex orch)
            (geth.hash_hex root)
            t
          ≡ (ok (some c), s')
        → s'.calls ≡ s.calls
        → Signed nonce (data_commitment dc) s s'
    commitment_published :
        (dc : DataCommitment) (commitment root : Bytes) (s u t s' : World W)
        → query_commitment tm_querier dc.begin_block dc.end_block s ≡ (ok commitment, u)
        → data_commitment_tuple_root_sign_bytes crypto dc.nonce commitment ≡ some root
        → t.calls ≡ s.calls
        → PublishedDataCommitment orch dc root t s'
        → Signed nonce (data_commitment dc) s s'

  root_or_panic-inv :
      (o : Option Bytes) (root : Bytes) → root_or_panic orch o ≡ ok root → o ≡ some root
  unfolding root_or_panic
  root_or_panic-inv none root h = cc
  root_or_panic-inv (some r) root h = ground (arith, h)

  -- the queries for a confirm of the account, and what follows them
  abbrev own_valset_confirm : ℕ → Bytes → Go W (Option ValsetConfirm)
  own_valset_confirm nonce digest =
      query_valset_confirm_by_evm_address dht codecs nonce (account_hex orch) (geth.hash_hex digest)

  abbrev own_root_confirm : DataCommitment → Bytes → Go W (Option DataCommitmentConfirm)
  own_root_confirm dc root =
      query_data_commitment_confirm_by_evm_address dht codecs dc.nonce (account_hex orch)
        (geth.hash_hex root)

  abbrev after_valset_query : Valset → Option ValsetConfirm → Go W (Unit {0})
  after_valset_query vs resp = unless_signed orch resp (process_valset_event orch vs)

  abbrev after_root_query : DataCommitment → Bytes → Option DataCommitmentConfirm → Go W (Unit {0})
  after_root_query dc root resp =
      unless_signed orch resp (process_data_commitment_event orch dc root)

  after_valset_query-Signed :
      (nonce : ℕ) (vs : Valset) (digest : Bytes) (resp : Option ValsetConfirm) (s u s' : World W)
      → sign_bytes vs ≡ ok digest
      → own_valset_confirm nonce digest s ≡ (ok resp, u)
      → after_valset_query vs resp u ≡ (ok tt, s')
      → Signed nonce (valset vs) s s'
  unfolding unless_signed
  after_valset_query-Signed nonce vs digest (some c) s u s' dq q h =
      let us : u ≡ s' = ap (λ r. r.1) h in
      let q' : own_valset_confirm nonce digest s ≡ (ok (some c), s') =
        q ∙ ap (λ w. (ok (some c), w)) us in
      valset_signed_before vs digest c s s' dq q'
        (query_valset_confirm_by_evm_address-calls dht codecs nonce _ _ s s' (ok (some c)) q')
  after_valset_query-Signed nonce vs digest none s u s' dq q h =
      valset_published vs s u s'
        (query_valset_confirm_by_evm_address-calls dht codecs nonce _ _ s u (ok none) q)
        (process_valset_event-PublishedValset orch vs u s' h)

  after_root_query-Signed :
      (nonce : ℕ) (dc : DataCommitment) (commitment root : Bytes)
      (resp : Option DataCommitmentConfirm) (s w t u s' : World W)
      → query_commitment tm_querier dc.begin_block dc.end_block s ≡ (ok commitment, w)
      → data_commitment_tuple_root_sign_bytes crypto dc.nonce commitment ≡ some root
      → t.calls ≡ s.calls
      → own_root_confirm dc root t ≡ (ok resp, u)
      → after_root_query dc root resp u ≡ (ok tt, s')
      → Signed nonce (data_commitment dc) s s'
  unfolding unless_signed
  after_root_query-Signed nonce dc commitment root (some c) s w t u s' cq rq st q h =
      let us : u ≡ s' = ap (λ r. r.1) h in
      let q' : own_root_confirm dc root t ≡ (ok (some c), s') = q ∙ ap (λ x. (ok (some c), x)) us in
      commitment_signed_before dc commitment root c s w t s' cq rq q' (
        query_data_commitment_confirm_by_evm_address-calls dht codecs dc.nonce _ _ t s'
          (ok (some c)) q'
        ∙ st)
  after_root_query-Signed nonce dc commitment root none s w t u s' cq rq st q h =
      commitment_published dc commitment root s w u s' cq rq
        (query_data_commitment_confirm_by_evm_address-calls dht codecs dc.nonce _ _ t u (ok none) q
          ∙ st)
        (process_data_commitment_event-Published orch dc root u s' h)

  -- Where signing an attestation succeeds, for a valset or a data commitment: either the DHT answered
  -- with the account's confirm and nothing was called, or the confirm was signed and published.
  pub sign_attestation-Signed :
      (nonce : ℕ) (att : Attestation) (s s' : World W)
      → sign_attestation orch nonce att s ≡ (ok tt, s')
      → Signed nonce att s s'
  unfolding sign_attestation query_commitment
  sign_attestation-Signed nonce (valset vs) s s' h =
      let (digest, t, p, h1) =
        bind-inv (lift (sign_bytes vs))
          (λ digest. own_valset_confirm nonce digest >>= after_valset_query vs) s s' tt h in
      let (resp, u, q, h2) =
        bind-inv (own_valset_confirm nonce digest) (after_valset_query vs) t s' tt h1 in
      let (dq, st) = lift-inv orch (sign_bytes vs) s t digest p in
      after_valset_query-Signed nonce vs digest resp s u s' dq
        (ap (own_valset_confirm nonce digest) st ∙ q) h2
  sign_attestation-Signed nonce (data_commitment dc) s s' h =
      let (commitment, t, p, h1) =
        bind-inv (query_commitment tm_querier dc.begin_block dc.end_block)
          (λ commitment.
            lift (
              root_or_panic orch (data_commitment_tuple_root_sign_bytes crypto dc.nonce commitment))
            >>= λ root. own_root_confirm dc root >>= after_root_query dc root)
          s s' tt h in
      let (root, u, q, h2) =
        bind-inv
          (lift
            (root_or_panic orch (data_commitment_tuple_root_sign_bytes crypto dc.nonce commitment)))
          (λ root. own_root_confirm dc root >>= after_root_query dc root) t s' tt h1 in
      let (resp, v, r, h3) =
        bind-inv (own_root_confirm dc root) (after_root_query dc root) u s' tt h2 in
      let (rq, tu) =
        lift-inv orch
          (root_or_panic orch (data_commitment_tuple_root_sign_bytes crypto dc.nonce commitment)) t
          u root q in
      let calls : t.calls ≡ s.calls = ap (λ x. x.1.calls) (sym p) in
      after_root_query-Signed nonce dc commitment root resp s t u v s' p
        (root_or_panic-inv (data_commitment_tuple_root_sign_bytes crypto dc.nonce commitment) root
          rq)
        (ap (λ w. w.calls) (sym tu) ∙ calls) r h3
  sign_attestation-Signed nonce (other n) s s' h = cc
