-- ===== src/Orchestrator/Process/Published.antt =====
-- What `Process` has done where it succeeds.
use mathlib.Core.Path.{subst}
use orchestrator_relayer.Prelude.{◌≡◌, refl, sym, ap, ◌∷◌, Option, none, some, Bytes, arith}
use orchestrator_relayer.Effect.{
  put_value, sign_hash, Result, ok, World, Go, bind-inv, attempt, ◌>>=◌, lift,
}
use orchestrator_relayer.Std.Hex.{encode}
use orchestrator_relayer.Types.Confirms.{new_valset_confirm, new_data_commitment_confirm}
use orchestrator_relayer.Types.Valsets.{Valset, DataCommitment, to_latest_valset}
use orchestrator_relayer.Evm.Signature.{KeyStore, protected_hash, new_ethereum_signature}
use orchestrator_relayer.P2p.Keys.{
  get_latest_valset_key, get_valset_confirm_key, get_data_commitment_confirm_key,
}
use orchestrator_relayer.Orchestrator.Broadcaster.{
  provide_latest_valset, provide_valset_confirm, provide_data_commitment_confirm,
}
use orchestrator_relayer.Orchestrator.Broadcaster.Provides.{
  PutOrNot, provide_latest_valset-PutOrNot, provide_valset_confirm_put,
  provide_data_commitment_confirm_put,
}
use orchestrator_relayer.Orchestrator.Process.{
  Orchestrator, account_hex, process_valset_event, process_data_commitment_event,
}

module _ {W : Type 0} (orch : Orchestrator W) where
  open orch use {
    geth, crypto, sign_bytes, evm_key_store, evm_account, app_querier, tm_querier, dht, codecs,
  }

  -- The keystore signed the hash that wraps `digest`, between two worlds.
  pub record Signs (digest signature : Bytes) (s s' : World W) : Type 0 where
    pub key_store : KeyStore W
    pub key_store_eq : evm_key_store ≡ some key_store
    pub signed : key_store evm_account (protected_hash geth digest) s.ext ≡ (ok signature, s'.ext)
    pub calls_eq : s'.calls ≡ sign_hash (protected_hash geth digest) ∷ s.calls

  new_ethereum_signature-Signs :
      (digest signature : Bytes) (ks : Option (KeyStore W)) (s s' : World W)
      → evm_key_store ≡ ks
      → new_ethereum_signature geth digest ks evm_account s ≡ (ok signature, s')
      → Signs digest signature s s'
  unfolding new_ethereum_signature
  new_ethereum_signature-Signs digest signature none s s' k h = cc
  new_ethereum_signature-Signs digest signature (some ks) s s' k h = record {
    key_store = ks;
    key_store_eq = k;
    signed = ground (arith, h);
    calls_eq = ap (λ p. p.1.calls) (sym h);
  }

  -- The valset's confirm was published: first the valset may have been provided, then its sign bytes
  -- were signed, and last the confirm, with the account's address and that signature, was put under the
  -- key of the valset's nonce, the address and the sign bytes.
  pub record PublishedValset (vs : Valset) (s s' : World W) : Type 0 where
    pub provided : World W
    pub after_signing : World W
    pub digest : Bytes
    pub signature : Bytes
    pub value : Bytes
    pub provides :
        PutOrNot dht codecs.latest_valset get_latest_valset_key (to_latest_valset vs) s provided
    pub digest_eq : sign_bytes vs ≡ ok digest
    pub signs : Signs digest signature provided after_signing
    pub encoded :
        codecs.valset_confirm.marshal
          (new_valset_confirm geth.address_hex evm_account (encode signature))
        ≡ ok value
    pub calls_eq :
        s'.calls
        ≡ put_value
            (get_valset_confirm_key vs.nonce (account_hex orch) (geth.hash_hex digest))
            value
          ∷ after_signing.calls

  attempt-inv :
      {A : Type 0} (m : Go W A) (s t : World W) (r : Result A)
      → attempt m s ≡ (ok r, t)
      → m s ≡ (r, t)
  attempt-inv m s t r h = ground (arith, h)

  pub lift-inv :
      {A : Type 0} (r : Result A) (s t : World W) (a : A)
      → lift r s ≡ (ok a, t)
      → (r ≡ ok a) × (s ≡ t)
  lift-inv r s t a h = (ground (arith, h), ground (arith, h))

  -- the steps of `ProcessValsetEvent` behind the signature, and behind the sign bytes
  abbrev provide_confirm : Valset → Bytes → Bytes → Go W (Unit {0})
  provide_confirm vs digest signature =
      provide_valset_confirm dht codecs vs.nonce
        (new_valset_confirm geth.address_hex evm_account (encode signature)) (geth.hash_hex digest)

  abbrev sign_and_provide : Valset → Bytes → Go W (Unit {0})
  sign_and_provide vs digest =
      new_ethereum_signature geth digest evm_key_store evm_account >>= provide_confirm vs digest

  pub process_valset_event-PublishedValset :
      (vs : Valset) (s s' : World W)
      → process_valset_event orch vs s ≡ (ok tt, s')
      → PublishedValset vs s s'
  unfolding process_valset_event new_valset_confirm
  process_valset_event-PublishedValset vs s s' h =
      let (r, t, p, h1) =
        bind-inv (attempt (provide_latest_valset dht codecs (to_latest_valset vs)))
          (λ _. lift (sign_bytes vs) >>= sign_and_provide vs) s s' tt h in
      let (digest, u, q, h2) = bind-inv (lift (sign_bytes vs)) (sign_and_provide vs) t s' tt h1 in
      let (signature, v, sg, h3) =
        bind-inv (new_ethereum_signature geth digest evm_key_store evm_account)
          (provide_confirm vs digest) u s' tt h2 in
      let (dq, tu) = lift-inv (sign_bytes vs) t u digest q in
      let (value, enc, calls) =
        provide_valset_confirm_put dht codecs vs.nonce
          (new_valset_confirm geth.address_hex evm_account (encode signature))
          (geth.hash_hex digest) v s' h3 in
      record {
        provided = u;
        after_signing = v;
        digest = digest;
        signature = signature;
        value = value;
        provides =
            subst (PutOrNot dht codecs.latest_valset get_latest_valset_key (to_latest_valset vs) s)
              tu
              (provide_latest_valset-PutOrNot dht codecs (to_latest_valset vs) s t r
                (attempt-inv (provide_latest_valset dht codecs (to_latest_valset vs)) s t r p));
        digest_eq = dq;
        signs = new_ethereum_signature-Signs digest signature evm_key_store u v refl sg;
        encoded = enc;
        calls_eq = calls;
      }

  -- The same for a data commitment, of which the digest is the tuple root's hash.
  pub record PublishedDataCommitment (dc : DataCommitment) (root : Bytes) (s s' : World W)
      : Type 0 where
    pub after_signing : World W
    pub signature : Bytes
    pub value : Bytes
    pub signs : Signs root signature s after_signing
    pub encoded :
        codecs.data_commitment_confirm.marshal
          (new_data_commitment_confirm geth.address_hex (encode signature) evm_account)
        ≡ ok value
    pub calls_eq :
        s'.calls
        ≡ put_value
            (get_data_commitment_confirm_key dc.nonce (account_hex orch) (geth.hash_hex root))
            value
          ∷ after_signing.calls

  abbrev provide_root_confirm : DataCommitment → Bytes → Bytes → Go W (Unit {0})
  provide_root_confirm dc root signature =
      provide_data_commitment_confirm dht codecs dc.nonce
        (new_data_commitment_confirm geth.address_hex (encode signature) evm_account)
        (geth.hash_hex root)

  pub process_data_commitment_event-Published :
      (dc : DataCommitment) (root : Bytes) (s s' : World W)
      → process_data_commitment_event orch dc root s ≡ (ok tt, s')
      → PublishedDataCommitment dc root s s'
  unfolding process_data_commitment_event new_data_commitment_confirm
  process_data_commitment_event-Published dc root s s' h =
      let (signature, v, sg, h1) =
        bind-inv (new_ethereum_signature geth root evm_key_store evm_account)
          (provide_root_confirm dc root) s s' tt h in
      let (value, enc, calls) =
        provide_data_commitment_confirm_put dht codecs dc.nonce
          (new_data_commitment_confirm geth.address_hex (encode signature) evm_account)
          (geth.hash_hex root) v s' h1 in
      record {
        after_signing = v;
        signature = signature;
        value = value;
        signs = new_ethereum_signature-Signs root signature evm_key_store s v refl sg;
        encoded = enc;
        calls_eq = calls;
      }
