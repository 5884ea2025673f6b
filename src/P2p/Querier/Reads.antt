-- ===== src/P2p/Querier/Reads.antt =====
-- Asking the DHT for a confirm makes no call for its effect.
use orchestrator_relayer.Prelude.{ℕ, ◌≡◌, Bytes, arith, Bool-cases, inl, inr, Option}
use orchestrator_relayer.Effect.{World, Result-cases, outcome-cases, is_routing_not_found, Result}
use orchestrator_relayer.Types.Confirms.{Codec, ValsetConfirm, DataCommitmentConfirm}
use orchestrator_relayer.P2p.Keys.{get_valset_confirm_key, get_data_commitment_confirm_key}
use orchestrator_relayer.P2p.Dht.{
  IpfsDht, Codecs, get_decoded, get_valset_confirm, get_data_commitment_confirm,
}
use orchestrator_relayer.P2p.Querier.{
  or_nil, query_valset_confirm_by_evm_address, query_data_commitment_confirm_by_evm_address,
}

module _ {W : Type 0} (dht : IpfsDht W) (codecs : Codecs) where
  or_nil-calls :
      {T : Type 0} (codec : Codec T) (key : Bytes) (s s' : World W) (r : Result (Option T))
      → or_nil dht codecs (get_decoded dht codec key) s ≡ (r, s')
      → s'.calls ≡ s.calls
  unfolding get_decoded
  or_nil-calls codec key s s' r h = elim (outcome-cases (dht.get_value key s.ext)) [
    | inl (v, w, p) ↦ elim (Result-cases (codec.unmarshal v)) [
      | inl (c, q) ↦ ground (arith, h, p, q)
      | inr (e, q) ↦ elim (Bool-cases (is_routing_not_found e)) [
        | inl n ↦ ground (arith, h, p, q, n)
        | inr n ↦ ground (arith, h, p, q, n)
      ]
    ]
    | inr (e, w, p) ↦ elim (Bool-cases (is_routing_not_found e)) [
      | inl n ↦ ground (arith, h, p, n)
      | inr n ↦ ground (arith, h, p, n)
    ]
  ]

  pub query_valset_confirm_by_evm_address-calls :
      (nonce : ℕ) (address digest : Bytes) (s s' : World W) (r : Result (Option ValsetConfirm))
      → query_valset_confirm_by_evm_address dht codecs nonce address digest s ≡ (r, s')
      → s'.calls ≡ s.calls
  unfolding query_valset_confirm_by_evm_address get_valset_confirm
  query_valset_confirm_by_evm_address-calls nonce address digest =
      or_nil-calls codecs.valset_confirm (get_valset_confirm_key nonce address digest)

  pub query_data_commitment_confirm_by_evm_address-calls :
      (nonce : ℕ) (address root : Bytes) (s s' : World W)
      (r : Result (Option DataCommitmentConfirm))
      → query_data_commitment_confirm_by_evm_address dht codecs nonce address root s ≡ (r, s')
      → s'.calls ≡ s.calls
  unfolding query_data_commitment_confirm_by_evm_address get_data_commitment_confirm
  query_data_commitment_confirm_by_evm_address-calls nonce address root =
      or_nil-calls codecs.data_commitment_confirm
        (get_data_commitment_confirm_key nonce address root)
