-- ===== src/Relayer/Attestation/Authentic.antt =====
-- The valsets that the relayer takes from the P2P network.
use orchestrator_relayer.Prelude.{
  ◌<◌, ◌≡◌, sym, ap, ◌∙◌, inl, inr, ◌++◌, arith, Bytes, codes, drop, All, str_eq, str_eq→eq,
  Bool-cases,
}
use orchestrator_relayer.Effect.{Result, ok, World, bind-inv, lift}
use orchestrator_relayer.Std.Hex.{encode, decode, decode-encode}
use orchestrator_relayer.Types.Valsets.{Valset, LatestValset, to_valset}
use orchestrator_relayer.Evm.Geth.{Geth}
use orchestrator_relayer.Evm.Client
use orchestrator_relayer.P2p.Querier.{query_latest_valset}
use orchestrator_relayer.Relayer.Attestation.{
  Relayer, authenticated, query_valset_from_p2p_network_and_validate_it,
}

-- geth prints a hash as `0x` and the hexadecimal digits of its bytes
pub record HashPrints (geth : Geth) (hash : Bytes) : Type 0 where
  pub printed : geth.hash_hex hash ≡ codes "0x" ++ encode hash
  pub bytes : All (λ b. b < 256) hash

pub ok_injective : (a b : Bytes) → ◌≡◌ {A = Result Bytes} (ok a) (ok b) → a ≡ b
ok_injective a b h = ground (arith, h)

decode_printed :
    (geth : Geth) (hash : Bytes)
    → HashPrints geth hash
    → decode (drop 2 (geth.hash_hex hash)) ≡ ok hash
decode_printed geth hash h = ap (λ t. decode (drop 2 t)) h.printed ∙ decode-encode hash h.bytes

module _ {W : Type 0} (relayer : Relayer W) where
  open relayer use {dht, codecs, geth, contract}

  -- The valset is the one that the network has, and its hash is the contract's checkpoint.
  pub record Authentic (vs : Valset) (s s' : World W) : Type 0 where
    pub latest : LatestValset
    pub queried : World W
    pub hash : Bytes
    pub from_network : query_latest_valset dht codecs s ≡ (ok latest, queried)
    pub same : vs ≡ to_valset latest
    pub hashed : relayer.sign_bytes (to_valset latest) ≡ ok hash
    pub checkpoint :
        Client.state_last_validator_set_checkpoint geth contract queried ≡ (ok hash, s')

  authenticated-inv :
      (vs result : Valset) (h c : Bytes) (s s' : World W)
      → authenticated relayer vs h c s ≡ (ok result, s')
      → (h ≡ c) × (vs ≡ result) × (s ≡ s')
  unfolding authenticated
  authenticated-inv vs result h c s s' eq = elim (Bool-cases (str_eq h c)) [
    | inl p ↦ (str_eq→eq h c p, ground (arith, p, eq), ground (arith, p, eq))
    | inr p ↦ absurd (ground (arith, p, eq))
  ]

  -- A valset that `QueryValsetFromP2PNetworkAndValidateIt` returns is the latest one found in the P2P
  -- network, and its sign bytes are the checkpoint that the contract answers with at that time,
  -- provided geth prints hashes in hexadecimal.
  pub query_valset_from_p2p_network_and_validate_it-Authentic :
      (vs : Valset) (s s' : World W)
      → ((latest : LatestValset) (hash : Bytes)
          → relayer.sign_bytes (to_valset latest) ≡ ok hash
          → HashPrints geth hash)
      → query_valset_from_p2p_network_and_validate_it relayer s ≡ (ok vs, s')
      → Authentic vs s s'
  unfolding query_valset_from_p2p_network_and_validate_it
  query_valset_from_p2p_network_and_validate_it-Authentic vs s s' prints h =
      let (latest, t, from_network, h₁) = bind-inv (query_latest_valset dht codecs) _ s s' vs h in
      let (hash, t₁, hashed, h₂) =
        bind-inv (lift (relayer.sign_bytes (to_valset latest))) _ t s' vs h₁ in
      let (c, t₂, at, h₃) =
        bind-inv (Client.state_last_validator_set_checkpoint geth contract) _ t₁ s' vs h₂ in
      let (bytes, t₃, decoded, h₄) =
        bind-inv (lift (decode (drop 2 (geth.hash_hex hash)))) _ t₂ s' vs h₃ in
      let (agree, same, end) = authenticated-inv (to_valset latest) vs bytes c t₃ s' h₄ in
      let hashed' : relayer.sign_bytes (to_valset latest) ≡ ok hash = ap (λ p. p.0) hashed in
      let back = decode_printed geth hash (prints latest hash hashed') in
      let hash_is_c : hash ≡ c =
        ok_injective hash bytes (sym back ∙ ap (λ p. p.0) decoded) ∙ agree in
      record {
        latest = latest;
        queried = t;
        hash = hash;
        from_network = from_network;
        same = sym same;
        hashed = hashed';
        checkpoint =
            ap (λ u. Client.state_last_validator_set_checkpoint geth contract u)
              (ap (λ p. p.1) hashed)
            ∙ at
            ∙ ap (λ b. (ok b, t₂)) (sym hash_is_c)
            ∙ ap (λ u. (ok hash, u)) (ap (λ p. p.1) decoded ∙ end);
      }
