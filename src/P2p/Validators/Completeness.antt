-- ===== src/P2p/Validators/Completeness.antt =====
-- The validators accept the confirms that orchestrators publish.
use orchestrator_relayer.Prelude.{
  ℕ, ◌^◌, ◌<◌, ◌≡◌, ◌≢◌, refl, [], ◌∷◌, ◌++◌, arith, Bytes, codes, All, length, str_eq_refl, lt→ltb,
}
use orchestrator_relayer.Effect.{ok}
use orchestrator_relayer.Std.Strings.{equal_fold_refl}
use orchestrator_relayer.Std.Hex.{encode, decode, decode-encode, encode_no_0x, length-encode}
use orchestrator_relayer.Types.Confirms.{
  ValsetConfirm, DataCommitmentConfirm, Codec, new_valset_confirm, new_data_commitment_confirm,
}
use orchestrator_relayer.Evm.Geth.{Geth, PrintsBack}
use orchestrator_relayer.Evm.Signature.{
  validate_ethereum_signature, validate_ethereum_signature_recovered, eth_address_from_signature,
}
use orchestrator_relayer.P2p.Keys.{get_valset_confirm_key, get_data_commitment_confirm_key}
use orchestrator_relayer.P2p.Keys.RoundTrip.{
  IsField, parse_key-get_valset_confirm_key, parse_key-get_data_commitment_confirm_key,
}
use orchestrator_relayer.P2p.Validators.{
  strip_0x, validate_valset_confirm, validate_data_commitment_confirm,
}

strip_0x-encode : (s : Bytes) → strip_0x (encode s) ≡ encode s
unfolding strip_0x
strip_0x-encode s = ground (arith, encode_no_0x s)

strip_0x_prefixed : (s : Bytes) → s ≢ [] → strip_0x (codes "0x" ++ encode s) ≡ encode s
unfolding strip_0x
strip_0x_prefixed [] h = absurd (h refl)
strip_0x_prefixed (b ∷ s) h =
    let long : 2 < length (codes "0x" ++ encode (b ∷ s)) = omega (arith, length-encode (b ∷ s)) in
    rw (lt→ltb 2 (length (codes "0x" ++ encode (b ∷ s))) long, str_eq_refl (codes "0x"))

-- An account, a digest and a signature over it, as `NewEthereumSignature` makes them: the address and
-- the digest print to texts that can stand in a key and be read back, and the signature, of 65 bytes
-- or more, recovers to the account's address.
pub record IsSigned (geth : Geth) (address digest signature : Bytes) : Type 0 where
  pub prints : PrintsBack geth address digest
  pub address_field : IsField (geth.address_hex address)
  pub digest_field : IsField (geth.hash_hex digest)
  pub digest_filled : digest ≢ []
  pub signature_bytes : All (λ b. b < 256) signature
  pub recovers : eth_address_from_signature geth digest signature ≡ ok address

module _ (geth : Geth) (address digest signature : Bytes)
    (signed : IsSigned geth address digest signature) (nonce : ℕ) (small : nonce < 2 ^ 64)
    (value : Bytes) where
  decode_digest : decode (strip_0x (geth.hash_hex digest)) ≡ ok digest
  decode_digest = rw signed.prints.digest_printed (
      rw (strip_0x_prefixed digest signed.digest_filled)
        (decode-encode digest signed.prints.digest_bytes))

  decode_signature : decode (strip_0x (encode signature)) ≡ ok signature
  decode_signature = rw (strip_0x-encode signature) (decode-encode signature signed.signature_bytes)

  validate_signature : validate_ethereum_signature geth digest signature address ≡ ok tt
  validate_signature =
      validate_ethereum_signature_recovered geth digest signature address signed.recovers

  -- For a signed digest and a nonce of 64 bits, a value that decodes to the confirm that
  -- `NewValsetConfirm` makes of the account and the signature passes the valset confirm validator under
  -- the key that `GetValsetConfirmKey` makes of the nonce, the account and the digest.
  pub validate_valset_confirm_published :
      (codec : Codec ValsetConfirm)
      → codec.unmarshal value ≡ ok (new_valset_confirm geth.address_hex address (encode signature))
      → validate_valset_confirm geth codec
          (get_valset_confirm_key nonce (geth.address_hex address) (geth.hash_hex digest))
          value
        ≡ ok tt
  unfolding validate_valset_confirm new_valset_confirm
  validate_valset_confirm_published codec h = simp (
    parse_key-get_valset_confirm_key nonce (geth.address_hex address) (geth.hash_hex digest)
        signed.address_field signed.digest_field small,
    str_eq_refl,
    signed.prints.address_valid,
    h,
    equal_fold_refl,
    decode_digest,
    decode_signature,
    signed.prints.address_back,
    validate_signature,
  )

  -- For a signed digest and a nonce of 64 bits, a value that decodes to the confirm that
  -- `NewDataCommitmentConfirm` makes of the account and the signature passes the data commitment confirm
  -- validator under the key that `GetDataCommitmentConfirmKey` makes of the nonce, the account and the
  -- digest.
  pub validate_data_commitment_confirm_published :
      (codec : Codec DataCommitmentConfirm)
      → codec.unmarshal value
        ≡ ok (new_data_commitment_confirm geth.address_hex (encode signature) address)
      → validate_data_commitment_confirm geth codec
          (get_data_commitment_confirm_key nonce (geth.address_hex address) (geth.hash_hex digest))
          value
        ≡ ok tt
  unfolding validate_data_commitment_confirm new_data_commitment_confirm
  validate_data_commitment_confirm_published codec h = simp (
    parse_key-get_data_commitment_confirm_key nonce (geth.address_hex address)
        (geth.hash_hex digest) signed.address_field signed.digest_field small,
    str_eq_refl,
    signed.prints.address_valid,
    h,
    equal_fold_refl,
    decode_digest,
    decode_signature,
    signed.prints.address_back,
    validate_signature,
  )
