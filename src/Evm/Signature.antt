-- ===== src/Evm/Signature.antt =====
-- evm/ethereum_signature.go. The keystore is outside: signing is a call that takes the account's
-- address and the hash.
use orchestrator_relayer.Prelude.{
  not, ◌∷◌, ◌++◌, Option, none, some, Bytes, codes, length, ltb, str_eq, str_eq_refl, ◌≡◌, refl,
}
use orchestrator_relayer.Effect.{empty, invalid, sign_hash, Result, ok, Go, fail, call}
use orchestrator_relayer.Effect.Fallible.{◌>>=◌, ◌>>◌, guard}
use orchestrator_relayer.Evm.Geth.{Geth}

abbrev pub signature_prefix : Bytes
signature_prefix = 0x19 ∷ (codes "Ethereum Signed Message:" ++ (10 ∷ codes "32"))

-- `ks.SignHash(acc, hash)`
abbrev pub KeyStore : Type 0 → Type 0
KeyStore W = Bytes → Bytes → W → Result Bytes × W

module _ (geth : Geth) where
  open geth use {keccak256, ecrecover, unmarshal_pubkey, pubkey_to_address, address_hex}

  unfoldable pub protected_hash : Bytes → Bytes
  protected_hash hash = keccak256 (signature_prefix ++ hash)

  unfoldable pub new_ethereum_signature :
      {W : Type 0} → Bytes → Option (KeyStore W) → Bytes → Go W Bytes
  new_ethereum_signature hash none acc = fail empty
  new_ethereum_signature hash (some ks) acc =
      call (sign_hash (protected_hash hash)) (ks acc (protected_hash hash))

  unfoldable pub eth_address_from_signature : Bytes → Bytes → Result Bytes
  eth_address_from_signature hash signature = do
    guard (not (ltb (length signature) 65)) invalid
    sig_public_key ← ecrecover (protected_hash hash) signature
    pub_key ← unmarshal_pubkey sig_public_key
    ok (pubkey_to_address pub_key)

  unfoldable pub validate_ethereum_signature : Bytes → Bytes → Bytes → Result (Unit {0})
  unfolding eth_address_from_signature
  validate_ethereum_signature hash signature eth_address = do
    addr ← eth_address_from_signature hash signature
    guard (str_eq (address_hex addr) (address_hex eth_address)) invalid

  -- a signature from which the address is recovered passes
  pub validate_ethereum_signature_recovered :
      (hash signature address : Bytes)
      → eth_address_from_signature hash signature ≡ ok address
      → validate_ethereum_signature hash signature address ≡ ok tt
  validate_ethereum_signature_recovered hash signature address h =
      rw (step, h, str_eq_refl (address_hex address))
    where
      step : validate_ethereum_signature hash signature address ≡ (
          eth_address_from_signature hash signature >>= λ addr.
          guard (str_eq (address_hex addr) (address_hex address)) invalid)
      step = unfold validate_ethereum_signature in refl
