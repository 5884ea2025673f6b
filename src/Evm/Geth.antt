-- ===== src/Evm/Geth.antt =====
-- What the program calls of go-ethereum. Hashes, addresses and public keys are byte strings.
use orchestrator_relayer.Prelude.{Bool, true, ◌≡◌, ◌++◌, ◌<◌, Bytes, codes, All}
use orchestrator_relayer.Effect.{Result}
use orchestrator_relayer.Std.Hex.{encode}

pub record Geth : Type 0 where
  pub keccak256 : Bytes → Bytes
  pub ecrecover : Bytes → Bytes → Result Bytes
  pub unmarshal_pubkey : Bytes → Result Bytes
  pub pubkey_to_address : Bytes → Bytes
  pub address_hex : Bytes → Bytes  -- `Address.Hex`, with the checksum's capitals
  pub is_hex_address : Bytes → Bool
  pub hex_to_address : Bytes → Bytes
  pub from_hex : Bytes → Bytes
  pub hash_hex : Bytes → Bytes  -- `Hash.Hex` and `Hash.String`

-- The documented behaviour that the program relies on, at one address and one digest.
pub record PrintsBack (g : Geth) (address digest : Bytes) : Type 0 where
  pub address_valid : g.is_hex_address (g.address_hex address) ≡ true
  pub address_back : g.hex_to_address (g.address_hex address) ≡ address
  pub digest_printed : g.hash_hex digest ≡ codes "0x" ++ encode digest
  pub digest_bytes : All (λ b. b < 256) digest
