-- ===== src/Types/Confirms.antt =====
-- types/valset_confirm.go and types/data_commitment_confirm.go. JSON is a parameter: a codec for
-- each type, with what the program relies on, that decoding inverts encoding, as a law of its own.
use orchestrator_relayer.Prelude.{
  ℕ, Bool, ◌&&◌, [], ◌≡◌, Bytes, str_eq, Option, none, some, take, drop, replicate, length, ◌++◌,
  ◌-◌,
}
use orchestrator_relayer.Effect.{Result, ok}

pub record ValsetConfirm : Type 0 where
  pub eth_address : Bytes
  pub signature : Bytes

pub record DataCommitmentConfirm : Type 0 where
  pub signature : Bytes
  pub eth_address : Bytes

-- `json.Marshal` and `json.Unmarshal` at one type
pub record Codec (T : Type 0) : Type 0 where
  pub marshal : T → Result Bytes
  pub unmarshal : Bytes → Result T

-- decoding gives back what was encoded
pub record RoundTrips {T : Type 0} (c : Codec T) : Type 0 where
  pub inverse : (t : T) (s : Bytes) → c.marshal t ≡ ok s → c.unmarshal s ≡ ok t

-- `ethAddress.Hex()` is handed in as `hex`
unfoldable pub new_valset_confirm : (Bytes → Bytes) → Bytes → Bytes → ValsetConfirm
new_valset_confirm hex address signature = record {
  eth_address = hex address;
  signature = signature;
}

unfoldable pub new_data_commitment_confirm : (Bytes → Bytes) → Bytes → Bytes → DataCommitmentConfirm
new_data_commitment_confirm hex signature address = record {
  signature = signature;
  eth_address = hex address;
}

pub is_empty_valset_confirm : ValsetConfirm → Bool
is_empty_valset_confirm vs = str_eq vs.eth_address [] && str_eq vs.signature []

pub is_empty_msg_data_commitment_confirm : DataCommitmentConfirm → Bool
is_empty_msg_data_commitment_confirm dcc = str_eq dcc.eth_address [] && str_eq dcc.signature []

-- What `DataCommitmentTupleRootSignBytes` takes from go-ethereum and celestia-app: the packed
-- call of the contract's ABI, `none` where packing fails, and the hash.
pub record TupleRootCrypto : Type 0 where
  pub pack : ℕ → Bytes → Option Bytes
  pub keccak256 : Bytes → Bytes

-- `copy(dataCommitment[:], commitment)` into 32 zero bytes
unfoldable pub to_32_bytes : Bytes → Bytes
to_32_bytes commitment = take 32 commitment ++ replicate (32 - length commitment) 0

-- The nonce goes to `Pack` as the int64 with the same bits. The first 4 bytes, the name of the
-- function, are dropped before hashing. `none` is a panic.
unfoldable pub data_commitment_tuple_root_sign_bytes : TupleRootCrypto → ℕ → Bytes → Option Bytes
unfolding to_32_bytes
data_commitment_tuple_root_sign_bytes crypto nonce commitment =
    elim (crypto.pack nonce (to_32_bytes commitment)) [
      | none ↦ none
      | some bytes ↦ some (crypto.keccak256 (drop 4 bytes))
    ]
