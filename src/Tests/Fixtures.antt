-- ===== src/Tests/Fixtures.antt =====
-- Concrete instances of what the model takes as parameters. The account's signature over any digest is
-- its address, filled up to 65 bytes.
use orchestrator_relayer.Prelude.{
  ℕ, true, List, [], ◌∷◌, ◌++◌, Option, none, some, Bytes, codes, drop, take, replicate,
}
use orchestrator_relayer.Effect.{routing_not_found, invalid, Result, ok, err, World}
use orchestrator_relayer.Std.Hex.{encode, decode}
use orchestrator_relayer.Std.Strings.{split}
use orchestrator_relayer.Types.Confirms.{
  ValsetConfirm, DataCommitmentConfirm, Codec, TupleRootCrypto,
}
use orchestrator_relayer.Types.Valsets.{BridgeValidator, Valset, LatestValset, Attestation, valset}
use orchestrator_relayer.Evm.Geth.{Geth}
use orchestrator_relayer.P2p.Dht.{IpfsDht, Codecs}
use orchestrator_relayer.Rpc.AppQuerier.{QueryClient}
use orchestrator_relayer.Rpc.TmQuerier.{TmClient}

abbrev pub account : Bytes
account = 0xab ∷ 0x01 ∷ []

abbrev pub digest : Bytes
digest = 0xd1 ∷ 0xd2 ∷ []

abbrev pub account_signature : Bytes
account_signature = account ++ replicate 63 0

unfoldable pub or_empty : Result Bytes → Bytes
or_empty (ok b) = b
or_empty (err e) = []

unfoldable pub print : Bytes → Bytes
print b = codes "0x" ++ encode b

unfoldable pub scan : Bytes → Bytes
scan s = or_empty (decode (drop 2 s))

abbrev pub geth : Geth
geth = record {
  keccak256 = λ b. b;
  ecrecover = λ _ signature. ok (take 2 signature);
  unmarshal_pubkey = λ b. ok b;
  pubkey_to_address = λ b. b;
  address_hex = print;
  is_hex_address = λ _. true;
  hex_to_address = scan;
  from_hex = scan;
  hash_hex = print;
}

unfoldable pub two_lines : List Bytes → Option (Bytes × Bytes)
two_lines (a ∷ b ∷ []) = some (a, b)
two_lines _ = none

unfoldable pub read_valset_confirm : Option (Bytes × Bytes) → Result ValsetConfirm
read_valset_confirm none = err invalid
read_valset_confirm (some (a, s)) = ok (record { eth_address = a; signature = s })

unfoldable pub read_commitment_confirm : Option (Bytes × Bytes) → Result DataCommitmentConfirm
read_commitment_confirm none = err invalid
read_commitment_confirm (some (a, s)) = ok (record { eth_address = a; signature = s })

-- a line for the address and a line for the signature
abbrev pub valset_confirm_codec : Codec ValsetConfirm
valset_confirm_codec = record {
  marshal = λ c. ok (c.eth_address ++ (10 ∷ c.signature));
  unmarshal = λ b. read_valset_confirm (two_lines (split 10 b));
}

abbrev pub data_commitment_confirm_codec : Codec DataCommitmentConfirm
data_commitment_confirm_codec = record {
  marshal = λ c. ok (c.eth_address ++ (10 ∷ c.signature));
  unmarshal = λ b. read_commitment_confirm (two_lines (split 10 b));
}

abbrev pub latest_of : ℕ → LatestValset
latest_of n = record { nonce = n; members = []; height = 1 }

unfoldable pub read_latest_valset : Bytes → Result LatestValset
read_latest_valset [] = err invalid
read_latest_valset (n ∷ _) = ok (latest_of n)

-- a latest valset is the byte of its nonce
abbrev pub latest_valset_codec : Codec LatestValset
latest_valset_codec = record { marshal = λ v. ok (v.nonce ∷ []); unmarshal = read_latest_valset }

abbrev pub codecs : Codecs
codecs = record {
  valset_confirm = valset_confirm_codec;
  data_commitment_confirm = data_commitment_confirm_codec;
  latest_valset = latest_valset_codec;
}

-- a network of one peer, in which nothing is stored
abbrev pub empty_dht : IpfsDht (Unit {0})
empty_dht = record {
  put_value = λ _ _ w. (ok tt, w);
  get_value = λ _ w. (err routing_not_found, w);
  list_peers = λ w. (1, w);
}

abbrev pub start : World (Unit {0})
start = record { ext = tt; calls = [] }

abbrev pub member : BridgeValidator
member = record { power = 10; evm_address = print account }

abbrev pub valset_of : ℕ → Valset
valset_of n = record { nonce = n; members = member ∷ []; height = 5; time = 1 }

-- nonces in one byte: attestations are answered with their nonce, and unpack to valsets
unfoldable pub unpack : Option Bytes → Result (Option Attestation)
unpack none = ok none
unpack (some []) = err invalid
unpack (some (n ∷ _)) = ok (some (valset (valset_of n)))

abbrev pub app : QueryClient (Unit {0})
app = record {
  attestation_request_by_nonce = λ _ nonce w. (ok (some (nonce ∷ [])), w);
  latest_attestation_nonce = λ _ w. (ok 7, w);
  earliest_attestation_nonce = λ w. (ok 1, w);
  latest_valset_request_before_nonce = λ _ nonce w. (ok (valset_of 3), w);
  unpack = unpack;
  ctx_err = λ w. (none, w);
  blocks = 100;
}

abbrev pub tm : TmClient (Unit {0})
tm = record {
  data_commitment = λ _ _ w. (ok digest, w);
  status = λ w. (ok 250, w);
  subscribe = λ _ _ w. (ok tt, w);
  unsubscribe = λ _ _ w. (ok tt, w);
}

abbrev pub crypto : TupleRootCrypto
crypto = record { pack = λ n b. some (replicate 4 0 ++ (n ∷ b)); keccak256 = λ b. b }
