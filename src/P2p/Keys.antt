-- ===== src/P2p/Keys.antt =====
-- p2p/keys.go: the DHT's keys.
pub mod RoundTrip
use orchestrator_relayer.Prelude.{
  ℕ, List, [], ◌∷◌, ◌++◌, Option, none, some, Bytes, codes, str_eq, if◌then◌else◌,
}
use orchestrator_relayer.Effect.{
  invalid_confirm_key, empty_namespace, empty_evm_addr, empty_digest, Result, ok, err, and_then,
}
use orchestrator_relayer.Std.Strconv.{format_uint, parse_uint}
use orchestrator_relayer.Std.Strings.{split}

abbrev pub data_commitment_confirm_namespace : Bytes
data_commitment_confirm_namespace = codes "dcc"

abbrev pub valset_confirm_namespace : Bytes
valset_confirm_namespace = codes "vc"

abbrev pub latest_valset_namespace : Bytes
latest_valset_namespace = codes "lv"

unfoldable pub get_data_commitment_confirm_key : ℕ → Bytes → Bytes → Bytes
get_data_commitment_confirm_key nonce evm_addr data_root_tuple_root =
    b'/'
    ∷ (data_commitment_confirm_namespace
        ++ (b'/' ∷ (format_uint nonce ++ (b':' ∷ (evm_addr ++ (b':' ∷ data_root_tuple_root))))))

unfoldable pub get_valset_confirm_key : ℕ → Bytes → Bytes → Bytes
get_valset_confirm_key nonce evm_addr sign_bytes =
    b'/'
    ∷ (valset_confirm_namespace
        ++ (b'/' ∷ (format_uint nonce ++ (b':' ∷ (evm_addr ++ (b':' ∷ sign_bytes))))))

unfoldable pub get_latest_valset_key : Bytes
get_latest_valset_key = b'/' ∷ (latest_valset_namespace ++ codes "/latest")

pub record Key : Type 0 where
  pub namespace : Bytes
  pub nonce : ℕ
  pub evm_addr : Bytes
  pub digest : Bytes

-- `len(parts) != 3`
abbrev three : List Bytes → Option (Bytes × Bytes × Bytes)
three (a ∷ b ∷ c ∷ []) = some (a, b, c)
three _ = none

-- the namespace is checked before the second split, the nonce before the address and the digest
parse_values : Bytes → Option (Bytes × Bytes × Bytes) → Result Key
parse_values namespace none = err invalid_confirm_key
parse_values namespace (some (text, evm_addr, digest)) = and_then (parse_uint 16 text) λ nonce.
    if str_eq evm_addr []
    then err empty_evm_addr
    else if str_eq digest []
    then err empty_digest
    else ok (record { namespace = namespace; nonce = nonce; evm_addr = evm_addr; digest = digest })

parse_parts : Option (Bytes × Bytes × Bytes) → Result Key
unfolding parse_values
parse_parts none = err invalid_confirm_key
parse_parts (some (_, namespace, values)) =
    if str_eq namespace []
    then err empty_namespace
    else parse_values namespace (three (split b':' values))

unfoldable pub parse_key : Bytes → Result Key
unfolding parse_parts
parse_key key = parse_parts (three (split b'/' key))
