-- ===== src/Tests/Keys.antt =====
-- p2p/keys.go and types/latest_valset.go at concrete inputs.
use orchestrator_relayer.Prelude.{◌≡◌, arith, [], ◌∷◌, ◌↔◌, Bytes, codes, some, true}
use orchestrator_relayer.Effect.{ok}
use orchestrator_relayer.Types.Valsets.{LatestValset, is_valset_equal_to_latest_valset}
use orchestrator_relayer.Types.Valsets.Agrees.{Prefix, is_valset_equal_to_latest_valset-Prefix}
use orchestrator_relayer.P2p.Keys.{Key, get_valset_confirm_key, parse_key, valset_confirm_namespace}
use orchestrator_relayer.P2p.Keys.RoundTrip.{
  IsField, Spells, parse_key-get_valset_confirm_key, parse_key-Spells,
}
use orchestrator_relayer.Tests.Fixtures.{valset_of, member}

abbrev address : Bytes
address = codes "0xab01"

abbrev root : Bytes
root = codes "0xd1d2"

address-IsField : IsField address
address-IsField = record { filled = λ e. cc; no_slash = omega arith; no_colon = omega arith }

root-IsField : IsField root
root-IsField = record { filled = λ e. cc; no_slash = omega arith; no_colon = omega arith }

parse_key-get_valset_confirm_key_example :
    parse_key (get_valset_confirm_key 300 address root)
    ≡ ok (record {
      namespace = valset_confirm_namespace;
      nonce = 300;
      evm_addr = address;
      digest = root;
    })
parse_key-get_valset_confirm_key_example =
    parse_key-get_valset_confirm_key 300 address root address-IsField root-IsField (omega arith)

abbrev spelled : Key
spelled = record {
  namespace = valset_confirm_namespace;
  nonce = 300;
  evm_addr = address;
  digest = root;
}

parse_key-Spells_example : Spells (get_valset_confirm_key 300 address root) spelled
parse_key-Spells_example =
    parse_key-Spells (get_valset_confirm_key 300 address root) spelled
      (parse_key-get_valset_confirm_key 300 address root address-IsField root-IsField (omega arith))

-- the latest valset has one member more
abbrev longer : LatestValset
longer = record { nonce = 3; members = member ∷ member ∷ []; height = 5 }

is_valset_equal_to_latest_valset-Prefix_example :
    (is_valset_equal_to_latest_valset (valset_of 3) longer ≡ some true) ↔ (
      Prefix (valset_of 3).members longer.members
      × ((valset_of 3).nonce ≡ longer.nonce)
      × ((valset_of 3).height ≡ longer.height))
is_valset_equal_to_latest_valset-Prefix_example =
    is_valset_equal_to_latest_valset-Prefix (valset_of 3) longer
