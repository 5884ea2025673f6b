-- ===== src/Evm/Transactions.antt =====
-- evm/evm_transaction_opts.go: `SigToVRS`, which takes a signature apart for the contract.
pub mod Canonical
use orchestrator_relayer.Prelude.{
  ℕ, ◌+◌, Bool, true, false, ◌||◌, not, List, [], ◌∷◌, Option, none, some, Bytes, codes, length,
  take, drop, ltb, ◌==◌, str_eq, map, get_elem?, if◌then◌else◌,
}
use orchestrator_relayer.Effect.{Error, invalid, Result, ok, err}
use orchestrator_relayer.Effect.Fallible.{◌>>=◌, ◌>>◌, guard}
use orchestrator_relayer.Std.Strings.{to_lower}
use orchestrator_relayer.Evm.Geth.{Geth}

abbrev pub malleability_threshold : Bytes
malleability_threshold = codes "0x7fffffffffffffffffffffffffffffff5d576e7357a4501ddfe92f46681b20a0"

abbrev pub zero_s_value : Bytes
zero_s_value = codes "0x0000000000000000000000000000000000000000000000000000000000000000"

-- `a <= b` on strings: byte by byte
unfoldable pub str_le : Bytes → Bytes → Bool
str_le [] t = true
str_le (x ∷ s) [] = false
str_le (x ∷ s) (y ∷ t) =
    let rest = str_le s t in if ltb x y then true else if x == y then rest else false

-- the `switch` over `vParam`, of which a missing byte cannot be, after the test of the length
unfoldable pub v_param : Option ℕ → Result ℕ
v_param none = err invalid
v_param (some v) =
    if v == 0
    then ok 27
    else if v == 1
    then ok 28
    else if v == 27 || v == 28
    then ok v
    else err invalid

pub record Signature : Type 0 where
  pub v : ℕ
  pub r : Bytes
  pub s : Bytes

-- `wrapper.Signature{}`: what a slice made with `make` holds
abbrev pub zero_signature : Signature
zero_signature = record { v = 0; r = []; s = [] }

-- `BytesToHash` of 32 bytes is those bytes.
unfoldable pub sig_to_vrs : Geth → Bytes → Result Signature
unfolding v_param
sig_to_vrs geth sig_hex = do
  let bytes = geth.from_hex (map to_lower sig_hex)
  guard (length bytes == 65) invalid
  v ← v_param (get_elem? bytes 64)
  let s = take 32 (drop 32 bytes)
  guard
      (not
        (str_le malleability_threshold (geth.hash_hex s) || str_eq (geth.hash_hex s) zero_s_value))
      invalid
  ok (record { v = v; r = take 32 bytes; s = s })
