-- ===== src/Std/Hex.antt =====
-- `hex.EncodeToString` and `hex.DecodeString`.
use orchestrator_relayer.Prelude.{
  ℕ, ◌+◌, ◌-◌, ◌*◌, ◌/◌, ◌%◌, ◌<◌, ◌≡◌, refl, ap, [], ◌∷◌, ◌&&◌, Option, none, some, arith, Bytes,
  codes, ltb, leb, if◌then◌else◌, All, str_eq, take, false, length,
}
use orchestrator_relayer.Effect.{hex_decode_error, Result, ok, err}

hex_char : ℕ → ℕ
hex_char d = if ltb d 10 then b'0' + d else b'a' + d - 10

unfoldable pub encode : Bytes → Bytes
unfolding hex_char
encode [] = []
encode (b ∷ s) = hex_char (b / 16) ∷ hex_char (b % 16) ∷ encode s

-- `fromHexChar`
from_hex_char : ℕ → Option ℕ
from_hex_char c =
    if leb b'0' c && leb c b'9'
    then some (c - b'0')
    else if leb b'a' c && leb c b'f'
    then some (c - b'a' + 10)
    else if leb b'A' c && leb c b'F'
    then some (c - b'A' + 10)
    else none

decode_byte : Option ℕ → Option ℕ → Option ℕ
decode_byte none _ = none
decode_byte (some a) none = none
decode_byte (some a) (some b) = some (a * 16 + b)

put_byte : Option ℕ → Result Bytes → Result Bytes
put_byte none _ = err hex_decode_error
put_byte (some b) (ok s) = ok (b ∷ s)
put_byte (some b) (err e) = err e

-- an odd length and a byte that is no digit are errors
unfoldable pub decode : Bytes → Result Bytes
unfolding from_hex_char decode_byte put_byte
decode [] = ok []
decode (c ∷ []) = err hex_decode_error
decode (c ∷ d ∷ s) = put_byte (decode_byte (from_hex_char c) (from_hex_char d)) (decode s)

from_hex_char-hex_char : (d : ℕ) → d < 16 → from_hex_char (hex_char d) ≡ some d
unfolding from_hex_char hex_char
from_hex_char-hex_char d h = ground arith

-- every byte string is read back from its hexadecimal print
pub decode-encode : (s : Bytes) → All (λ b. b < 256) s → decode (encode s) ≡ ok s
unfolding decode encode
decode-encode [] h = refl
decode-encode (b ∷ s) (byte, rest) =
    rw
      (
        from_hex_char-hex_char (b / 16) (omega arith),
        from_hex_char-hex_char (b % 16) (omega arith),
        decode-encode s rest,
      )
      (ap (λ c. ok (c ∷ s)) (omega arith))

-- a printed byte string does not begin with `0x`
pub encode_no_0x : (s : Bytes) → str_eq (take 2 (encode s)) (codes "0x") ≡ false
unfolding encode str_eq
encode_no_0x [] = refl
encode_no_0x (b ∷ s) = ground arith

pub length-encode : (s : Bytes) → length (encode s) ≡ 2 * length s
unfolding encode
length-encode [] = refl
length-encode (b ∷ s) = omega (arith, length-encode s)
