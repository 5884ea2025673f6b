-- ===== src/Std/Strconv.antt =====
-- `strconv.FormatUint(n, 16)`, `strconv.ParseUint(s, base, 64)` and `strconv.Atoi`.
use native.Mathlib.Nat.{pow-suc}
use orchestrator_relayer.Prelude.{
  ℕ, zero, suc, ◌+◌, ◌-◌, ◌*◌, ◌/◌, ◌%◌, ◌^◌, ◌≤◌, ◌<◌, ◌≡◌, ◌≢◌, refl, ap, ◌∙◌, [], ◌∷◌, ◌&&◌,
  Option, none, some, arith, Bytes, codes, ltb, leb, if◌then◌else◌, Lacks, Bool-cases, inl, inr,
  lt→ltb, ltb→lt, ◌⊎◌, ◌==◌,
}
use orchestrator_relayer.Effect.{parse_uint_error, Result, ok, err}

-- the digits "0123456789abcdef"
hex_digit : ℕ → ℕ
hex_digit d = if ltb d 10 then b'0' + d else b'a' + d - 10

-- `for u >= b { a[i] = digits[u&m]; u >>= shift }; a[i] = digits[u]`
emit : ℕ → ℕ → Bytes → Bytes
unfolding hex_digit
emit zero n out = out
emit (suc f) n out =
    let rest = emit f (n / 16) (hex_digit (n % 16) ∷ out) in
    if ltb n 16 then hex_digit n ∷ out else rest

-- a uint64 has sixteen hexadecimal digits at most
pub format_uint : ℕ → Bytes
format_uint n = emit 16 n []

-- the value of a digit or letter, `none` for any other byte
digit_value : ℕ → Option ℕ
digit_value c =
    if leb b'0' c && leb c b'9'
    then some (c - b'0')
    else if leb b'a' c && leb c b'z'
    then some (c - b'a' + 10)
    else if leb b'A' c && leb c b'Z'
    then some (c - b'A' + 10)
    else none

-- one round of the loop of `ParseUint`: `none` for a syntax or a range error
add_digit : ℕ → ℕ → ℕ → Option ℕ
add_digit base n d =
    let n1 = (n * base + d) % 2 ^ 64 in
    if leb base d
    then none
    else if leb ((2 ^ 64 - 1) / base + 1) n
    then none
    else if ltb n1 (n * base % 2 ^ 64)
    then none
    else some n1

scan_byte : ℕ → ℕ → ℕ → Option ℕ
unfolding digit_value add_digit
scan_byte base n c = elim (digit_value c) [ none ↦ none | some d ↦ add_digit base n d ]

scan : ℕ → Bytes → ℕ → Result ℕ
unfolding scan_byte
scan base [] n = ok n
scan base (c ∷ s) n = elim (scan_byte base n c) [
  | none ↦ err parse_uint_error
  | some n1 ↦ scan base s n1
]

unfoldable pub parse_uint : ℕ → Bytes → Result ℕ
unfolding scan
parse_uint base [] = err parse_uint_error
parse_uint base (c ∷ s) = scan base (c ∷ s) 0

-- an `int` is its 64 bits, in two's complement
positive_int : ℕ → Result ℕ
positive_int n = if ltb n (2 ^ 63) then ok n else err parse_uint_error

negative_int : ℕ → Result ℕ
negative_int n = if leb n (2 ^ 63) then ok ((2 ^ 64 - n) % 2 ^ 64) else err parse_uint_error

signed : (ℕ → Result ℕ) → Bytes → Result ℕ
unfolding parse_uint
signed with_sign digits = elim (parse_uint 10 digits) [ err e ↦ err e | ok n ↦ with_sign n ]

-- `strconv.Atoi`, which allows a sign
unfoldable pub atoi : Bytes → Result ℕ
unfolding signed positive_int negative_int
atoi [] = err parse_uint_error
atoi (c ∷ s) =
    if c == b'-'
    then signed negative_int s
    else if c == b'+'
    then signed positive_int s
    else signed positive_int (c ∷ s)

scan_hex_digit : (n d : ℕ) → n < 2 ^ 60 → d < 16 → scan_byte 16 n (hex_digit d) ≡ some (n * 16 + d)
unfolding scan_byte hex_digit
scan_hex_digit n d h k = ground arith

format_max : format_uint (2 ^ 64 - 1) ≡ codes "ffffffffffffffff"
unfolding format_uint emit
format_max = refl

scan_step :
    (n d : ℕ) (out : Bytes)
    → n < 2 ^ 60
    → d < 16
    → scan 16 (hex_digit d ∷ out) n ≡ scan 16 out (n * 16 + d)
unfolding scan
scan_step n d out h k = rw (scan_hex_digit n d h k, scan)

-- reading back the digits that `emit` puts in front of `out`
scan-emit :
    (f n : ℕ) (out : Bytes)
    → n < 16 ^ suc f
    → n < 2 ^ 64
    → scan 16 (emit (suc f) n out) 0 ≡ scan 16 out n
unfolding emit
scan-emit zero n out h k =
    let small : n < 16 = omega (arith, pow-suc 16 0, h) in
    rw (lt→ltb n 16 small) (scan_step 0 n out (omega arith) small ∙ ap (scan 16 out) (omega arith))
scan-emit (suc f) n out h k = elim (Bool-cases (ltb n 16)) [
  | inl small ↦
      rw small
        (scan_step 0 n out (omega arith) (ltb→lt n 16 small) ∙ ap (scan 16 out) (omega arith))
  | inr large ↦ rw large (
      scan-emit f (n / 16) (hex_digit (n % 16) ∷ out) (omega (arith, pow-suc 16 (suc f), h))
        (omega arith)
      ∙ scan_step (n / 16) (n % 16) out (omega arith) (omega arith)
      ∙ ap (scan 16 out) (omega arith))
]

emit_step :
    (f n : ℕ) (out : Bytes)
    → emit (suc f) n out
      ≡ (if ltb n 16 then hex_digit n ∷ out else emit f (n / 16) (hex_digit (n % 16) ∷ out))
unfolding emit
emit_step f n out = refl

abbrev IsCons : Bytes → Type 0
IsCons s = (c : ℕ) × (r : Bytes) × (s ≡ c ∷ r)

emit-IsCons : (f n : ℕ) (out : Bytes) → IsCons (emit (suc f) n out)
emit-IsCons zero n out = elim (Bool-cases (ltb n 16)) [
  | inl small ↦ (hex_digit n, out, rw (emit_step, small))
  | inr large ↦ (hex_digit (n % 16), out, rw (emit_step, large) (unfold emit in refl))
]
emit-IsCons (suc f) n out = elim (Bool-cases (ltb n 16)) [
  | inl small ↦ (hex_digit n, out, rw (emit_step, small))
  | inr large ↦
      let (c, s, e) = emit-IsCons f (n / 16) (hex_digit (n % 16) ∷ out) in
      (c, s, rw (emit_step, large) e)
]

-- Every uint64 is read back from its hexadecimal print.
pub parse_uint-format_uint : (n : ℕ) → n < 2 ^ 64 → parse_uint 16 (format_uint n) ≡ ok n
unfolding format_uint parse_uint scan
parse_uint-format_uint n h =
    let (c, s, e) = emit-IsCons 15 n [] in
    rw (e, parse_uint) (rw (← e) (scan-emit 15 n [] (omega arith) h))

hex_digit_ne : (d b : ℕ) → d < 16 → b ≤ 47 ⊎ (b ≡ 58) → hex_digit d ≢ b
unfolding hex_digit
hex_digit_ne d b h k e = ground arith

emit-Lacks : (b f n : ℕ) (out : Bytes) → b ≤ 47 ⊎ (b ≡ 58) → Lacks b out → Lacks b (emit f n out)
emit-Lacks b zero n out h k = unfold emit in k
emit-Lacks b (suc f) n out h k = elim (Bool-cases (ltb n 16)) [
  | inl small ↦ rw (emit_step, small) (hex_digit_ne n b (ltb→lt n 16 small) h, k)
  | inr large ↦
      rw (emit_step, large)
        (emit-Lacks b f (n / 16) (hex_digit (n % 16) ∷ out) h
          (hex_digit_ne (n % 16) b (omega arith) h, k))
]

-- no separator of a key stands in a printed number
pub format_uint-Lacks : (n b : ℕ) → b ≤ 47 ⊎ (b ≡ 58) → Lacks b (format_uint n)
unfolding format_uint
format_uint-Lacks n b h = emit-Lacks b 16 n [] h tt
