-- ===== src/Evm/Transactions/Canonical.antt =====
-- The signatures that `SigToVRS` lets through.
use mathlib.Core.Path.{subst}
use orchestrator_relayer.Prelude.{
  ℕ, ◌≡◌, refl, ◌⊎◌, inl, inr, Bool, true, false, ◌||◌, not, Option, none, some, arith, Bytes, map,
  length, take, drop, get_elem?, ◌==◌, ==_iff, str_eq,
}
use orchestrator_relayer.Effect.{Error, invalid, Result, ok, Result-cases}
use orchestrator_relayer.Effect.Fallible.{◌>>=◌, guard}
use orchestrator_relayer.Std.Strings.{to_lower}
use orchestrator_relayer.Evm.Geth.{Geth}
use orchestrator_relayer.Evm.Transactions.{
  Signature, malleability_threshold, zero_s_value, str_le, v_param, sig_to_vrs,
}

-- The recovery byte as the contract wants it, 27 or 28, from one that may lack the 27.
abbrev pub Recovery : ℕ → ℕ → Type 0
Recovery b v = (b ≡ 0) × (v ≡ 27) ⊎ (b ≡ 1) × (v ≡ 28) ⊎ (b ≡ 27) × (v ≡ 27) ⊎ (b ≡ 28) × (v ≡ 28)

v_param-Recovery : (b v : ℕ) → v_param (some b) ≡ ok v → Recovery b v
unfolding v_param
v_param-Recovery b v h = ground arith

pub and_then-inv :
    {A B : Type 0} (r : Result A) (f : A → Result B) (b : B)
    → (r >>= f) ≡ ok b
    → (a : A) × (r ≡ ok a) × (f a ≡ ok b)
and_then-inv r f b h = elim (Result-cases r) [
  | inl (a, p) ↦ (a, p, ground (arith, p, h))
  | inr (e, p) ↦ absurd (ground (arith, p, h))
]

guard-inv : (b : Bool) (e : Error) → guard b e ≡ ok tt → b ≡ true
guard-inv b e h = ground arith

neither : (a b : Bool) → guard (not (a || b)) invalid ≡ ok tt → (a ≡ false) × (b ≡ false)
neither a b h = ground arith

ok_injective : {A : Type 0} (a b : A) → ◌≡◌ {A = Result A} (ok a) (ok b) → a ≡ b
ok_injective a b h = ground (arith, h)

v_param_lem : (o : Option ℕ) (v : ℕ) → v_param o ≡ ok v → (b : ℕ) × (o ≡ some b) × Recovery b v
v_param_lem none v h = absurd (unfold v_param in ground (arith, h))
v_param_lem (some b) v h = (b, refl, v_param-Recovery b v h)

module _ (geth : Geth) where
  abbrev sig_bytes : Bytes → Bytes
  sig_bytes sig_hex = geth.from_hex (map to_lower sig_hex)

  -- A signature of 65 bytes with a known recovery byte, and a second half that is not zero and stands
  -- below the malleability threshold; it is taken apart where its parts end.
  pub record Canonical (sig_hex : Bytes) (x : Signature) : Type 0 where
    pub size : length (sig_bytes sig_hex) ≡ 65
    pub last : ℕ
    pub last_byte : get_elem? (sig_bytes sig_hex) 64 ≡ some last
    pub recovery : Recovery last x.v
    pub r_half : x.r ≡ take 32 (sig_bytes sig_hex)
    pub s_half : x.s ≡ take 32 (drop 32 (sig_bytes sig_hex))
    pub low : str_le malleability_threshold (geth.hash_hex x.s) ≡ false
    pub not_zero : str_eq (geth.hash_hex x.s) zero_s_value ≡ false

  canonical_lem :
      (sig_hex : Bytes) (x : Signature) (v : ℕ)
      → guard (length (sig_bytes sig_hex) == 65) invalid ≡ ok tt
      → v_param (get_elem? (sig_bytes sig_hex) 64) ≡ ok v
      → guard
          (not (
            str_le malleability_threshold (geth.hash_hex (take 32 (drop 32 (sig_bytes sig_hex))))
            || str_eq (geth.hash_hex (take 32 (drop 32 (sig_bytes sig_hex)))) zero_s_value))
          invalid
        ≡ ok tt
      → record { v = v; r = take 32 (sig_bytes sig_hex); s = take 32 (drop 32 (sig_bytes sig_hex)) }
        ≡ x
      → Canonical sig_hex x
  canonical_lem sig_hex x v size param good same =
      let (b, at, recovery) = v_param_lem (get_elem? (sig_bytes sig_hex) 64) v param in
      let (low, not_zero) = neither _ _ good in
      subst (λ y. Canonical sig_hex y) same
        record {
          size = (==_iff (length (sig_bytes sig_hex)) 65).0 (guard-inv _ invalid size);
          last = b;
          last_byte = at;
          recovery = recovery;
          r_half = refl;
          s_half = refl;
          low = low;
          not_zero = not_zero;
        }

  -- For every text, what `SigToVRS` returns without an error is that signature in its canonical form:
  -- 65 bytes, `v` 27 or 28 by the last byte, `r` and `s` the two halves before it, `s` neither zero nor
  -- at or above the malleability threshold, as texts in hex.
  pub sig_to_vrs-Canonical :
      (sig_hex : Bytes) (x : Signature) → sig_to_vrs geth sig_hex ≡ ok x → Canonical sig_hex x
  unfolding sig_to_vrs
  sig_to_vrs-Canonical sig_hex x h =
      let (_, size, h₁) = and_then-inv (guard (length (sig_bytes sig_hex) == 65) invalid) _ x h in
      let (v, param, h₂) = and_then-inv (v_param (get_elem? (sig_bytes sig_hex) 64)) _ x h₁ in
      let (_, good, same) = and_then-inv (guard _ invalid) _ x h₂ in
      canonical_lem sig_hex x v size param good (ok_injective _ x same)
