-- ===== src/Std/Strings.antt =====
-- `strings.Split` and `strings.Join` at a separator of one byte, `strings.ToLower`,
-- `strings.ToUpper` and `strings.EqualFold` over ASCII text. A Unicode letter that folds to an ASCII one folds to `k` or
-- `s`, which no address holds, so against a hexadecimal address this is Go's `EqualFold`.
use mathlib.Core.Path.{ap₂}
use orchestrator_relayer.Prelude.{
  ℕ, ◌+◌, ◌-◌, ◌≡◌, refl, ap, Bool, true, false, List, [], ◌∷◌, ◌++◌, ◌&&◌, map, arith, Bytes, leb,
  ◌==◌, if◌then◌else◌, str_eq, Lacks, Bool-cases, inl, inr, str_eq_refl, ==_iff, ◌∙◌, sym,
}

-- one more byte in the first part
attach : ℕ → List Bytes → List Bytes
attach c [] = (c ∷ []) ∷ []
attach c (p ∷ ps) = (c ∷ p) ∷ ps

unfoldable pub split : ℕ → Bytes → List Bytes
unfolding attach
split sep [] = [] ∷ []
split sep (c ∷ s) = let parts = split sep s in if c == sep then [] ∷ parts else attach c parts

unfoldable pub join : ℕ → List Bytes → Bytes
join sep [] = []
join sep (p ∷ []) = p
join sep (p ∷ q ∷ ps) = p ++ (sep ∷ join sep (q ∷ ps))

unfoldable pub to_lower : ℕ → ℕ
to_lower c = if leb b'A' c && leb c b'Z' then c + 32 else c

unfoldable pub to_upper : ℕ → ℕ
to_upper c = if leb b'a' c && leb c b'z' then c - 32 else c

-- `strings.HasPrefix`
unfoldable pub has_prefix : Bytes → Bytes → Bool
has_prefix s [] = true
has_prefix [] (b ∷ prefix) = false
has_prefix (a ∷ s) (b ∷ prefix) = a == b && has_prefix s prefix

unfoldable pub equal_fold : Bytes → Bytes → Bool
unfolding to_lower
equal_fold s t = str_eq (map to_lower s) (map to_lower t)

pub equal_fold_refl : (s : Bytes) → equal_fold s s ≡ true
unfolding equal_fold
equal_fold_refl s = str_eq_refl (map to_lower s)

-- a part without the separator is split off whole
pub split_at_sep :
    (sep : ℕ) (p s : Bytes) → Lacks sep p → split sep (p ++ (sep ∷ s)) ≡ p ∷ split sep s
unfolding split
split_at_sep sep [] s h = ground arith
split_at_sep sep (c ∷ p) s h = ground (arith, split_at_sep sep p s)

pub split_no_sep : (sep : ℕ) (p : Bytes) → Lacks sep p → split sep p ≡ p ∷ []
unfolding split
split_no_sep sep [] h = refl
split_no_sep sep (c ∷ p) h = ground (arith, split_no_sep sep p)

split_step :
    (sep c : ℕ) (s : Bytes)
    → split sep (c ∷ s) ≡ (if c == sep then [] ∷ split sep s else attach c (split sep s))
unfolding split
split_step sep c s = refl

split-cons : (sep : ℕ) (s : Bytes) → (p : Bytes) × (ps : List Bytes) × (split sep s ≡ p ∷ ps)
unfolding split
split-cons sep [] = ([], [], refl)
split-cons sep (c ∷ s) =
    let (p, ps, e) = split-cons sep s in
    elim (Bool-cases (c == sep)) [
      | inl at ↦ ([], split sep s, rw at)
      | inr off ↦ (c ∷ p, ps, rw off (rw e))
    ]

join-attach :
    (sep c : ℕ) (p : Bytes) (ps : List Bytes) → join sep (attach c (p ∷ ps)) ≡ c ∷ join sep (p ∷ ps)
unfolding join attach
join-attach sep c p [] = refl
join-attach sep c p (q ∷ ps) = refl

-- Joining the parts gives the text back.
pub join-split : (sep : ℕ) (s : Bytes) → join sep (split sep s) ≡ s
unfolding join
join-split sep [] = unfold join split in refl
join-split sep (c ∷ s) =
    let (p, ps, e) = split-cons sep s in
    let ih : join sep (p ∷ ps) ≡ s = rw e at (join-split sep s) in
    elim (Bool-cases (c == sep)) [
      | inl at ↦
          rw (split_step sep c s, at, e, join) (ap₂ (λ b t. b ∷ t) (sym ((==_iff c sep).0 at)) ih)
      | inr off ↦ rw (split_step sep c s, off, e) (join-attach sep c p ps ∙ ap (λ t. c ∷ t) ih)
    ]
