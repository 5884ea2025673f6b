-- ===== src/Types/Valsets/Agrees.antt =====
-- When `IsValsetEqualToLatestValset` says yes.
use orchestrator_relayer.Prelude.{
  ◌≡◌, refl, sym, ap, ◌∙◌, ◌↔◌, inl, inr, Bool, true, false, not, List, [], ◌∷◌, ◌++◌, ◌||◌, Option,
  none, some, arith, str_eq, str_eq→eq, str_eq_refl, ◌==◌, ==_iff, if◌then◌else◌, Bool-cases,
}
use orchestrator_relayer.Types.Valsets.{
  BridgeValidator, Valset, LatestValset, members_equal, then_nonce_and_height,
  is_valset_equal_to_latest_valset,
}

-- the members of the first list, in order, begin the second one
abbrev pub Prefix : List BridgeValidator → List BridgeValidator → Type 0
Prefix vs ls = (rest : List BridgeValidator) × (ls ≡ vs ++ rest)

same_member : BridgeValidator → BridgeValidator → Bool
same_member v l = not (not (str_eq v.evm_address l.evm_address) || not (v.power == l.power))

both_true : (a b : Bool) → not (not a || not b) ≡ true → (a ≡ true) × (b ≡ true)
both_true a b h = ground arith

same_fields : (v l : BridgeValidator) → v.evm_address ≡ l.evm_address → v.power ≡ l.power → l ≡ v
same_fields v l p q i = record { power = sym q i; evm_address = sym p i }

same_member→eq : (v l : BridgeValidator) → same_member v l ≡ true → l ≡ v
unfolding same_member
same_member→eq v l h =
    let (p, q) = both_true (str_eq v.evm_address l.evm_address) (v.power == l.power) h in
    same_fields v l (str_eq→eq v.evm_address l.evm_address p) ((==_iff v.power l.power).0 q)

same_member_refl : (v : BridgeValidator) → same_member v v ≡ true
unfolding same_member
same_member_refl v = rw (str_eq_refl v.evm_address, (==_iff v.power v.power).1 refl) refl

members_equal-cons :
    (v l : BridgeValidator) (vs ls : List BridgeValidator)
    → members_equal (v ∷ vs) (l ∷ ls)
      ≡ (if same_member v l then members_equal vs ls else some false)
unfolding members_equal same_member
members_equal-cons v l vs ls = ground arith

members_equal→Prefix :
    (vs ls : List BridgeValidator) → members_equal vs ls ≡ some true → Prefix vs ls
members_equal→Prefix [] ls h = (ls, refl)
members_equal→Prefix (v ∷ vs) [] h = absurd (unfold members_equal in ground (arith, h))
members_equal→Prefix (v ∷ vs) (l ∷ ls) h = elim (Bool-cases (same_member v l)) [
  | inr p ↦ absurd (ground (arith, p, sym (members_equal-cons v l vs ls) ∙ h))
  | inl p ↦
      let (rest, q) =
        members_equal→Prefix vs ls (ground (arith, p, sym (members_equal-cons v l vs ls) ∙ h)) in
      (rest, rw (same_member→eq v l p, q) refl)
]

Prefix→members_equal : (vs rest : List BridgeValidator) → members_equal vs (vs ++ rest) ≡ some true
Prefix→members_equal [] rest = unfold members_equal in refl
Prefix→members_equal (v ∷ vs) rest =
    members_equal-cons v v vs (vs ++ rest) ∙ rw (same_member_refl v) (Prefix→members_equal vs rest)

conclude :
    (vs : Valset) (lvs : LatestValset) (o : Option Bool)
    → (then_nonce_and_height vs lvs o ≡ some true)
      ↔ ((o ≡ some true) × (vs.nonce ≡ lvs.nonce) × (vs.height ≡ lvs.height))
unfolding then_nonce_and_height
conclude vs lvs none = ground arith
conclude vs lvs (some false) = ground arith
conclude vs lvs (some true) = ground arith

-- `IsValsetEqualToLatestValset` says yes exactly where the nonces and the heights are the same and the
-- valset's members, in order, begin the members of the latest valset, which may have more of them.
pub is_valset_equal_to_latest_valset-Prefix :
    (vs : Valset) (lvs : LatestValset)
    → (is_valset_equal_to_latest_valset vs lvs ≡ some true)
      ↔ (Prefix vs.members lvs.members × (vs.nonce ≡ lvs.nonce) × (vs.height ≡ lvs.height))
unfolding is_valset_equal_to_latest_valset
is_valset_equal_to_latest_valset-Prefix vs lvs = (
  λ h.
      let (p, nonce, height) = (conclude vs lvs (members_equal vs.members lvs.members)).0 h in
      (members_equal→Prefix vs.members lvs.members p, nonce, height),
  λ h. (conclude vs lvs (members_equal vs.members lvs.members)).1 (
    ap (λ ls. members_equal vs.members ls) h.0.1 ∙ Prefix→members_equal vs.members h.0.0,
    h.1,
    h.2,
  ),
)
