-- ===== src/P2p/Querier/Powers.antt =====
-- The powers that the querier adds up, by the members that signed.
use orchestrator_relayer.Prelude.{
  ℕ, ◌+◌, ◌%◌, ◌^◌, ◌<◌, ◌≡◌, refl, sym, ◌∙◌, Bool, true, false, ◌||◌, List, [], ◌∷◌, Option, none,
  some, Bytes, map, arith, if◌then◌else◌, Map, lookup, put, str_eq, str_eq→eq, Bool-cases,
  Option-cases, inl, inr,
}
use orchestrator_relayer.Types.Valsets.{BridgeValidator}
use orchestrator_relayer.P2p.Querier.{members_map, current_threshold}

-- `a` is one of the addresses
unfoldable pub among : Bytes → List Bytes → Bool
among a [] = false
among a (b ∷ bs) = str_eq b a || among a bs

unfoldable pub AllDistinct : List Bytes → Type 0
AllDistinct [] = Unit
AllDistinct (b ∷ bs) = (among b bs ≡ false) × AllDistinct bs

-- the powers of the members whose address passes a test, added up
unfoldable pub power_where : (Bytes → Bool) → List BridgeValidator → ℕ
power_where p [] = 0
power_where p (m ∷ ms) = (if p m.evm_address then m.power else 0) + power_where p ms

abbrev pub addresses : List BridgeValidator → List Bytes
addresses = map λ m. m.evm_address

abbrev pub power_in : Option BridgeValidator → ℕ
power_in none = 0
power_in (some m) = m.power

pub power_where_same :
    (p q : Bytes → Bool) (ms : List BridgeValidator)
    → ((a : Bytes) → p a ≡ q a)
    → power_where p ms ≡ power_where q ms
unfolding power_where
power_where_same p q [] h = refl
power_where_same p q (m ∷ ms) h = rw (h m.evm_address, power_where_same p q ms h)

str_eq_sym : (s t : Bytes) → str_eq s t ≡ str_eq t s
unfolding str_eq
str_eq_sym [] [] = refl
str_eq_sym [] (y ∷ ys) = refl
str_eq_sym (x ∷ xs) [] = refl
str_eq_sym (x ∷ xs) (y ∷ ys) = ground (arith, str_eq_sym xs ys)

-- no address outside the list is one of its addresses
not_among :
    (k a : Bytes) (ks : List Bytes) → among k ks ≡ false → str_eq k a ≡ true → among a ks ≡ false
not_among k a ks h e = rw (sym (str_eq→eq k a e)) h

no_power :
    (k : Bytes) (ms : List BridgeValidator)
    → among k (addresses ms) ≡ false
    → power_where (λ a. str_eq a k) ms ≡ 0
unfolding power_where among
no_power k [] h = refl
no_power k (m ∷ ms) h = elim (Bool-cases (str_eq m.evm_address k)) [
  | inl same ↦ absurd (ground (arith, same, h))
  | inr other ↦ ground (arith, other, no_power k ms (ground (arith, other, h)))
]

pub lookup-members_map :
    (k : Bytes) (ms : List BridgeValidator) (vals : Map BridgeValidator)
    → AllDistinct (addresses ms)
    → power_in (lookup k (members_map ms vals)) ≡ (
        if among k (addresses ms)
        then power_where (λ a. str_eq a k) ms
        else power_in (lookup k vals))
unfolding members_map among AllDistinct power_where lookup put
lookup-members_map k [] vals d = refl
lookup-members_map k (m ∷ ms) vals (new, d) =
    lookup-members_map k ms (put m.evm_address m vals) d
    ∙ elim (Bool-cases (str_eq m.evm_address k)) [
      | inl same ↦
          rw (same, not_among m.evm_address k (addresses ms) new same)
            (ground (arith, no_power k ms (not_among m.evm_address k (addresses ms) new same)))
      | inr other ↦ rw other (ground arith)
    ]

power_where-among :
    (k : Bytes) (ks : List Bytes) (ms : List BridgeValidator)
    → among k ks ≡ false
    → power_where (λ a. among a (k ∷ ks)) ms
      ≡ power_where (λ a. str_eq a k) ms + power_where (λ a. among a ks) ms
unfolding power_where among
power_where-among k ks [] new = refl
power_where-among k ks (m ∷ ms) new =
    rw (str_eq_sym m.evm_address k) (elim (Bool-cases (str_eq k m.evm_address)) [
      | inl same ↦
          ground (arith, same, not_among k m.evm_address ks new same, power_where-among k ks ms new)
      | inr other ↦ ground (arith, other, power_where-among k ks ms new)
    ])

no_addresses : (ms : List BridgeValidator) → power_where (λ a. among a []) ms ≡ 0
unfolding power_where among
no_addresses [] = refl
no_addresses (m ∷ ms) = ground (arith, no_addresses ms)

-- the power found under an address in the members' map
found_power :
    (k : Bytes) (ms : List BridgeValidator)
    → AllDistinct (addresses ms)
    → power_in (lookup k (members_map ms [])) ≡ power_where (λ a. str_eq a k) ms
found_power k ms d = lookup-members_map k ms [] d ∙ elim (Bool-cases (among k (addresses ms))) [
  | inl in_set ↦ rw in_set refl
  | inr other ↦ rw (other, no_power k ms other) (unfold lookup in refl)
]

module _ {C : Type 0} (eth_address : C → Bytes) where
  unfoldable pub power_of : Map BridgeValidator → List C → ℕ
  power_of vals [] = 0
  power_of vals (c ∷ cs) = power_in (lookup (eth_address c) vals) + power_of vals cs

  pub current_threshold_power :
      (vals : Map BridgeValidator) (cs : List C) (curr : ℕ)
      → curr < 2 ^ 64
      → current_threshold eth_address vals cs curr ≡ (curr + power_of vals cs) % 2 ^ 64
  unfolding current_threshold power_of
  current_threshold_power vals [] curr small = omega (arith, small)
  current_threshold_power vals (c ∷ cs) curr small =
      elim (Option-cases (lookup (eth_address c) vals)) [
        | inl other ↦ rw other (current_threshold_power vals cs curr small ∙ omega arith)
        | inr (m, member) ↦ rw member (
            current_threshold_power vals cs ((curr + m.power) % 2 ^ 64) (omega arith) ∙ omega arith)
      ]

  pub power_of_members :
      (ms : List BridgeValidator) (cs : List C)
      → AllDistinct (addresses ms)
      → AllDistinct (map eth_address cs)
      → power_of (members_map ms []) cs ≡ power_where (λ a. among a (map eth_address cs)) ms
  unfolding power_of AllDistinct
  power_of_members ms [] d e = sym (no_addresses ms)
  power_of_members ms (c ∷ cs) d (new, e) =
      rw
        (
          found_power (eth_address c) ms d,
          power_of_members ms cs d e,
          power_where-among (eth_address c) (map eth_address cs) ms new,
        )
        refl
