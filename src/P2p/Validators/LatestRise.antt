-- ===== src/P2p/Validators/LatestRise.antt =====
-- Which value the latest valset validator's `Select` chooses, and when it fails.
use mathlib.Core.Path.{subst}
use orchestrator_relayer.Prelude.{
  ℕ, suc, ◌+◌, ◌≤◌, ◌<◌, ◌≡◌, ◌≢◌, refl, sym, ap, ◌⊎◌, inl, inr, true, false, List, [], ◌∷◌, ◌++◌,
  arith, Bytes, length, if◌then◌else◌, ltb, ltb→lt, str_eq, str_eq→eq, str_eq_refl, Bool-cases,
}
use orchestrator_relayer.Effect.{
  Error, invalid_latest_valset_key, no_values, Result, ok, err, Result-cases,
}
use orchestrator_relayer.Types.Confirms.{Codec}
use orchestrator_relayer.Types.Valsets.{LatestValset}
use orchestrator_relayer.P2p.Keys.{get_latest_valset_key}
use orchestrator_relayer.P2p.Validators.{latest_loop, select_latest_valset}
use orchestrator_relayer.P2p.Validators.Selection.{Decodes}

-- the nonce of the last valset of a list, `n` for the empty one
abbrev pub last_nonce : ℕ → List LatestValset → ℕ
last_nonce n [] = n
last_nonce n (v ∷ vs) = last_nonce v.nonce vs

-- no nonce is above the one before it, which is `n` for the first
abbrev pub NeverRises : ℕ → List LatestValset → Type 0
NeverRises n [] = Unit
NeverRises n (v ∷ vs) = (v.nonce ≤ n) × NeverRises v.nonce vs

-- `i` is the place of the last valset whose nonce is above the one before it
pub record IsLastRise (n : ℕ) (vs : List LatestValset) (i : ℕ) : Type 0 where
  pub before : List LatestValset
  pub chosen : LatestValset
  pub after : List LatestValset
  pub split : vs ≡ before ++ chosen ∷ after
  pub place : i ≡ length before
  pub rises : last_nonce n before < chosen.nonce
  pub never_after : NeverRises chosen.nonce after

module _ (codec : Codec LatestValset) where
  -- a value does not decode, with this error, and those before it do
  abbrev pub FailsWith : Error → List Bytes → Type 0
  FailsWith e [] = ⊥
  FailsWith e (b ∷ bs) =
      (codec.unmarshal b ≡ err e)
      ⊎ ((v : LatestValset) × (codec.unmarshal b ≡ ok v)) × FailsWith e bs

  -- What `Select` returns, on every branch.
  abbrev pub Selected : Bytes → List Bytes → Result ℕ → Type 0
  Selected key values (ok i) =
      (key ≡ get_latest_valset_key)
      × (values ≢ [])
      × ((vs : List LatestValset) × Decodes codec values vs
          × (IsLastRise 0 vs i ⊎ NeverRises 0 vs × (i ≡ 0)))
  Selected key values (err e) =
      (key ≢ get_latest_valset_key) × (e ≡ invalid_latest_valset_key)
      ⊎ (key ≡ get_latest_valset_key) × (values ≡ []) × (e ≡ no_values)
      ⊎ (key ≡ get_latest_valset_key) × FailsWith e values

  -- how the loop ends, from the nonce `n`, the index kept `l` and the place `i`
  abbrev Looped : ℕ → ℕ → ℕ → List Bytes → Result ℕ → Type 0
  Looped n l i values (ok j) =
      (vs : List LatestValset) × Decodes codec values vs
      × (((k : ℕ) × (j ≡ i + k) × IsLastRise n vs k) ⊎ NeverRises n vs × (j ≡ l))
  Looped n l i values (err e) = FailsWith e values

  step_failed :
      (n l i : ℕ) (b : Bytes) (bs : List Bytes) (e : Error)
      → codec.unmarshal b ≡ err e
      → latest_loop codec n l i (b ∷ bs) ≡ err e
  unfolding latest_loop
  step_failed n l i b bs e h = ground (arith, h)

  step_decoded :
      (n l i : ℕ) (b : Bytes) (bs : List Bytes) (v : LatestValset)
      → codec.unmarshal b ≡ ok v
      → latest_loop codec n l i (b ∷ bs)
        ≡ latest_loop codec v.nonce (if ltb n v.nonce then i else l) (i + 1) bs
  unfolding latest_loop
  step_decoded n l i b bs v h = ground (arith, h)

  rises_later :
      (n k : ℕ) (v : LatestValset) (vs : List LatestValset)
      → IsLastRise v.nonce vs k
      → IsLastRise n (v ∷ vs) (suc k)
  rises_later n k v vs r = record {
    before = v ∷ r.before;
    chosen = r.chosen;
    after = r.after;
    split = ap (λ x. v ∷ x) r.split;
    place = ap suc r.place;
    rises = r.rises;
    never_after = r.never_after;
  }

  rises_now :
      (n : ℕ) (v : LatestValset) (vs : List LatestValset)
      → n < v.nonce
      → NeverRises v.nonce vs
      → IsLastRise n (v ∷ vs) 0
  rises_now n v vs h never = record {
    before = [];
    chosen = v;
    after = vs;
    split = refl;
    place = refl;
    rises = h;
    never_after = never;
  }

  Looped-onward :
      (n l i : ℕ) (b : Bytes) (bs : List Bytes) (v : LatestValset) (r : Result ℕ)
      → codec.unmarshal b ≡ ok v
      → Looped v.nonce (if ltb n v.nonce then i else l) (i + 1) bs r
      → Looped n l i (b ∷ bs) r
  Looped-onward n l i b bs v (err e) h fails = inr ((v, h), fails)
  Looped-onward n l i b bs v (ok j) h (vs, d, inl (k, p, r)) =
      (v ∷ vs, (h, d), inl (suc k, omega (arith, p), rises_later n k v vs r))
  Looped-onward n l i b bs v (ok j) h (vs, d, inr (never, p)) = elim (Bool-cases (ltb n v.nonce)) [
    | inl up ↦ (
      v ∷ vs,
      (h, d),
      inl (0, ground (arith, p, up), rises_now n v vs (ltb→lt n v.nonce up) never),
    )
    | inr down ↦ (v ∷ vs, (h, d), inr ((ground (arith, down), never), ground (arith, p, down)))
  ]

  latest_loop-Looped :
      (n l i : ℕ) (values : List Bytes) → Looped n l i values (latest_loop codec n l i values)
  latest_loop-Looped n l i [] = unfold latest_loop in ([], tt, inr (tt, refl))
  latest_loop-Looped n l i (b ∷ bs) = elim (Result-cases (codec.unmarshal b)) [
    | inl (v, p) ↦
        let rest = latest_loop-Looped v.nonce (if ltb n v.nonce then i else l) (i + 1) bs in
        subst (Looped n l i (b ∷ bs)) (sym (step_decoded n l i b bs v p)) (
          Looped-onward n l i b bs v
            (latest_loop codec v.nonce (if ltb n v.nonce then i else l) (i + 1) bs) p rest)
    | inr (e, p) ↦ subst (Looped n l i (b ∷ bs)) (sym (step_failed n l i b bs e p)) (inl p)
  ]

  start : (k j : ℕ) → j ≡ 0 + k → k ≡ j
  start k j p = omega (arith, p)

  Looped-Selected :
      (key b : Bytes) (bs : List Bytes) (r : Result ℕ)
      → key ≡ get_latest_valset_key
      → Looped 0 0 0 (b ∷ bs) r
      → Selected key (b ∷ bs) r
  Looped-Selected key b bs (err e) same fails = inr (inr (same, fails))
  Looped-Selected key b bs (ok j) same (vs, d, inl (k, p, rise)) =
      (same, λ q. cc q, (vs, d, inl (subst (IsLastRise 0 vs) (start k j p) rise)))
  Looped-Selected key b bs (ok j) same (vs, d, inr never) = (same, λ q. cc q, (vs, d, inr never))

  other_key :
      (key : Bytes) (values : List Bytes)
      → str_eq key get_latest_valset_key ≡ false
      → select_latest_valset codec key values ≡ err invalid_latest_valset_key
  unfolding select_latest_valset
  other_key key [] h = rw h refl
  other_key key (b ∷ bs) h = rw h refl

  right_key :
      (key b : Bytes) (bs : List Bytes)
      → str_eq key get_latest_valset_key ≡ true
      → select_latest_valset codec key (b ∷ bs) ≡ latest_loop codec 0 0 0 (b ∷ bs)
  unfolding select_latest_valset
  right_key key b bs h = rw h refl

  right_key_empty :
      (key : Bytes)
      → str_eq key get_latest_valset_key ≡ true
      → select_latest_valset codec key [] ≡ err no_values
  unfolding select_latest_valset
  right_key_empty key h = rw h refl

  -- For every key and list of values: where the key is the latest valset's and the values, one at least,
  -- decode, `Select` returns the place of the last valset whose nonce is above that of the one before
  -- it, the first valset's above 0, and 0 where there is none; else it fails, with
  -- `ErrInvalidLatestValsetKey` for another key, with `ErrNoValues` for no values, and otherwise with the
  -- error of the first value that does not decode.
  pub select_latest_valset-Selected :
      (key : Bytes) (values : List Bytes)
      → Selected key values (select_latest_valset codec key values)
  select_latest_valset-Selected key values = elim (Bool-cases (str_eq key get_latest_valset_key)) [
    | inr other ↦ subst (Selected key values) (sym (other_key key values other)) (
        inl (
          λ q. cc (
            other,
            ap (λ k. str_eq k get_latest_valset_key) q,
            str_eq_refl get_latest_valset_key,
          ),
          refl,
        ))
    | inl same ↦ with_key values (str_eq→eq key get_latest_valset_key same) same
  ]
    where
      with_key :
          (xs : List Bytes)
          → key ≡ get_latest_valset_key
          → str_eq key get_latest_valset_key ≡ true
          → Selected key xs (select_latest_valset codec key xs)
      with_key [] same p =
          subst (Selected key []) (sym (right_key_empty key p)) (inr (inl (same, refl, refl)))
      with_key (b ∷ bs) same p = subst (Selected key (b ∷ bs)) (sym (right_key key b bs p)) (
          Looped-Selected key b bs (latest_loop codec 0 0 0 (b ∷ bs)) same
            (latest_loop-Looped 0 0 0 (b ∷ bs)))
