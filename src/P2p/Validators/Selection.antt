-- ===== src/P2p/Validators/Selection.antt =====
-- Which value the validators' `Select` chooses.
use orchestrator_relayer.Prelude.{
  ℕ, zero, suc, ◌+◌, ◌≤◌, ◌<◌, ◌≡◌, refl, List, [], ◌∷◌, some, arith, Bytes, get_elem?, take, All,
  if◌then◌else◌, ltb, str_eq_refl, ◌⊎◌, inl, inr, sym, ◌∙◌, ◌≢◌,
}
use orchestrator_relayer.Effect.{
  Error, no_values, no_valid_value_found, Result, ok, err, Result-cases,
}
use orchestrator_relayer.Types.Confirms.{Codec}
use orchestrator_relayer.Types.Valsets.{LatestValset}
use orchestrator_relayer.P2p.Keys.{get_latest_valset_key}
use orchestrator_relayer.P2p.Validators.{
  first_valid, select_confirm, latest_loop, select_latest_valset,
}

module _ (validate : Bytes → Result (Unit {0})) where
  abbrev pub Refuses : Bytes → Type 0
  Refuses value = (e : Error) × (validate value ≡ err e)

  -- `i` is the place of the first value that passes
  pub record IsFirstValid (values : List Bytes) (i : ℕ) : Type 0 where
    pub value : Bytes
    pub at : get_elem? values i ≡ some value
    pub passes : validate value ≡ ok tt
    pub before : All Refuses (take i values)

  first_valid_pass :
      (value : Bytes) (values : List Bytes) (index : ℕ)
      → validate value ≡ ok tt
      → first_valid validate index (value ∷ values) ≡ ok index
  unfolding first_valid
  first_valid_pass value values index h = ground arith

  first_valid_refuse :
      (value : Bytes) (values : List Bytes) (index : ℕ) (e : Error)
      → validate value ≡ err e
      → first_valid validate index (value ∷ values) ≡ first_valid validate (index + 1) values
  unfolding first_valid
  first_valid_refuse value values index e h = ground arith

  first_valid_sound :
      (values : List Bytes) (index i : ℕ)
      → first_valid validate index values ≡ ok i
      → (j : ℕ) × (i ≡ index + j) × IsFirstValid values j
  first_valid_sound [] index i h = unfold first_valid in cc
  first_valid_sound (value ∷ values) index i h = elim (Result-cases (validate value)) [
    | inl (_, p) ↦
        let e : ok i ≡ ok index = sym h ∙ first_valid_pass value values index p in
        (zero, ground arith, record { value = value; at = refl; passes = p; before = tt })
    | inr (e, p) ↦
        let (j, q, first) =
          first_valid_sound values (index + 1) i
            (sym (first_valid_refuse value values index e p) ∙ h) in
        (
          suc j,
          omega (arith, q),
          record {
            value = first.value;
            at = first.at;
            passes = first.passes;
            before = ((e, p), first.before);
          },
        )
  ]

  first_valid_none :
      (values : List Bytes) (index : ℕ) (e : Error)
      → first_valid validate index values ≡ err e
      → (e ≡ no_valid_value_found) × All Refuses values
  first_valid_none [] index e h = unfold first_valid in (ground arith, tt)
  first_valid_none (value ∷ values) index e h = elim (Result-cases (validate value)) [
    | inl (_, p) ↦ cc (h, first_valid_pass value values index p)
    | inr (x, p) ↦
        let (same, all) =
          first_valid_none values (index + 1) e
            (sym (first_valid_refuse value values index x p) ∙ h) in
        (same, ((x, p), all))
  ]

module _ (validate : Bytes → Bytes → Result (Unit {0})) (key : Bytes) where
  -- What `Select` of the two confirm validators returns, on every branch: the place of the first
  -- value that passes the validator, or an error where there are no values or where each is refused.
  abbrev pub SelectsFirst : List Bytes → Result ℕ → Type 0
  SelectsFirst values (ok i) = IsFirstValid (validate key) values i
  SelectsFirst values (err e) =
      (values ≡ []) × (e ≡ no_values)
      ⊎ (values ≢ []) × (e ≡ no_valid_value_found) × All (Refuses (validate key)) values

  -- For every validator, key and list of values, the confirm validators' `Select` returns the
  -- index of the first value that passes `Validate`; it fails with `ErrNoValues` exactly on the empty
  -- list, and with `ErrNoValidValueFound` only where every value is refused.
  pub select_confirm-SelectsFirst :
      (values : List Bytes) → SelectsFirst values (select_confirm validate key values)
  unfolding select_confirm
  select_confirm-SelectsFirst [] = inl (refl, refl)
  select_confirm-SelectsFirst (value ∷ values) =
      go (select_confirm validate key (value ∷ values)) refl
    where
      go :
          (r : Result ℕ)
          → select_confirm validate key (value ∷ values) ≡ r
          → SelectsFirst (value ∷ values) r
      go (ok i) h =
          let (j, q, first) = first_valid_sound (validate key) (value ∷ values) 0 i h in
          let same : i ≡ j = omega (arith, q) in rw same first
      go (err e) h =
          let (same, all) = first_valid_none (validate key) (value ∷ values) 0 e h in
          inr (λ p. cc p, same, all)

module _ (codec : Codec LatestValset) where
  -- the values decode to these valsets, in order
  abbrev pub Decodes : List Bytes → List LatestValset → Type 0
  Decodes [] [] = Unit
  Decodes [] (v ∷ vs) = ⊥
  Decodes (b ∷ bs) [] = ⊥
  Decodes (b ∷ bs) (v ∷ vs) = (codec.unmarshal b ≡ ok v) × Decodes bs vs

  latest_loop_step :
      (n l i : ℕ) (b : Bytes) (bs : List Bytes) (v : LatestValset)
      → codec.unmarshal b ≡ ok v
      → latest_loop codec n l i (b ∷ bs)
        ≡ latest_loop codec v.nonce (if ltb n v.nonce then i else l) (i + 1) bs
  unfolding latest_loop
  latest_loop_step n l i b bs v h = ground arith

  -- The place that the loop keeps: that of the last valset whose nonce is above the one before it.
  abbrev pub last_rise : ℕ → ℕ → ℕ → List LatestValset → ℕ
  last_rise n l i [] = l
  last_rise n l i (v ∷ vs) = last_rise v.nonce (if ltb n v.nonce then i else l) (i + 1) vs

  latest_loop-last_rise :
      (n l i : ℕ) (bs : List Bytes) (vs : List LatestValset)
      → Decodes bs vs
      → latest_loop codec n l i bs ≡ ok (last_rise n l i vs)
  latest_loop-last_rise n l i [] [] d = unfold latest_loop in refl
  latest_loop-last_rise n l i [] (v ∷ vs) d = absurd d
  latest_loop-last_rise n l i (b ∷ bs) [] d = absurd d
  latest_loop-last_rise n l i (b ∷ bs) (v ∷ vs) (e, d) =
      latest_loop_step n l i b bs v e
      ∙ latest_loop-last_rise v.nonce (if ltb n v.nonce then i else l) (i + 1) bs vs d

  -- the valset at `i` carries the highest nonce
  pub record IsLatest (vs : List LatestValset) (i : ℕ) : Type 0 where
    pub latest : LatestValset
    pub at : get_elem? vs i ≡ some latest
    pub highest : All (λ v. v.nonce ≤ latest.nonce) vs

  -- For any three values that decode, with the nonces such that the second is below the third and
  -- the third below the first, `Select` returns the third, which does not carry the highest nonce.
  pub select_latest_valset_misses-IsLatest :
      (a b c : Bytes) (x y z : LatestValset)
      → Decodes (a ∷ b ∷ c ∷ []) (x ∷ y ∷ z ∷ [])
      → y.nonce < z.nonce
      → z.nonce < x.nonce
      → (select_latest_valset codec get_latest_valset_key (a ∷ b ∷ c ∷ []) ≡ ok 2)
        × ¬ IsLatest (x ∷ y ∷ z ∷ []) 2
  unfolding select_latest_valset
  select_latest_valset_misses-IsLatest a b c x y z d low high = (
    rw (str_eq_refl get_latest_valset_key)
        (latest_loop-last_rise 0 0 0 (a ∷ b ∷ c ∷ []) (x ∷ y ∷ z ∷ []) d ∙ ground arith),
    λ h. ground (arith, h.at, h.highest.0),
  )
