-- ===== src/Cmd/Query/Range.antt =====
-- The numbers that `signers range` prints.
use mathlib.Core.Path.{subst₂}
use orchestrator_relayer.Prelude.{
  ℕ, zero, suc, ◌-◌, ◌+◌, ◌%◌, ◌^◌, ◌<◌, ◌≡◌, refl, sym, ap, ◌∙◌, ◌&&◌, ◌||◌, Bool, true, false,
  List, [], ◌∷◌, ◌++◌, Option, none, some, Bytes, codes, arith, length, str_eq, str_eq→eq,
  if◌then◌else◌, Bool-cases, inl, inr,
}
use orchestrator_relayer.Effect.{
  Result, ok, World, pure, lift, ◌>>=◌, ◌>>◌, bind-inv, outcome-cases, Result-cases,
}
use orchestrator_relayer.Cmd.QueryOutput.{ValidatorInfo, Signature, QueryOutput}
use orchestrator_relayer.Cmd.Query.{
  validate_range, same_validator, SignersMap, signatures_of, or_zero, signer_of, count_signature,
  count_signatures, count_outputs, Queriers, parse_nonce, get_signatures, get_range, signers_in,
  signers_range,
}

-- all the entries of the outputs
pub all_signatures : List QueryOutput → List Signature
all_signatures [] = []
all_signatures (o ∷ outputs) = o.signatures ++ all_signatures outputs

-- whether a validator has an entry, and in how many entries it has signed
unfoldable pub occurs : ValidatorInfo → List Signature → Bool
occurs i [] = false
occurs i (sig ∷ sigs) = same_validator (signer_of sig) i || occurs i sigs

unfoldable pub times_signed : ValidatorInfo → List Signature → ℕ
times_signed i [] = 0
times_signed i (sig ∷ sigs) =
    (if same_validator (signer_of sig) i && sig.signed then 1 else 0) + times_signed i sigs

abbrev is_some {ℓ} : {A : Type ℓ} → Option A → Bool
is_some none = false
is_some (some _) = true

same_validator→eq : (i j : ValidatorInfo) → same_validator i j ≡ true → i ≡ j
unfolding same_validator
same_validator→eq i j h =
    let a : i.evm_address ≡ j.evm_address = str_eq→eq _ _ (ground (arith, h)) in
    let b : i.moniker ≡ j.moniker = str_eq→eq _ _ (ground (arith, h)) in
    let c : i.valop_address ≡ j.valop_address = str_eq→eq _ _ (ground (arith, h)) in cc (a, b, c)

-- what the map has for a validator, after the entries are counted
abbrev counted : ValidatorInfo → List Signature → Option ℕ → Option ℕ
counted i sigs before =
    if occurs i sigs || is_some before
    then some ((or_zero before + times_signed i sigs) % 2 ^ 64)
    else none

signatures_of-count_signature :
    (i : ValidatorInfo) (sig : Signature) (m : SignersMap)
    → signatures_of i (count_signature sig m) ≡ (
        if same_validator (signer_of sig) i
        then some (
            if sig.signed
            then (or_zero (signatures_of i m) + 1) % 2 ^ 64
            else or_zero (signatures_of i m))
        else signatures_of i m)
unfolding signatures_of count_signature
signatures_of-count_signature i sig m = elim (Bool-cases (same_validator (signer_of sig) i)) [
  | inl same ↦ rw (same_validator→eq _ _ same) refl
  | inr other ↦ rw other refl
]

-- the number of a validator after an entry, which is its own or another's
abbrev after_entry : Bool → Bool → Option ℕ → Option ℕ
after_entry same signed before =
    if same then some (if signed then (or_zero before + 1) % 2 ^ 64 else or_zero before) else before

after_entry_small :
    (same signed : Bool) (before : Option ℕ)
    → or_zero before < 2 ^ 64
    → or_zero (after_entry same signed before) < 2 ^ 64
unfolding or_zero
after_entry_small true true before small = omega arith
after_entry_small true false before small = small
after_entry_small false signed before small = small

after_entry_counted :
    (same signed occurs_later : Bool) (before : Option ℕ) (t : ℕ)
    → or_zero before < 2 ^ 64
    → (if occurs_later || is_some (after_entry same signed before)
        then some ((or_zero (after_entry same signed before) + t) % 2 ^ 64)
        else none)
      ≡ (if (same || occurs_later) || is_some before
          then some ((or_zero before + ((if same && signed then 1 else 0) + t)) % 2 ^ 64)
          else none)
unfolding or_zero
after_entry_counted true true occurs_later before t small = ground arith
after_entry_counted true false occurs_later before t small = ground arith
after_entry_counted false signed occurs_later before t small = ground arith

counted_none :
    (i : ValidatorInfo) (before : Option ℕ) → or_zero before < 2 ^ 64 → before ≡ counted i [] before
unfolding or_zero occurs times_signed
counted_none i none small = refl
counted_none i (some n) small = ap some (omega (arith, small))

signatures_of-count_signatures :
    (i : ValidatorInfo) (sigs : List Signature) (m : SignersMap)
    → or_zero (signatures_of i m) < 2 ^ 64
    → signatures_of i (count_signatures sigs m) ≡ counted i sigs (signatures_of i m)
unfolding count_signatures occurs times_signed
signatures_of-count_signatures i [] m small = counted_none i (signatures_of i m) small
signatures_of-count_signatures i (sig ∷ sigs) m small =
    let step = signatures_of-count_signature i sig m in
    signatures_of-count_signatures i sigs (count_signature sig m) (
      rw step
        (after_entry_small (same_validator (signer_of sig) i) sig.signed (signatures_of i m) small))
    ∙ rw step (
        after_entry_counted (same_validator (signer_of sig) i) sig.signed (occurs i sigs)
          (signatures_of i m) (times_signed i sigs) small)

count_signatures-append :
    (sigs more : List Signature) (m : SignersMap)
    → count_signatures (sigs ++ more) m ≡ count_signatures more (count_signatures sigs m)
unfolding count_signatures
count_signatures-append [] more m = refl
count_signatures-append (sig ∷ sigs) more m =
    count_signatures-append sigs more (count_signature sig m)

count_outputs-all_signatures :
    (outputs : List QueryOutput) (m : SignersMap)
    → count_outputs outputs m ≡ count_signatures (all_signatures outputs) m
unfolding count_outputs all_signatures
count_outputs-all_signatures [] m = unfold count_signatures in refl
count_outputs-all_signatures (o ∷ outputs) m =
    count_outputs-all_signatures outputs (count_signatures o.signatures m)
    ∙ sym (count_signatures-append o.signatures (all_signatures outputs) m)

signatures_of-count_outputs :
    (i : ValidatorInfo) (outputs : List QueryOutput)
    → signatures_of i (count_outputs outputs []) ≡ (
        if occurs i (all_signatures outputs)
        then some (times_signed i (all_signatures outputs) % 2 ^ 64)
        else none)
unfolding signatures_of or_zero
signatures_of-count_outputs i outputs =
    rw (count_outputs-all_signatures outputs [])
      (signatures_of-count_signatures i (all_signatures outputs) [] (omega arith) ∙ ground arith)

module _ {W : Type 0} (queriers : Queriers W) where
  -- The outputs of `getSignatures` at the nonces from one on, in order.
  pub data Gathers : ℕ → World W → List QueryOutput → World W → Type 0 where
    no_more : {nonce : ℕ} {s : World W} → Gathers nonce s [] s
    next :
        {nonce : ℕ} {s s' : World W} {outputs : List QueryOutput} (o : QueryOutput) (t : World W)
        → get_signatures queriers nonce s ≡ (ok o, t)
        → Gathers (nonce + 1) t outputs s'
        → Gathers nonce s (o ∷ outputs) s'

  moved_range :
      (count nonce : ℕ) (s : World W) (xs : List QueryOutput) (u : World W)
      → (outputs : List QueryOutput) (s' : World W)
      → ◌≡◌ {A = Result (List QueryOutput) × World W} (ok xs, u) (ok outputs, s')
      → (length xs ≡ count) × Gathers nonce s xs u
      → (length outputs ≡ count) × Gathers nonce s outputs s'
  moved_range count nonce s xs u outputs s' e g =
      subst₂ (λ ys v. (length ys ≡ count) × Gathers nonce s ys v) (ground (arith, e))
        (ap (λ p. p.1) e) g

  get_range-Gathers :
      (count nonce : ℕ) (s s' : World W) (outputs : List QueryOutput)
      → get_range queriers count nonce s ≡ (ok outputs, s')
      → (length outputs ≡ count) × Gathers nonce s outputs s'
  unfolding get_range
  get_range-Gathers zero nonce s s' outputs h =
      moved_range zero nonce s [] s outputs s' h (refl, no_more)
  get_range-Gathers (suc count) nonce s s' outputs h =
      let (o, t, first, rest) =
        bind-inv (get_signatures queriers nonce)
          (λ o. do outputs ← get_range queriers count (nonce + 1); pure (o ∷ outputs)) s s' outputs
          h in
      let (os, u, later, e) =
        bind-inv (get_range queriers count (nonce + 1)) (λ os. pure (o ∷ os)) t s' outputs rest in
      let (n, g) = get_range-Gathers count (nonce + 1) t u os later in
      moved_range (suc count) nonce s (o ∷ os) u outputs s' e (ap suc n, next o t first g)

  validate_range-ok :
      (start end : ℕ) → validate_range start end ≡ ok tt → (0 < start) × (start < end)
  unfolding validate_range
  validate_range-ok start end h = ground arith

  checked_range :
      (first last : ℕ) (u s' : World W) (m : SignersMap)
      → (lift (validate_range first last) >> signers_in queriers first last) u ≡ (ok m, s')
      → (0 < first) × (first < last) × (signers_in queriers first last u ≡ (ok m, s'))
  checked_range first last u s' m h = elim (Result-cases (validate_range first last)) [
    | inl (_, valid) ↦
        let (positive, below) = validate_range-ok first last valid in
        (positive, below, ground (arith, valid, h))
    | inr (e, refused) ↦ absurd (ground (arith, refused, h))
  ]

  signers_in-outputs :
      (first last : ℕ) (u s' : World W) (m : SignersMap)
      → signers_in queriers first last u ≡ (ok m, s')
      → (outputs : List QueryOutput) × (get_range queriers (last - first) first u
          ≡ (ok outputs, s'))
        × (m ≡ count_outputs outputs [])
  unfolding signers_in
  signers_in-outputs first last u s' m h =
      elim (outcome-cases (get_range queriers (last - first) first u)) [
        | inl (outputs, w, o) ↦ (outputs, ground (arith, o, h), ground (arith, o, h))
        | inr (e, w, o) ↦ absurd (ground (arith, o, h))
      ]

  -- What `signers range` did: the arguments' nonces, of which the first is no `latest`, and the outputs at
  -- all nonces from the first up to, but not including, the second.
  pub record Ranged (start end : Bytes) (s : World W) (m : SignersMap) (s' : World W) : Type 0 where
    pub first : ℕ
    pub last : ℕ
    pub t : World W
    pub u : World W
    pub outputs : List QueryOutput
    pub not_latest : str_eq start (codes "latest") ≡ false
    pub first_parsed : parse_nonce queriers start s ≡ (ok first, t)
    pub last_parsed : parse_nonce queriers end t ≡ (ok last, u)
    pub from_1 : 0 < first
    pub in_order : first < last
    pub all_nonces : first + length outputs ≡ last
    pub gathered : Gathers first u outputs s'
    pub counts :
        (i : ValidatorInfo)
        → signatures_of i m ≡ (
            if occurs i (all_signatures outputs)
            then some (times_signed i (all_signatures outputs) % 2 ^ 64)
            else none)

  -- When `signers range` succeeds, its first argument is not `latest`, both arguments give nonces, of
  -- which the first is positive and below the second, and the signatures were queried at every nonce from the
  -- first on, without the second. A validator is in the result exactly when it has an entry in one of the
  -- outputs, with the number of entries in which it has signed, in 64 bits.
  pub signers_range-Ranged :
      (start end : Bytes) (s s' : World W) (m : SignersMap)
      → signers_range queriers start end s ≡ (ok m, s')
      → Ranged start end s m s'
  unfolding signers_range
  signers_range-Ranged start end s s' m h = elim (Bool-cases (str_eq start (codes "latest"))) [
    | inl latest ↦ absurd (ground (arith, latest, h))
    | inr not_latest ↦ ranged not_latest
  ]
    where
      ranged : str_eq start (codes "latest") ≡ false → Ranged start end s m s'
      ranged not_latest =
          let (first, t, p, h1) =
            bind-inv (parse_nonce queriers start)
              (λ first. do
                last ← parse_nonce queriers end
                lift (validate_range first last)
                signers_in queriers first last)
              s s' m (ground (arith, not_latest, h)) in
          let (last, u, q, h2) =
            bind-inv (parse_nonce queriers end)
              (λ last. do lift (validate_range first last); signers_in queriers first last) t s' m
              h1 in
          let (positive, below, h3) = checked_range first last u s' m h2 in
          let (outputs, o, e) = signers_in-outputs first last u s' m h3 in
          let (n, g) = get_range-Gathers (last - first) first u s' outputs o in
          record {
            first = first;
            last = last;
            t = t;
            u = u;
            outputs = outputs;
            not_latest = not_latest;
            first_parsed = p;
            last_parsed = q;
            from_1 = positive;
            in_order = below;
            all_nonces = omega (arith, n, below);
            gathered = g;
            counts = λ i. ap (λ n. signatures_of i n) e ∙ signatures_of-count_outputs i outputs;
          }
