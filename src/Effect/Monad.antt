-- ===== src/Effect/Monad.antt =====
-- Results, and the actions that pass the world on.
use orchestrator_relayer.Prelude.{arith, Option, none, some, ◌≡◌, refl, ◌⊎◌, inl, inr, List, ◌∷◌}
use orchestrator_relayer.Effect.Calls.{Error, attestation_not_found, Call}

pub data Result {ℓ} (A : Type ℓ) : Type ℓ where
  ok : A → Result A
  err : Error → Result A

pub Result-cases {ℓ} :
    {A : Type ℓ} (r : Result A) → ((a : A) × (r ≡ ok a)) ⊎ ((e : Error) × (r ≡ err e))
Result-cases (ok a) = inl (a, refl)
Result-cases (err e) = inr (e, refl)

pub outcome-cases {ℓ κ} :
    {A : Type ℓ} {S : Type κ} (p : Result A × S)
    → ((a : A) × (s : S) × (p ≡ (ok a, s))) ⊎ ((e : Error) × (s : S) × (p ≡ (err e, s)))
outcome-cases (ok a, s) = inl (a, s, refl)
outcome-cases (err e, s) = inr (e, s, refl)

-- a reading of the context
pub reading-cases {ℓ κ} :
    {A : Type ℓ} {S : Type κ} (p : Option A × S)
    → ((s : S) × (p ≡ (none, s))) ⊎ ((a : A) × (s : S) × (p ≡ (some a, s)))
reading-cases (none, s) = inl (s, refl)
reading-cases (some a, s) = inr (a, s, refl)

-- `x, err := m; if err != nil { return err }` in a pure function
abbrev pub and_then {ℓ κ} : {A : Type ℓ} {B : Type κ} → Result A → (A → Result B) → Result B
and_then (ok a) f = f a
and_then (err e) f = err e

pub record World (W : Type 0) : Type 0 where
  pub ext : W
  pub calls : List Call

abbrev pub Go : Type 0 → Type 0 → Type 0
Go W A = World W → Result A × World W

module _ {W A : Type 0} where
  abbrev pub pure : A → Go W A
  pure a s = (ok a, s)

  abbrev pub fail : Error → Go W A
  fail e s = (err e, s)

  -- `if x == nil { return ErrAttestationNotFound }`
  abbrev pub found_or_fail : Option A → Go W A
  found_or_fail none = fail attestation_not_found
  found_or_fail (some a) = pure a

  abbrev pub lift : Result A → Go W A
  lift r s = (r, s)

  -- a call of a service that only reads, as far as this program is concerned
  abbrev pub query : (W → Result A × W) → Go W A
  query m s = let (r, w) = m s.ext in (r, record s { ext = w })

  -- a call that is made for its effect
  abbrev pub call : Call → (W → Result A × W) → Go W A
  call c m s = let (r, w) = m s.ext in (r, record { ext = w; calls = c ∷ s.calls })

  -- `x, err := m`, with the error looked at by what follows
  abbrev pub attempt : Go W A → Go W (Result A)
  attempt m s = let (r, s') = m s in (ok r, s')

module _ {W A B : Type 0} where
  abbrev pub continue : Result A → (A → Go W B) → Go W B
  continue (ok a) f s = f a s
  continue (err e) f s = (err e, s)

  infixl 5 ◌>>=◌ ◌>>◌
  -- `x, err := m; if err != nil { return err }`
  abbrev pub ◌>>=◌ : Go W A → (A → Go W B) → Go W B
  ◌>>=◌ m f s = let (r, s') = m s in continue r f s'

  abbrev pub ◌>>◌ : Go W A → Go W B → Go W B
  m >> n = m >>= λ _. n

  -- what a block that succeeds did
  pub bind-inv :
      (m : Go W A) (f : A → Go W B) (s s' : World W) (b : B)
      → (m >>= f) s ≡ (ok b, s')
      → (a : A) × (t : World W) × (m s ≡ (ok a, t)) × (f a t ≡ (ok b, s'))
  bind-inv m f s s' b h = elim (outcome-cases (m s)) [
    | inl (a, t, p) ↦ (a, t, p, ground (arith, p, h))
    | inr (e, t, p) ↦ absurd (ground (arith, p, h))
  ]
