-- ===== src/Effect/Fallible.antt =====
-- `do` blocks for pure functions that return `(T, error)`.
use orchestrator_relayer.Prelude.{Bool, true, false}
use orchestrator_relayer.Effect.Calls.{Error}
use orchestrator_relayer.Effect.Monad.{Result, ok, err, and_then}

infixl 5 ◌>>=◌ ◌>>◌
abbrev pub ◌>>=◌ {ℓ κ} : {A : Type ℓ} {B : Type κ} → Result A → (A → Result B) → Result B
m >>= f = and_then m f

abbrev pub ◌>>◌ {ℓ} : {B : Type ℓ} → Result (Unit {0}) → Result B → Result B
m >> k = and_then m λ _. k

-- `if !b { return e }`
abbrev pub guard : Bool → Error → Result (Unit {0})
guard true e = ok tt
guard false e = err e
