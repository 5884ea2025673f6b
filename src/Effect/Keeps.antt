-- ===== src/Effect/Keeps.antt =====
-- What an action keeps true of the world.
use mathlib.Core.Path.{subst}
use orchestrator_relayer.Prelude.{◌≡◌}
use orchestrator_relayer.Effect.Monad.{Result, ok, err, World, Go, query, attempt, ◌>>=◌, continue}

module _ {W : Type 0} (P : W → Type 0) where
  -- a call of a service that keeps `P`
  abbrev pub KeptBy : {A : Type 0} → (W → Result A × W) → Type 0
  KeptBy m = (w : W) → P w → P (m w).1

  abbrev pub Keeps : {A : Type 0} → Go W A → Type 0
  Keeps m = (s : World W) → P s.ext → P (m s).1.ext

  pub query-Keeps : {A : Type 0} (m : W → Result A × W) → KeptBy m → Keeps (query m)
  query-Keeps m k s h = k s.ext h

  pub attempt-Keeps : {A : Type 0} (m : Go W A) → Keeps m → Keeps (attempt m)
  attempt-Keeps m k s h = k s h

  pub bind-Keeps :
      {A B : Type 0} (m : Go W A) (f : A → Go W B)
      → Keeps m
      → ((a : A) → Keeps (f a))
      → Keeps (m >>= f)
  bind-Keeps {A} {B} m f k l s h = go (m s) (k s h)
    where
      go : (p : Result A × World W) → P p.1.ext → P (continue p.0 f p.1).1.ext
      go (ok a, t) q = l a t q
      go (err e, t) q = q

  pub kept_after :
      {A : Type 0} (m : Go W A) (r : Result A) (s t : World W)
      → Keeps m
      → m s ≡ (r, t)
      → P s.ext
      → P t.ext
  kept_after m r s t k e h = subst (λ p. P p.1.ext) e (k s h)
