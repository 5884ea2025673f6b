-- ===== src/Prelude/Maps.antt =====
-- Go's maps from strings, as association lists in which the last entry put comes first. The
-- program reads the modelled maps by key only.
use mathlib.Core.Path.{◌≡◌, refl}
use mathlib.Core.List.{List, [], ◌∷◌}
use mathlib.Core.Option.{Option, none, some}
use orchestrator_relayer.Prelude.Tests.{if◌then◌else◌}
use orchestrator_relayer.Prelude.Strings.{Bytes, str_eq}

abbrev pub Map {ℓ} : Type ℓ → Type ℓ
Map V = List (Bytes × V)

module _ {ℓ} {V : Type ℓ} where
  -- `v, has := m[k]`
  unfoldable pub lookup : Bytes → Map V → Option V
  lookup k [] = none
  lookup k ((j, v) ∷ m) = if str_eq j k then some v else lookup k m

  -- `m[k] = v`
  unfoldable pub put : Bytes → V → Map V → Map V
  put k v m = (k, v) ∷ m

  pub lookup-put :
      (k j : Bytes) (v : V) (m : Map V)
      → lookup j (put k v m) ≡ (if str_eq k j then some v else lookup j m)
  unfolding lookup put
  lookup-put k j v m = refl
