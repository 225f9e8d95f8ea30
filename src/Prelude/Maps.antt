-- ===== src/Prelude/Maps.antt =====
-- `Map`: an association list in the order of insertion. Setting a key that is there keeps its place.
use mathlib.Core.Path.{◌≡◌, refl}
use mathlib.Core.Option.{Option, none, some}
use mathlib.Core.List.{List, [], ◌∷◌}
use native.Mathlib.Omega.{arith}
use urwhaturead.Prelude.Tests.{Eq, ◌==◌, if◌then◌else◌}

module _ {ℓ κ} {K : Type ℓ} {V : Type κ} ⦃e : Eq K⦄ where
  unfoldable pub insert : K → V → List (K × V) → List (K × V)
  insert key value [] = (key, value) ∷ []
  insert key value ((old, w) ∷ entries) =
      if old == key then (key, value) ∷ entries else (old, w) ∷ insert key value entries

  unfoldable pub lookup : K → List (K × V) → Option V
  lookup key [] = none
  lookup key ((old, value) ∷ entries) = if old == key then some value else lookup key entries

  pub lookup-insert :
      (key other : K) (value : V) (entries : List (K × V))
      → lookup other (insert key value entries)
        ≡ (if key == other then some value else lookup other entries)
  unfolding lookup insert
  lookup-insert key other value [] = refl
  lookup-insert key other value ((old, w) ∷ entries) = ground (
    arith,
    e.beq_iff key other,
    e.beq_iff old key,
    e.beq_iff old other,
    lookup-insert key other value entries,
  )
