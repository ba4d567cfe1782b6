-- ===== src/Common/Maps.antt =====
-- Go's `map[string]V` as an association list: `lookup` for `v, ok := m[k]`, `insert` for
-- `m[k] = v`, `delete` for `delete(m, k)`.
use Prim.Native.String.{String}
use mathlib.Core.Path.{◌≡◌}
use mathlib.Core.Bool.{Bool, true, false}
use mathlib.Core.List.{List, [], ◌∷◌}
use mathlib.Core.Option.{Option, none, some}
use native.Mathlib.Omega.{arith}
use text.Mathlib.Text.{◌==◌}
use text.Mathlib.TextEquality.{eq_iff}
use ncore.Common.Tests.{if◌then◌else◌}

abbrev pub Dict {ℓ} : Type ℓ → Type ℓ
Dict V = List (String × V)

module _ {ℓ} {V : Type ℓ} where
  unfoldable pub lookup : String → Dict V → Option V
  lookup key [] = none
  lookup key ((other, v) ∷ entries) = if other == key then some v else lookup key entries

  unfoldable pub delete : String → Dict V → Dict V
  delete key [] = []
  delete key ((other, v) ∷ entries) =
      let rest = delete key entries in if other == key then rest else (other, v) ∷ rest

  unfoldable pub insert : String → V → Dict V → Dict V
  unfolding delete
  insert key v entries = (key, v) ∷ delete key entries

  abbrev pub exists : String → Dict V → Bool
  exists key entries = elim (lookup key entries) [ none ↦ false | some _ ↦ true ]

  pub lookup-delete :
      (key other : String) (entries : Dict V)
      → lookup other (delete key entries) ≡ (if key == other then none else lookup other entries)
  unfolding lookup delete
  lookup-delete key other [] = ground arith
  lookup-delete key other ((i, v) ∷ entries) =
      ground
        (arith, lookup-delete key other entries, eq_iff i key, eq_iff i other, eq_iff key other)

  pub lookup-insert :
      (key other : String) (v : V) (entries : Dict V)
      → lookup other (insert key v entries)
        ≡ (if key == other then some v else lookup other entries)
  unfolding lookup insert
  lookup-insert key other v entries = ground (arith, lookup-delete key other entries)
