-- ===== src/Common/Dicts.antt =====
-- Go's `map[string]V` as an association list whose first entry for a key counts.
use Prim.Native.String.{String}
use mathlib.Core.Path.{◌≡◌, refl}
use mathlib.Core.Option.{Option, none, some}
use mathlib.Core.List.{List, [], ◌∷◌}
use native.Mathlib.Omega.{arith}
use text.Mathlib.TextEquality.{eq_iff}
use m_waf.Common.Tests.{◌==◌, if◌then◌else◌}

abbrev pub Dict {ℓ} : Type ℓ → Type ℓ
Dict V = List (String × V)

module _ {ℓ} {V : Type ℓ} where
  -- m[key]; `none` is an absent key
  unfoldable pub lookup : String → Dict V → Option V
  lookup key [] = none
  lookup key ((name, value) ∷ entries) =
      let later = lookup key entries in if name == key then some value else later

  -- m[key] = value
  unfoldable pub insert : String → V → Dict V → Dict V
  insert key value [] = (key, value) ∷ []
  insert key value ((name, old) ∷ entries) =
      let changed = insert key value entries in
      if name == key then (key, value) ∷ entries else (name, old) ∷ changed

  -- delete(m, key)
  unfoldable pub erase : String → Dict V → Dict V
  erase key [] = []
  erase key ((name, old) ∷ entries) =
      let rest = erase key entries in if name == key then rest else (name, old) ∷ rest

  pub lookup-insert :
      (key other : String) (value : V) (m : Dict V)
      → lookup other (insert key value m) ≡ (if key == other then some value else lookup other m)
  unfolding insert lookup
  lookup-insert key other value [] = refl
  lookup-insert key other value ((name, old) ∷ entries) =
      let later = lookup-insert key other value entries in
      ground (arith, later, eq_iff name other, eq_iff name key, eq_iff key other)

  pub lookup-erase :
      (key other : String) (m : Dict V)
      → lookup other (erase key m) ≡ (if key == other then none else lookup other m)
  unfolding erase lookup
  lookup-erase key other [] = ground arith
  lookup-erase key other ((name, old) ∷ entries) =
      let later = lookup-erase key other entries in
      ground (arith, later, eq_iff name other, eq_iff name key, eq_iff key other)
