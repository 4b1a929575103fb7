-- ===== src/Prelude/Maps.antt =====
-- A `Map` or a plain object with text keys, as an association list in insertion order. Setting a key
-- that is there keeps its place, as JavaScript does.
use Prim.Native.String.{String}
use mathlib.Core.Path.{◌≡◌, refl}
use mathlib.Core.Option.{Option, none, some}
use mathlib.Core.List.{List, [], ◌∷◌}
use native.Mathlib.Omega.{arith}
use text.Mathlib.Text.{◌==◌ as str_eq}
use text.Mathlib.TextEquality.{eq_iff}
use text.Mathlib.TextPositions.{eq_refl}
use testy_mc_testface.Prelude.Tests.{if◌then◌else◌}

abbrev pub Table {ℓ} : Type ℓ → Type ℓ
Table V = List (String × V)

module _ {ℓ} {V : Type ℓ} where
  unfoldable pub lookup : (key : String) → Table V → Option V
  lookup key [] = none
  lookup key ((name, value) ∷ rest) =
      let later = lookup key rest in if str_eq name key then some value else later

  unfoldable pub insert : (key : String) → V → Table V → Table V
  insert key new [] = (key, new) ∷ []
  insert key new ((name, value) ∷ rest) =
      let later = insert key new rest in
      if str_eq name key then (key, new) ∷ rest else (name, value) ∷ later

  unfoldable pub delete : (key : String) → Table V → Table V
  delete key [] = []
  delete key ((name, value) ∷ rest) =
      let later = delete key rest in if str_eq name key then later else (name, value) ∷ later

  -- Reading after a write.
  pub lookup-insert :
      (key other : String) (new : V) (table : Table V)
      → lookup other (insert key new table)
        ≡ (if str_eq key other then some new else lookup other table)
  unfolding insert lookup
  lookup-insert key other new [] = refl
  lookup-insert key other new ((name, value) ∷ rest) =
      let ih = lookup-insert key other new rest in
      ground (arith, ih, eq_iff name other, eq_iff name key, eq_iff key other)

  pub lookup-insert_self :
      (key : String) (new : V) (table : Table V) → lookup key (insert key new table) ≡ some new
  lookup-insert_self key new table = rw (lookup-insert key key new table, eq_refl key)

  pub lookup-delete :
      (key other : String) (table : Table V)
      → lookup other (delete key table) ≡ (if str_eq key other then none else lookup other table)
  unfolding delete lookup
  lookup-delete key other [] = ground arith
  lookup-delete key other ((name, value) ∷ rest) =
      let ih = lookup-delete key other rest in
      ground (arith, ih, eq_iff name other, eq_iff name key, eq_iff key other)
