-- ===== src/Prelude/Dict.antt =====
-- Go maps with string keys as association lists; no order of the entries is promised.
use slinky_on_openshift.Prelude.Tests.{if◌then◌else◌}
use Prim.Native.String.{String}
use mathlib.Core.Path.{◌≡◌, refl}
use mathlib.Core.Option.{Option, none, some}
use mathlib.Core.List.{List, [], ◌∷◌}
use native.Mathlib.Omega.{arith}
use text.Mathlib.Text.{◌==◌ as str_eq}
use text.Mathlib.TextEquality.{eq_iff}

abbrev pub Dict {ℓ} : Type ℓ → Type ℓ
Dict V = List (String × V)

module _ {ℓ} {V : Type ℓ} where
  -- `m[key]`, with the test of the comma-ok form
  unfoldable pub lookup : String → Dict V → Option V
  lookup key [] = none
  lookup key (entry ∷ rest) = if str_eq entry.0 key then some entry.1 else lookup key rest

  -- `m[key] = value`
  unfoldable pub insert : String → V → Dict V → Dict V
  insert key value [] = (key, value) ∷ []
  insert key value (entry ∷ rest) =
      let more = insert key value rest in
      if str_eq entry.0 key then (key, value) ∷ rest else entry ∷ more

  -- `delete(m, key)`
  unfoldable pub delete : String → Dict V → Dict V
  delete key [] = []
  delete key (entry ∷ rest) =
      let fewer = delete key rest in if str_eq entry.0 key then fewer else entry ∷ fewer

  pub lookup-insert :
      (set asked : String) (value : V) (entries : Dict V)
      → lookup asked (insert set value entries)
        ≡ (if str_eq set asked then some value else lookup asked entries)
  unfolding lookup insert
  lookup-insert set asked value [] = refl
  lookup-insert set asked value (entry ∷ rest) = ground (
    arith,
    lookup-insert set asked value rest,
    eq_iff entry.0 asked,
    eq_iff entry.0 set,
    eq_iff set asked,
  )

  pub lookup-delete :
      (gone asked : String) (entries : Dict V)
      → lookup asked (delete gone entries)
        ≡ (if str_eq gone asked then none else lookup asked entries)
  unfolding lookup delete
  lookup-delete gone asked [] = ground arith
  lookup-delete gone asked (entry ∷ rest) = ground (
    arith,
    lookup-delete gone asked rest,
    eq_iff entry.0 asked,
    eq_iff entry.0 gone,
    eq_iff gone asked,
  )

pub ruleset dict_laws = (lookup-insert, lookup-delete)
