-- ===== src/Base/Maps.antt =====
-- A Go map with text keys, as an association list with one entry for each key.
use Prim.Native.String.{String}
use mathlib.Core.Path.{◌≡◌, refl, ◌∙◌, subst}
use mathlib.Core.Logic.{inl, inr}
use mathlib.Core.List.{List, [], ◌∷◌}
use mathlib.Core.Option.{Option, none, some, some-injective}
use native.Mathlib.Omega.{arith}
use text.Mathlib.Text.{◌==◌}
use text.Mathlib.TextEquality.{eq_iff}
use text.Mathlib.TextPositions.{eq_refl}
use mathlib.Core.Bool.{not}
use synapse_oms.Base.Tests.{if◌then◌else◌, Bool-cases}
use synapse_oms.Base.Lists.{select, All}

abbrev pub Map {ℓ} : Type ℓ → Type ℓ
Map V = List (String × V)

module _ {ℓ} {V : Type ℓ} where
  -- `value, ok := entries[key]`
  unfoldable pub lookup : String → Map V → Option V
  lookup key [] = none
  lookup key (entry ∷ entries) = if key == entry.0 then some entry.1 else lookup key entries

  -- `entries[key] = value`
  unfoldable pub insert : String → V → Map V → Map V
  insert key value [] = (key, value) ∷ []
  insert key value (entry ∷ entries) =
      let deeper = entry ∷ insert key value entries in
      if key == entry.0 then (key, value) ∷ entries else deeper

  -- `delete(entries, key)`
  unfoldable pub delete : String → Map V → Map V
  delete key entries = select (λ entry. not (key == entry.0)) entries

  -- Every key of the map finds its value again, and a new one finds what was written.
  pub lookup-insert :
      (new key : String) (value : V) (entries : Map V)
      → lookup key (insert new value entries)
        ≡ (if key == new then some value else lookup key entries)
  unfolding lookup insert
  lookup-insert new key value [] = refl
  lookup-insert new key value (entry ∷ entries) =
      let rest = lookup-insert new key value entries in
      ground (arith, rest, eq_iff key new, eq_iff key entry.0, eq_iff new entry.0)

  pub lookup-insert_self :
      (key : String) (value : V) (entries : Map V)
      → lookup key (insert key value entries) ≡ some value
  lookup-insert_self key value entries = lookup-insert key key value entries ∙ rw (eq_refl key) refl

  pub lookup-delete :
      (gone key : String) (entries : Map V)
      → lookup key (delete gone entries) ≡ (if key == gone then none else lookup key entries)
  unfolding lookup delete
  lookup-delete gone key [] = ground arith
  lookup-delete gone key (entry ∷ entries) =
      let rest = lookup-delete gone key entries in
      ground (arith, rest, eq_iff key gone, eq_iff key entry.0, eq_iff gone entry.0)

module _ {ℓ κ} {V : Type ℓ} (P : V → Type κ) where
  -- Every value of the map has the property.
  abbrev pub Values : Map V → Type κ
  Values entries = All (λ entry. P entry.1) entries

  pub insert-Values :
      (key : String) (value : V) (entries : Map V)
      → P value
      → Values entries
      → Values (insert key value entries)
  unfolding insert
  insert-Values key value [] p _ = (p, tt)
  insert-Values key value (entry ∷ entries) p (q, qs) = elim (Bool-cases (key == entry.0)) [
    | inl e ↦ rw e (p, qs)
    | inr e ↦ rw e (q, insert-Values key value entries p qs)
  ]

  pub lookup-Values :
      (key : String) (entries : Map V) (value : V)
      → Values entries
      → lookup key entries ≡ some value
      → P value
  unfolding lookup
  lookup-Values key [] value _ e = ground arith
  lookup-Values key (entry ∷ entries) value (q, qs) e = elim (Bool-cases (key == entry.0)) [
    | inl same ↦ subst P (some-injective entry.1 value (rw same at e)) q
    | inr other ↦ lookup-Values key entries value qs (rw other at e)
  ]
