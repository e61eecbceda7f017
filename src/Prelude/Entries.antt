-- ===== src/Prelude/Entries.antt =====
-- Predicates on all entries of a dict, unique keys, and writes through the objects that a dict holds.
use Prim.Native.String.{String}
use text.Mathlib.Text.{◌==◌}
use text.Mathlib.TextEquality.{eq_iff}
use mathlib.Core.Path.{◌≡◌, refl}
use mathlib.Core.Bool.{false}
use mathlib.Core.Logic.{inl, inr}
use mathlib.Core.Option.{none, some}
use mathlib.Core.List.{[], ◌∷◌}
use native.Mathlib.Omega.{arith}
use things3_orchestrator.Prelude.Tests.{Bool-cases}
use things3_orchestrator.Prelude.Dicts.{Dict, lookup, insert, erase, eq_to}

module _ {V : Type 0} where
  -- `for value in d.values(): …`, with what is assigned to the attributes of the value
  unfoldable pub update_values : (V → V) → Dict V → Dict V
  update_values f [] = []
  update_values f (entry ∷ d) = (entry.0, f entry.1) ∷ update_values f d

  abbrev pub Every : (String → V → Type 0) → Dict V → Type 0
  Every P [] = Unit
  Every P (entry ∷ d) = P entry.0 entry.1 × Every P d

  -- No key stands twice.
  abbrev pub IsUnique : Dict V → Type 0
  IsUnique [] = Unit
  IsUnique (entry ∷ d) = (lookup entry.0 d ≡ none) × IsUnique d

  pub lookup-update_values :
      (f : V → V) (key : String) (d : Dict V) (v : V)
      → lookup key d ≡ some v
      → lookup key (update_values f d) ≡ some (f v)
  unfolding lookup update_values
  lookup-update_values f key [] v h = absurd cc
  lookup-update_values f key (entry ∷ d) v h = ground (arith, lookup-update_values f key d v)

  pub lookup-update_values_none :
      (f : V → V) (key : String) (d : Dict V)
      → lookup key d ≡ none
      → lookup key (update_values f d) ≡ none
  unfolding lookup update_values
  lookup-update_values_none f key [] h = refl
  lookup-update_values_none f key (entry ∷ d) h = ground (arith, lookup-update_values_none f key d)

  pub lookup-insert_other :
      (key j : String) (v : V) (d : Dict V)
      → (key == j) ≡ false
      → lookup j d ≡ none
      → lookup j (insert key v d) ≡ none
  unfolding lookup insert
  lookup-insert_other key j v [] other h = rw other refl
  lookup-insert_other key j v (entry ∷ d) other h =
      ground
        (arith, eq_iff entry.0 key, eq_iff entry.0 j, eq_iff key j, lookup-insert_other key j v d)

  pub lookup-erase_none :
      (key j : String) (d : Dict V) → lookup j d ≡ none → lookup j (erase key d) ≡ none
  unfolding lookup erase
  lookup-erase_none key j [] h = refl
  lookup-erase_none key j (entry ∷ d) h = ground (arith, lookup-erase_none key j d)

  pub IsUnique-insert : (key : String) (v : V) (d : Dict V) → IsUnique d → IsUnique (insert key v d)
  unfolding insert lookup
  IsUnique-insert key v [] u = (refl, tt)
  IsUnique-insert key v (entry ∷ d) u = elim (Bool-cases (entry.0 == key)) [
    | inl same ↦ rw same u
    | inr other ↦ rw other (
      lookup-insert_other key entry.0 v d (ground (arith, eq_iff entry.0 key, eq_iff key entry.0))
          u.0,
      IsUnique-insert key v d u.1,
    )
  ]

  pub IsUnique-erase : (key : String) (d : Dict V) → IsUnique d → IsUnique (erase key d)
  unfolding erase
  IsUnique-erase key [] u = tt
  IsUnique-erase key (entry ∷ d) u = elim (Bool-cases (entry.0 == key)) [
    | inl same ↦ rw same u.1
    | inr other ↦ rw other (lookup-erase_none key entry.0 d u.0, IsUnique-erase key d u.1)
  ]

  pub IsUnique-update_values : (f : V → V) (d : Dict V) → IsUnique d → IsUnique (update_values f d)
  unfolding update_values
  IsUnique-update_values f [] u = tt
  IsUnique-update_values f (entry ∷ d) u =
      (lookup-update_values_none f entry.0 d u.0, IsUnique-update_values f d u.1)

  pub lookup-erase : (key : String) (d : Dict V) → IsUnique d → lookup key (erase key d) ≡ none
  unfolding lookup erase
  lookup-erase key [] u = refl
  lookup-erase key (entry ∷ d) u = elim (Bool-cases (entry.0 == key)) [
    | inl same ↦ let is = eq_to entry.0 key same in rw same (rw (← is) u.0)
    | inr other ↦ rw (other, other) (lookup-erase key d u.1)
  ]

module _ {V : Type 0} (P : String → V → Type 0) where
  pub Every-lookup :
      (key : String) (d : Dict V) {v : V} → Every P d → lookup key d ≡ some v → P key v
  unfolding lookup
  Every-lookup key [] h found = absurd cc
  Every-lookup key (entry ∷ d) {v} h found = elim (Bool-cases (entry.0 == key)) [
    | inl same ↦
        let is = eq_to entry.0 key same in
        let value : entry.1 ≡ v = ground arith in rw (← is, ← value) h.0
    | inr other ↦ Every-lookup key d h.1 (ground arith)
  ]

  pub Every-insert :
      (key : String) (v : V) (d : Dict V) → P key v → Every P d → Every P (insert key v d)
  unfolding insert
  Every-insert key v [] p h = (p, tt)
  Every-insert key v (entry ∷ d) p h = elim (Bool-cases (entry.0 == key)) [
    | inl same ↦ let is = eq_to entry.0 key same in rw same (rw is p, h.1)
    | inr other ↦ rw other (h.0, Every-insert key v d p h.1)
  ]

  pub Every-erase : (key : String) (d : Dict V) → Every P d → Every P (erase key d)
  unfolding erase
  Every-erase key [] h = tt
  Every-erase key (entry ∷ d) h = elim (Bool-cases (entry.0 == key)) [
    | inl same ↦ rw same h.1
    | inr other ↦ rw other (h.0, Every-erase key d h.1)
  ]

  pub Every-update_values :
      (f : V → V) (d : Dict V)
      → ((key : String) (v : V) → P key v → P key (f v))
      → Every P d
      → Every P (update_values f d)
  unfolding update_values
  Every-update_values f [] keep h = tt
  Every-update_values f (entry ∷ d) keep h =
      (keep entry.0 entry.1 h.0, Every-update_values f d keep h.1)
