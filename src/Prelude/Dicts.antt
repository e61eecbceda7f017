-- ===== src/Prelude/Dicts.antt =====
-- A Python dict keyed by texts, as an association list in insertion order.
use Prim.Native.Nat.{ℕ, ◌+◌, ◌≤◌}
use Prim.Native.String.{String}
use text.Mathlib.Text.{◌==◌}
use text.Mathlib.TextEquality.{eq_iff}
use mathlib.Core.Path.{◌≡◌, refl, sym}
use mathlib.Core.Option.{none, Option, some}
use mathlib.Core.List.{◌∷◌, List, map, []}
use native.Mathlib.Omega.{arith}
use mathlib.Core.Logic.{inl, inr}
use things3_orchestrator.Prelude.Tests.{if◌then◌else◌, Option-cases, Bool-cases}
use mathlib.Core.Logic.{◌⊎◌}
use mathlib.Core.Bool.{true}

abbrev pub Dict : Type 0 → Type 0
Dict V = List (String × V)

pub eq_to : (a b : String) → (a == b) ≡ true → a ≡ b
eq_to a b h = ground (arith, eq_iff a b)

module _ {V : Type 0} where
  -- `d.get(key)`
  unfoldable pub lookup : String → Dict V → Option V
  lookup key [] = none
  lookup key (entry ∷ d) = if entry.0 == key then some entry.1 else lookup key d

  -- `d[key] = value`
  unfoldable pub insert : String → V → Dict V → Dict V
  insert key v [] = (key, v) ∷ []
  insert key v (entry ∷ d) = if entry.0 == key then (entry.0, v) ∷ d else entry ∷ insert key v d

  -- `d.pop(key, None)`
  unfoldable pub erase : String → Dict V → Dict V
  erase key [] = []
  erase key (entry ∷ d) = if entry.0 == key then d else entry ∷ erase key d

  -- `d.values()`
  abbrev pub dict_values : Dict V → List V
  dict_values d = map (λ entry. entry.1) d

  pub lookup-insert :
      (key j : String) (v : V) (d : Dict V)
      → lookup j (insert key v d) ≡ (if key == j then some v else lookup j d)
  unfolding lookup insert
  lookup-insert key j v [] = refl
  lookup-insert key j v (entry ∷ d) =
      ground (arith, eq_iff key j, eq_iff entry.0 key, eq_iff entry.0 j, lookup-insert key j v d)

  -- A write under a fresh key keeps every entry.
  pub insert-keep :
      (key j : String) (v w : V) (d : Dict V)
      → lookup key d ≡ none
      → lookup j d ≡ some w
      → lookup j (insert key v d) ≡ some w
  insert-keep key j v w d fresh known = elim (Bool-cases (key == j)) [
    | inl same ↦ let is = eq_to key j same in absurd cc
    | inr other ↦ ground (arith, lookup-insert key j v d)
  ]

  -- What is under a key after a write was there before or has been written.
  pub insert-new :
      (key j : String) (v w : V) (d : Dict V)
      → lookup j (insert key v d) ≡ some w
      → (lookup j d ≡ some w) ⊎ ((j ≡ key) × (w ≡ v))
  insert-new key j v w d found = elim (Bool-cases (key == j)) [
    | inl same ↦ inr (sym (eq_to key j same), ground (arith, lookup-insert key j v d))
    | inr other ↦ inl (ground (arith, lookup-insert key j v d))
  ]

-- The weights of all values, for an invariant that counts.
module _ {V : Type 0} (weight : V → ℕ) where
  unfoldable pub total : Dict V → ℕ
  total [] = 0
  total (entry ∷ d) = weight entry.1 + total d

  pub total-insert_old :
      (key : String) (v : V) (old : V) (d : Dict V)
      → lookup key d ≡ some old
      → total (insert key v d) + weight old ≡ total d + weight v
  unfolding total insert lookup
  total-insert_old key v old [] h = cc
  total-insert_old key v old (entry ∷ d) h = ground (arith, total-insert_old key v old d)

  pub total-insert_new :
      (key : String) (v : V) (d : Dict V)
      → lookup key d ≡ none
      → total (insert key v d) ≡ total d + weight v
  unfolding total insert lookup
  total-insert_new key v [] h = omega arith
  total-insert_new key v (entry ∷ d) h = ground (arith, total-insert_new key v d)

  pub total-lookup :
      (key : String) (d : Dict V) (v : V) → lookup key d ≡ some v → weight v ≤ total d
  unfolding total lookup
  total-lookup key [] v h = cc
  total-lookup key (entry ∷ d) v h = ground (arith, total-lookup key d v)

  pub total-erase : (key : String) (d : Dict V) → total (erase key d) ≤ total d
  unfolding total erase
  total-erase key [] = omega arith
  total-erase key (entry ∷ d) = ground (arith, total-erase key d)

  -- A write adds at most the weight of what is written.
  pub total-insert_le :
      (key : String) (v : V) (d : Dict V) → total (insert key v d) ≤ total d + weight v
  total-insert_le key v d = elim (Option-cases (lookup key d)) [
    | inl fresh ↦ omega (arith, total-insert_new key v d fresh)
    | inr (old, found) ↦ omega (arith, total-insert_old key v old d found)
  ]
