-- ===== src/Library/Views/Today.antt =====
-- The `today` of `MemoryLibrary`: what it lists, and in which order.
use things3_orchestrator.Calendar.{Date, max_ordinal}
use things3_orchestrator.Library.Types.{Kind, Record, Library}
use things3_orchestrator.Library.Queries.{kind_eq, or_else, is_open}
use things3_orchestrator.Prelude.{
  Bool-cases, ℤ, ◌≤ℤ◌, ℕ, ◌≤◌, ◌≡◌, refl, inl, inr, Bool, true, false, not, ◌&&◌, ◌||◌, List, [],
  ◌∷◌, arith,
}
use things3_orchestrator.Library.Views.{
  place_item, sort_by, then_by, compare_ℤ, not_after, on_or_before, issue, today_le,
}
use mathlib.Core.List.{Perm}
use mathlib.Core.List.Perm
use Prim.Native.Nat.{compare as compare_ℕ, Ordering}
use Prim.Native.String.{compare}

module _ {A : Type 0} (le : A → A → Bool) where
  place_item-Perm : (a : A) (bs : List A) → Perm (place_item le a bs) (a ∷ bs)
  unfolding place_item
  place_item-Perm a [] = Perm.refl (a ∷ [])
  place_item-Perm a (b ∷ bs) = elim (Bool-cases (le a b)) [
    | inl before ↦ rw before (Perm.refl (a ∷ b ∷ bs))
    | inr after ↦ rw after (Perm.trans (Perm.cons b (place_item-Perm a bs)) (Perm.swap a b bs))
  ]

  pub sort_by-Perm : (xs : List A) → Perm (sort_by le xs) xs
  unfolding sort_by
  sort_by-Perm [] = Perm.refl []
  sort_by-Perm (x ∷ xs) =
      Perm.trans (place_item-Perm x (sort_by le xs)) (Perm.cons x (sort_by-Perm xs))

module _ {A : Type 0} (R : A → A → Type 0) where
  -- the item comes before the first of the list
  abbrev pub Leads : A → List A → Type 0
  Leads a [] = Unit
  Leads a (b ∷ bs) = R a b

  abbrev pub IsSorted : List A → Type 0
  IsSorted [] = Unit
  IsSorted (a ∷ bs) = Leads a bs × IsSorted bs

module _ {A : Type 0} (le : A → A → Bool) (R : A → A → Type 0) where
  place_item-Leads : (x a : A) (bs : List A) → R x a → Leads R x bs → Leads R x (place_item le a bs)
  unfolding place_item
  place_item-Leads x a [] r h = r
  place_item-Leads x a (b ∷ bs) r h = elim (Bool-cases (le a b)) [
    | inl before ↦ rw before r
    | inr after ↦ rw after h
  ]

  module _ (yes : (a b : A) → le a b ≡ true → R a b) (no : (a b : A) → le a b ≡ false → R b a) where
    place_item-IsSorted : (a : A) (bs : List A) → IsSorted R bs → IsSorted R (place_item le a bs)
    unfolding place_item
    place_item-IsSorted a [] s = (tt, tt)
    place_item-IsSorted a (b ∷ bs) s = elim (Bool-cases (le a b)) [
      | inl before ↦ rw before (yes a b before, s)
      | inr after ↦
          rw after (place_item-Leads b a bs (no a b after) s.0, place_item-IsSorted a bs s.1)
    ]

    pub sort_by-IsSorted : (xs : List A) → IsSorted R (sort_by le xs)
    unfolding sort_by
    sort_by-IsSorted [] = tt
    sort_by-IsSorted (x ∷ xs) = place_item-IsSorted x (sort_by le xs) (sort_by-IsSorted xs)

-- Four numbers, compared at the first that differs.
abbrev pub IsOrdered : ℕ → ℕ → ℕ → ℕ → ℤ → ℤ → ℤ → ℤ → Type 0
IsOrdered i j d e t u s v = (i ≤ j) × (i ≡ j → (d ≤ e) × (d ≡ e → (t ≤ℤ u) × (t ≡ u → s ≤ℤ v)))

-- The order of the list: urgency, then deadline, then the two orders by hand.
abbrev pub IsBefore : Date → Record → Record → Type 0
IsBefore on a b =
    IsOrdered (or_else (issue on a) 9) (or_else (issue on b) 9) (or_else a.deadline max_ordinal)
      (or_else b.deadline max_ordinal) a.today_index b.today_index a.sort_index b.sort_index

module _ (i j d e : ℕ) (t u s v : ℤ) (last : Ordering) where
  compared : Ordering
  compared =
      then_by (compare_ℕ i j)
        (then_by (compare_ℕ d e) (then_by (compare_ℤ t u) (then_by (compare_ℤ s v) last)))

  compared-IsOrdered : not_after compared ≡ true → IsOrdered i j d e t u s v
  unfolding compared not_after then_by compare_ℤ
  compared-IsOrdered h =
      (ground arith, λ ij. (ground arith, λ de. (ground arith, λ tu. ground arith)))

  compared-IsOrdered_back : not_after compared ≡ false → IsOrdered j i e d u t v s
  unfolding compared not_after then_by compare_ℤ
  compared-IsOrdered_back h =
      (ground arith, λ ij. (ground arith, λ de. (ground arith, λ tu. ground arith)))

-- An open task or Project that is due by its deadline, is on for tonight or has started.
unfoldable pub due : Date → Record → Bool
unfolding is_open on_or_before
due on item =
    is_open item
    && not (kind_eq item.kind Kind.area)
    && (on_or_before item.deadline on || item.tonight || on_or_before item.start on)

before :
    (on : Date) (a b : Record)
    → ((today_le on a b ≡ true) → IsBefore on a b) × ((today_le on a b ≡ false) → IsBefore on b a)
unfolding today_le compared
before on a b =
    let i = or_else (issue on a) 9 in
    let j = or_else (issue on b) 9 in
    let d = or_else a.deadline max_ordinal in
    let e = or_else b.deadline max_ordinal in
    let last = compare a.title b.title in
    (
      compared-IsOrdered i j d e a.today_index b.today_index a.sort_index b.sort_index last,
      compared-IsOrdered_back i j d e a.today_index b.today_index a.sort_index b.sort_index last,
    )
