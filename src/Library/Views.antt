-- ===== src/Library/Views.antt =====
-- The read views of `MemoryLibrary`: `get`, `today`, `inbox`, `week`, `trash`, `areas`,
-- `children_in_area`, `recurrence_instances`, `heading_title` and `parent_title`.
pub mod Today
use things3_orchestrator.Prelude.{
  leb, if◌then◌else◌, ℤ, ltb_ℤ, eq_ℤ, Dict, lookup, ℕ, ◌+◌, String, ◌==◌, Bool, true, false, not,
  ◌&&◌, ◌||◌, Option, none, some, List, [], ◌∷◌,
}
use things3_orchestrator.Calendar.{Date, max_ordinal, day}
use things3_orchestrator.Library.Types.{Kind, PublicKind, Status, Record, Library}
use things3_orchestrator.Library.Ids.{parse_id}
use things3_orchestrator.Library.Queries.{
  kind_eq, status_eq, is_none, same_text, truthy_text, or_else, public_kind, record_id, is_open,
  linked_to_template,
}
use Prim.Native.String.{compare}
use Prim.Native.Nat.{Ordering, compare as compare_ℕ}
use mathlib.Core.Option

-- the values of the dict that pass, in its order
unfoldable pub select : (Record → Bool) → Dict Record → List Record
select test [] = []
select test (entry ∷ d) = if test entry.1 then entry.1 ∷ select test d else select test d

-- `sort(key=…)`, one item at a time: a stable sort
module _ {A : Type 0} (le : A → A → Bool) where
  unfoldable pub place_item : A → List A → List A
  place_item a [] = a ∷ []
  place_item a (b ∷ bs) = if le a b then a ∷ b ∷ bs else b ∷ place_item a bs

  unfoldable pub sort_by : List A → List A
  unfolding place_item
  sort_by [] = []
  sort_by (a ∷ rest) = place_item a (sort_by rest)

-- comparison of tuples: at the first component that differs
unfoldable pub then_by : Ordering → Ordering → Ordering
then_by Ordering.eq next = next
then_by first next = first

unfoldable pub compare_ℤ : ℤ → ℤ → Ordering
compare_ℤ a b = if eq_ℤ a b then Ordering.eq else if ltb_ℤ a b then Ordering.lt else Ordering.gt

unfoldable pub not_after : Ordering → Bool
not_after Ordering.gt = false
not_after _ = true

unfoldable pub only : List Record → Option Record
only (item ∷ []) = some item
only _ = none

unfoldable pub public_kind_eq : PublicKind → PublicKind → Bool
public_kind_eq PublicKind.task PublicKind.task = true
public_kind_eq PublicKind.project PublicKind.project = true
public_kind_eq PublicKind.area PublicKind.area = true
public_kind_eq PublicKind.heading PublicKind.heading = true
public_kind_eq _ _ = false

unfoldable pub kind_agrees : Option PublicKind → Record → Bool
unfolding public_kind_eq public_kind
kind_agrees none item = true
kind_agrees (some kind) item = public_kind_eq (public_kind item) kind

unfoldable pub on_or_before : Option Date → Date → Bool
on_or_before none day = false
on_or_before (some d) day = leb d day

unfoldable pub first_title : Option String → Option String → Option String
first_title none other = other
first_title (some t) other = some t

-- `get`
unfoldable pub get_item : String → Library → Option Record
unfolding only kind_agrees record_id parse_id select lookup
get_item value l =
    let (kind, uuid) = parse_id value in
    elim (lookup uuid l.records) [
      | none ↦ only (select (λ item. record_id item == value) l.records)
      | some item ↦ if kind_agrees kind item then some item else none
    ]

-- how urgent an item is today: late or due, for tonight, started
unfoldable pub issue : Date → Record → Option ℕ
unfolding is_open on_or_before
issue today item =
    if not (is_open item) || kind_eq item.kind Kind.area
    then none
    else if on_or_before item.deadline today
    then some 0
    else if item.tonight
    then some 1
    else if on_or_before item.start today
    then some 2
    else none

-- `key` of `today`'s sort
unfoldable pub today_le : Date → Record → Record → Bool
unfolding issue then_by not_after compare_ℤ
today_le today a b = not_after (
    then_by (compare_ℕ (or_else (issue today a) 9) (or_else (issue today b) 9)) (
      then_by (compare_ℕ (or_else a.deadline max_ordinal) (or_else b.deadline max_ordinal)) (
        then_by (compare_ℤ a.today_index b.today_index)
          (then_by (compare_ℤ a.sort_index b.sort_index) (compare a.title b.title)))))

unfoldable pub is_due : Date → Record → Bool
unfolding issue
is_due today item = not (is_none (issue today item))

unfoldable pub today : Date → Library → List Record
unfolding today_le is_due select sort_by
today day l = sort_by (today_le day) (select (is_due day) l.records)

unfoldable pub listed_le : Record → Record → Bool
unfolding then_by not_after compare_ℤ
listed_le a b = not_after (then_by (compare_ℤ a.sort_index b.sort_index) (compare a.title b.title))

unfoldable pub in_inbox : Record → Bool
unfolding is_open
in_inbox item = is_open item && item.inbox && not (kind_eq item.kind Kind.area)

unfoldable pub inbox : Library → List Record
unfolding listed_le in_inbox select sort_by
inbox l = sort_by listed_le (select in_inbox l.records)

-- `week`
unfoldable pub within : Option Date → ℕ → ℕ → Bool
within none first last = false
within (some d) first last = leb first d && leb d last

unfoldable pub this_week : Date → Record → Bool
unfolding within is_open
this_week today item =
    is_open item
    && not (kind_eq item.kind Kind.area)
    && (within item.deadline today (today + 7) || within item.start (today + 1) (today + 7))

unfoldable pub week_day : Record → Date
week_day item = or_else item.deadline (or_else item.start max_ordinal)

unfoldable pub week_le : Record → Record → Bool
unfolding then_by not_after compare_ℤ week_day
week_le a b =
    not_after (then_by (compare_ℕ (week_day a) (week_day b)) (compare_ℤ a.sort_index b.sort_index))

unfoldable pub week : Date → Library → List Record
unfolding week_le this_week select sort_by
week today l = sort_by week_le (select (this_week today) l.records)

unfoldable pub kind_rank : Kind → ℕ
kind_rank Kind.area = 0
kind_rank Kind.project = 1
kind_rank Kind.task = 2

unfoldable pub trash_le : Record → Record → Bool
unfolding then_by not_after compare_ℤ kind_rank
trash_le a b = not_after (
    then_by (compare_ℕ (kind_rank a.kind) (kind_rank b.kind))
      (then_by (compare_ℤ a.sort_index b.sort_index) (compare a.title b.title)))

unfoldable pub is_trashed : Record → Bool
is_trashed item = item.trashed

-- `trash`; the kinds are sorted by their names
unfoldable pub trash : Library → List Record
unfolding trash_le is_trashed select sort_by
trash l = sort_by trash_le (select is_trashed l.records)

unfoldable pub is_area : Record → Bool
unfolding is_open
is_area item = is_open item && kind_eq item.kind Kind.area

unfoldable pub areas : Library → List Record
unfolding listed_le is_area select sort_by
areas l = sort_by listed_le (select is_area l.records)

unfoldable pub is_child : String → Record → Bool
is_child uuid item =
    not (kind_eq item.kind Kind.area)
    && same_text item.area_uuid (some uuid)
    && not (truthy_text item.parent_uuid)
    && not item.trashed
    && status_eq item.status Status.opened
    && not item.heading

unfoldable pub children_in_area : String → Library → List Record
unfolding listed_le is_child select sort_by
children_in_area uuid l = sort_by listed_le (select (is_child uuid) l.records)

unfoldable pub instance_le : Record → Record → Bool
unfolding then_by not_after compare_ℤ
instance_le a b = not_after (then_by (compare_ℤ a.sort_index b.sort_index) (compare a.uuid b.uuid))

unfoldable pub is_instance : String → Record → Bool
unfolding linked_to_template
is_instance uuid item = linked_to_template item uuid

unfoldable pub recurrence_instances : String → Library → List Record
unfolding instance_le is_instance select sort_by
recurrence_instances uuid l = sort_by instance_le (select (is_instance uuid) l.records)

unfoldable pub title_at : Option String → Library → Option String
unfolding lookup
title_at none l = none
title_at (some uuid) l =
    if uuid == "" then none else Option.map (λ r. r.title) (lookup uuid l.records)

-- `heading_title` and `parent_title`
unfoldable pub heading_title : Record → Library → Option String
unfolding title_at
heading_title item l = title_at item.heading_uuid l

unfoldable pub parent_title : Record → Library → Option String
unfolding title_at first_title
parent_title item l =
    first_title (title_at item.parent_uuid l)
      (first_title (title_at item.area_uuid l) (if item.inbox then some "Inbox" else none))
