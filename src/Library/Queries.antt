-- ===== src/Library/Queries.antt =====
-- The queries of `MemoryLibrary` that the writes need: `next_index`, `tag_uuid`, `_find_checklist`,
-- `resolve_instance_types` and the order of a task's checklist.
use things3_orchestrator.Library.Ids.{public_id}
use things3_orchestrator.Prelude.{
  if◌then◌else◌, contains, ℤ, pos, pos_part, neg_part, sub_ℕ, ltb_ℤ, eq_ℤ, Dict, lookup, insert, ℕ,
  ◌+◌, String, ◌==◌, Bool, true, false, not, ◌&&◌, ◌||◌, Option, none, some, List, [], ◌∷◌, map,
}
use things3_orchestrator.Recurrence.Types.{Role}
use things3_orchestrator.Recurrence.Fold.{resolve_instance_type}
use things3_orchestrator.Library.Types.{
  Kind, PublicKind, Status, ChecklistLine, Record, Write, Library,
}
use Prim.Native.String.{compare}
use Prim.Native.Nat.{Ordering}

abbrev pub kind_eq : Kind → Kind → Bool
kind_eq Kind.task Kind.task = true
kind_eq Kind.project Kind.project = true
kind_eq Kind.area Kind.area = true
kind_eq _ _ = false

abbrev pub is_kind : Option Kind → Kind → Bool
is_kind none k = false
is_kind (some j) k = kind_eq j k

abbrev pub status_eq : Status → Status → Bool
status_eq Status.opened Status.opened = true
status_eq Status.done Status.done = true
status_eq Status.dropped Status.dropped = true
status_eq _ _ = false

abbrev pub is_template : Role → Bool
is_template Role.template = true
is_template _ = false

abbrev pub is_none {ℓ} : {A : Type ℓ} → Option A → Bool
is_none none = true
is_none (some a) = false

-- `==` of two texts that may be `None`
abbrev pub same_text : Option String → Option String → Bool
same_text none none = true
same_text (some s) (some t) = s == t
same_text _ _ = false

-- `bool(text)`
abbrev pub truthy_text : Option String → Bool
truthy_text none = false
truthy_text (some s) = not (s == "")

-- `text or other`
abbrev pub text_or : Option String → Option String → Option String
text_or text other = if truthy_text text then text else other

abbrev pub or_else {ℓ} : {A : Type ℓ} → Option A → A → A
or_else none other = other
or_else (some a) other = a

-- `Record.public_kind` and `Record.id`
unfoldable pub public_kind : Record → PublicKind
public_kind item = if item.heading then PublicKind.heading else elim item.kind [
  | Kind.task ↦ PublicKind.task
  | Kind.project ↦ PublicKind.project
  | Kind.area ↦ PublicKind.area
]

unfoldable pub record_id : Record → String
unfolding public_kind public_id
record_id item = public_id (public_kind item) item.uuid

-- `Record.is_open`
unfoldable pub is_open : Record → Bool
is_open item =
    status_eq item.status Status.opened
    && not item.trashed
    && not (is_template item.recurrence.role)
    && not item.heading

-- `template_uuid_of`
head_link : List String → Option String
head_link [] = none
head_link (link ∷ links) = some link

unfoldable pub template_uuid_of : Record → Option String
unfolding head_link
template_uuid_of item = text_or item.recurrence.template_uuid (head_link item.recurrence.links)

unfoldable pub linked_to_template : Record → String → Bool
unfolding template_uuid_of
linked_to_template item target =
    not (item.uuid == target)
    && (same_text (template_uuid_of item) (some target) || contains target item.recurrence.links)

-- an open list's item of the kind, outside Projects, areas, Inbox and Someday
unfoldable pub is_loose : Kind → Record → Bool
is_loose kind item =
    kind_eq item.kind kind
    && not (truthy_text item.parent_uuid)
    && not (truthy_text item.area_uuid)
    && not item.inbox
    && not item.someday

-- the items that a new item is ordered with
unfoldable pub is_sibling : Write → Record → Bool
unfolding is_loose
is_sibling w item =
    if item.heading || is_template item.recurrence.role || item.uuid == w.uuid
    then false
    else if is_kind w.into_kind Kind.project && same_text item.parent_uuid w.into_uuid
    then true
    else if kind_eq w.kind Kind.area && kind_eq item.kind Kind.area
    then true
    else if is_kind w.into_kind Kind.area
        && same_text item.area_uuid w.into_uuid
        && not (truthy_text item.parent_uuid)
    then true
    else if kind_eq w.kind Kind.project && is_none w.into_uuid && is_none w.into_kind
    then is_loose Kind.project item
    else if kind_eq w.kind Kind.task && is_none w.into_uuid && is_none w.into_kind
    then (if w.anytime then is_loose Kind.task item else item.inbox)
    else false

unfoldable pub max_ℤ : ℤ → ℤ → ℤ
max_ℤ a b = if ltb_ℤ a b then b else a

-- n + k
unfoldable pub add_ℕ : ℤ → ℕ → ℤ
add_ℕ n k = sub_ℕ (pos_part n + k) (neg_part n)

-- the largest order of the records that pass, plus 1024, and at least 1024
next_after : (Record → Bool) → Dict Record → ℤ
unfolding max_ℤ add_ℕ
next_after test [] = pos 1024
next_after test (entry ∷ d) =
    if test entry.1
    then max_ℤ (next_after test d) (add_ℕ entry.1.sort_index 1024)
    else next_after test d

unfoldable pub next_index : Write → Library → ℤ
unfolding next_after
next_index w l = next_after (is_sibling w) l.records

module _ (casefold : String → String) where
  tag_titled : String → Dict String → Option String
  tag_titled title [] = none
  tag_titled title (entry ∷ d) =
      if casefold entry.1 == casefold title then some entry.0 else tag_titled title d

  unfoldable pub tag_uuid : String → Library → Option String
  unfolding tag_titled
  tag_uuid title l = tag_titled title l.tags

find_line : String → List ChecklistLine → Option ChecklistLine
find_line uuid [] = none
find_line uuid (line ∷ lines) = if line.uuid == uuid then some line else find_line uuid lines

-- the first parent with the row, by its key, and the row
find_in : String → Dict Record → Option (String × ChecklistLine)
unfolding find_line
find_in uuid [] = none
find_in uuid (entry ∷ d) = elim (find_line uuid entry.1.checklists) [
  | none ↦ find_in uuid d
  | some line ↦ some (entry.0, line)
]

unfoldable pub find_checklist : String → Library → Option (String × ChecklistLine)
unfolding find_in
find_checklist uuid l = find_in uuid l.records

-- `[item for item in lines if item.uuid != uuid]`
unfoldable pub without_line : String → List ChecklistLine → List ChecklistLine
without_line uuid [] = []
without_line uuid (line ∷ lines) =
    if line.uuid == uuid then without_line uuid lines else line ∷ without_line uuid lines

-- `(a.sort_index, a.uuid) <= (b.sort_index, b.uuid)`
unfoldable pub line_le : ChecklistLine → ChecklistLine → Bool
line_le a b =
    if eq_ℤ a.sort_index b.sort_index
    then elim (compare a.uuid b.uuid) [ Ordering.gt ↦ false | _ ↦ true ]
    else ltb_ℤ a.sort_index b.sort_index

-- the stable sort by order and uuid, one row at a time
unfoldable pub place_line : ChecklistLine → List ChecklistLine → List ChecklistLine
unfolding line_le
place_line line [] = line ∷ []
place_line line (other ∷ lines) =
    if line_le line other then line ∷ other ∷ lines else other ∷ place_line line lines

unfoldable pub sort_lines : List ChecklistLine → List ChecklistLine
unfolding place_line
sort_lines [] = []
sort_lines (line ∷ lines) = place_line line (sort_lines lines)

-- `record.recurrence.resolve_instance_type(…)` for one record, with the dict as it is then
unfoldable pub resolve_record : Record → Dict Record → Record
unfolding template_uuid_of resolve_instance_type
resolve_record item d = elim (template_uuid_of item) [
  | none ↦ item
  | some target ↦ record item {
    recurrence =
        resolve_instance_type
          (elim (lookup target d) [ none ↦ none | some r ↦ some r.recurrence.repeat_type ])
          item.recurrence;
  }
]

unfoldable pub resolve_keys : List String → Dict Record → Dict Record
unfolding resolve_record lookup insert
resolve_keys [] d = d
resolve_keys (key ∷ keys) d = elim (lookup key d) [
  | none ↦ resolve_keys keys d
  | some item ↦ resolve_keys keys (insert key (resolve_record item d) d)
]

unfoldable pub resolve_instance_types : Library → Library
unfolding resolve_keys
resolve_instance_types l = record l {
  records = resolve_keys (map (λ entry. entry.0) l.records) l.records;
}
