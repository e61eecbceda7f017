-- ===== src/Library/Handler/Checklist.antt =====
-- The `checklist` of `_MemoryApplyHandler`.
use mathlib.Core.Option
use things3_orchestrator.Prelude.{
  if◌then◌else◌, ℤ, negsuc, Result, err, ok, ◌>>◌, raise_if, Dict, lookup, insert, String, ◌==◌,
  not, Option, none, some, List, [], ◌∷◌, ◌++◌,
}
use things3_orchestrator.Library.Types.{
  Kind, Status, ChecklistLine, Record, Write, Error, no_task_parent,
}
use things3_orchestrator.Library.Queries.{
  kind_eq, status_eq, is_none, truthy_text, or_else, max_ℤ, add_ℕ, find_checklist, without_line,
  sort_lines,
}
use things3_orchestrator.Library.Handler.{Applied, with_records, verify}

-- `ChecklistLine(uuid=…, title=…, status=…, sort_index=…)`, with its `__post_init__`
unfoldable pub new_line : String → String → Status → ℤ → ChecklistLine
new_line uuid title status index = record {
  uuid = uuid;
  title = title;
  done = status_eq status Status.done;
  status = status;
  sort_index = index;
}

-- `max((item.sort_index for item in lines), default=-1)`
unfoldable pub last_index : List ChecklistLine → ℤ
last_index [] = negsuc 0
last_index (line ∷ []) = line.sort_index
last_index (line ∷ lines) = max_ℤ line.sort_index (last_index lines)

unfoldable pub set_lines : List ChecklistLine → Record → Record
set_lines lines item = record item { checklists = lines }

-- a row leaves the parent under the key
unfoldable pub take_out : String → String → Dict Record → Dict Record
unfolding without_line set_lines
take_out key uuid d = elim (lookup key d) [
  | none ↦ d
  | some item ↦ insert key (set_lines (without_line uuid item.checklists) item) d
]

-- a row is put, in order, into the list of the task under the key, in place of its old form
unfoldable pub put_line : String → ChecklistLine → Dict Record → Dict Record
unfolding without_line set_lines sort_lines
put_line key line d = elim (lookup key d) [
  | none ↦ d
  | some item ↦
      insert key
        (set_lines (sort_lines (without_line line.uuid item.checklists ++ (line ∷ []))) item) d
]

-- `checklist` with `checklist_remove`
unfoldable pub remove_line : Write → Option (String × ChecklistLine) → Applied → Applied
unfolding take_out
remove_line w none a = verify (if truthy_text w.title then or_else w.title "" else w.uuid) a
remove_line w (some found) a =
    verify (if truthy_text w.title then or_else w.title "" else found.1.title)
      (with_records (take_out found.0 w.uuid a.library.records) a)

-- the key of the task that the row goes to
unfoldable pub destination : Write → Option (String × ChecklistLine) → Dict Record → Option String
destination w found d =
    let key = or_else w.checklist_parent_uuid "" in
    if is_none (lookup key d) then Option.map (λ f. f.0) found else some key

-- the row as it will stand in the list
unfoldable pub replacement : Write → Option ChecklistLine → List ChecklistLine → ChecklistLine
unfolding new_line last_index
replacement w line lines =
    new_line w.uuid (or_else w.title (elim line [ none ↦ "" | some l ↦ l.title ]))
      (or_else w.checklist_status (elim line [ none ↦ Status.opened | some l ↦ l.status ]))
      (or_else w.checklist_index (
        or_else w.sort_index
          (elim line [ none ↦ add_ℕ (last_index lines) 1 | some l ↦ l.sort_index ])))

-- a row that comes from another task leaves it first
unfoldable pub move_line :
    Option (String × ChecklistLine) → String → String → Dict Record → Dict Record
unfolding take_out
move_line none key uuid d = d
move_line (some found) key uuid d = if found.0 == key then d else take_out found.0 uuid d

unfoldable pub set_line :
    Write → Option (String × ChecklistLine) → String → Record → Applied → Applied
unfolding replacement move_line put_line
set_line w found key item a =
    let line = replacement w (Option.map (λ f. f.1) found) item.checklists in
    verify line.title
      (with_records (put_line key line (move_line found key w.uuid a.library.records)) a)

-- that task, with its key
unfoldable pub destination_item :
    Write → Option (String × ChecklistLine) → Dict Record → Option (String × Record)
unfolding destination
destination_item w found d = elim (destination w found d) [
  | none ↦ none
  | some key ↦ Option.map (λ item. (key, item)) (lookup key d)
]

unfoldable pub add_to :
    Write
    → Option (String × ChecklistLine)
    → Option (String × Record)
    → Applied
    → Result Error Applied
unfolding set_line
add_to w found none a = err no_task_parent
add_to w found (some target) a = do
  raise_if (not (kind_eq target.1.kind Kind.task)) no_task_parent
  ok (set_line w found target.0 target.1 a)

unfoldable pub add_line : Write → Option (String × ChecklistLine) → Applied → Result Error Applied
unfolding destination_item add_to
add_line w found a = add_to w found (destination_item w found a.library.records) a

-- `checklist`
unfoldable pub checklist_item : Write → Applied → Result Error Applied
unfolding find_checklist remove_line add_line
checklist_item w a =
    let found = find_checklist w.uuid a.library in
    if w.checklist_remove then ok (remove_line w found a) else add_line w found a
