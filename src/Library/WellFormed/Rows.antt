-- ===== src/Library/WellFormed/Rows.antt =====
-- The `checklist` of `_MemoryApplyHandler` on well-formed libraries.
use mathlib.Core.Option
use things3_orchestrator.Prelude.{
  Bool-cases, Option-cases, All, All-append, ℤ, ok, >>=-eq-ok, ok_inj, raise_if, lookup, String,
  ◌==◌, ◌≡◌, refl, inl, inr, not, Option, none, some, List, [], ◌∷◌, ◌++◌, arith,
}
use things3_orchestrator.Library.Types.{
  Kind, Status, ChecklistLine, Record, Write, no_task_parent, Library,
}
use things3_orchestrator.Library.Queries.{kind_eq, find_checklist, without_line, sort_lines}
use things3_orchestrator.Library.Handler.{Applied}
use things3_orchestrator.Library.Handler.Checklist.{
  new_line, set_lines, take_out, put_line, remove_line, replacement, move_line, set_line,
  destination_item, add_to, add_line, checklist_item,
}
use things3_orchestrator.Library.WellFormed.{
  placed, IsCoherentLine, IsGood, IsWellFormed, All-without_line, All-sort_lines, save-IsWellFormed,
  found-IsGood,
}

new_line-IsCoherentLine :
    (uuid title : String) (status : Status) (index : ℤ)
    → IsCoherentLine (new_line uuid title status index)
unfolding new_line
new_line-IsCoherentLine uuid title status index = refl

set_lines-IsGood :
    (lines : List ChecklistLine) (key : String) (item : Record)
    → IsGood key item
    → All IsCoherentLine lines
    → IsGood key (set_lines lines item)
unfolding set_lines placed
set_lines-IsGood lines key item g h = (g.0, g.1, h)

-- A row leaves a task, and a row comes in.
take_out-IsWellFormed :
    (key uuid : String) (l : Library)
    → IsWellFormed l
    → IsWellFormed (record l { records = take_out key uuid l.records })
unfolding take_out
take_out-IsWellFormed key uuid l good = elim (Option-cases (lookup key l.records)) [
  | inl missing ↦ rw (missing, take_out) good
  | inr (item, found) ↦
      let g = found-IsGood l good key found in
      let rows = All-without_line uuid item.checklists g.2 in
      rw (found, take_out)
        (save-IsWellFormed l good key (set_lines (without_line uuid item.checklists) item)
          (set_lines-IsGood (without_line uuid item.checklists) key item g rows))
]

put_line-IsWellFormed :
    (key : String) (line : ChecklistLine) (l : Library)
    → IsCoherentLine line
    → IsWellFormed l
    → IsWellFormed (record l { records = put_line key line l.records })
unfolding put_line
put_line-IsWellFormed key line l coherent good = elim (Option-cases (lookup key l.records)) [
  | inl missing ↦ rw (missing, put_line) good
  | inr (item, found) ↦
      let g = found-IsGood l good key found in
      let rest = without_line line.uuid item.checklists in
      let rows = All-sort_lines (rest ++ (line ∷ [])) (
        All-append IsCoherentLine rest (line ∷ []) (All-without_line line.uuid item.checklists g.2)
          (coherent, tt)) in
      rw (found, put_line)
        (save-IsWellFormed l good key _
          (set_lines-IsGood (sort_lines (rest ++ (line ∷ []))) key item g rows))
]

remove_line-IsWellFormed :
    (w : Write) (found : Option (String × ChecklistLine)) (a : Applied)
    → IsWellFormed a.library
    → IsWellFormed (remove_line w found a).library
unfolding remove_line
remove_line-IsWellFormed w none a good = good
remove_line-IsWellFormed w (some found) a good = take_out-IsWellFormed found.0 w.uuid a.library good

move_line-IsWellFormed :
    (found : Option (String × ChecklistLine)) (key uuid : String) (l : Library)
    → IsWellFormed l
    → IsWellFormed (record l { records = move_line found key uuid l.records })
unfolding move_line
move_line-IsWellFormed none key uuid l good = good
move_line-IsWellFormed (some found) key uuid l good = elim (Bool-cases (found.0 == key)) [
  | inl same ↦ rw (same, move_line) good
  | inr other ↦ rw (other, move_line) (take_out-IsWellFormed found.0 uuid l good)
]

replacement-IsCoherentLine :
    (w : Write) (line : Option ChecklistLine) (lines : List ChecklistLine)
    → IsCoherentLine (replacement w line lines)
unfolding replacement new_line
replacement-IsCoherentLine w line lines = refl

set_line-IsWellFormed :
    (w : Write) (found : Option (String × ChecklistLine)) (key : String) (item : Record)
    (a : Applied)
    → IsWellFormed a.library
    → IsWellFormed (set_line w found key item a).library
unfolding set_line
set_line-IsWellFormed w found key item a good =
    let old = Option.map (λ f. f.1) found in
    put_line-IsWellFormed key (replacement w old item.checklists) _
      (replacement-IsCoherentLine w old item.checklists)
      (move_line-IsWellFormed found key w.uuid a.library good)

add_to-IsWellFormed :
    (w : Write) (found : Option (String × ChecklistLine)) (target : Option (String × Record))
    (a b : Applied)
    → IsWellFormed a.library
    → add_to w found target a ≡ ok b
    → IsWellFormed b.library
unfolding add_to
add_to-IsWellFormed w found none a b good e = absurd cc
add_to-IsWellFormed w found (some target) a b good e =
    let (_, _, is) =
      >>=-eq-ok (raise_if (not (kind_eq target.1.kind Kind.task)) no_task_parent) _ e in
    rw (← ok_inj is) (set_line-IsWellFormed w found target.0 target.1 a good)

pub checklist_item-IsWellFormed :
    (w : Write) (a b : Applied)
    → IsWellFormed a.library
    → checklist_item w a ≡ ok b
    → IsWellFormed b.library
unfolding checklist_item add_line
checklist_item-IsWellFormed w a b good e =
    let found = find_checklist w.uuid a.library in
    elim (Bool-cases w.checklist_remove) [
      | inl remove ↦
          let is : remove_line w found a ≡ b = ground arith in
          rw (← is) (remove_line-IsWellFormed w found a good)
      | inr keep ↦
          add_to-IsWellFormed w found (destination_item w found a.library.records) a b good
            (ground arith)
    ]
