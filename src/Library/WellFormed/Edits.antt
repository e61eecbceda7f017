-- ===== src/Library/WellFormed/Edits.antt =====
-- The `edit` and the `create` of `_MemoryApplyHandler` on well-formed libraries.
use things3_orchestrator.Library.Handler.{Applied}
use things3_orchestrator.Prelude.{
  Bool-cases, ok, >>=-eq-ok, ok_inj, lookup, ℕ, String, ◌≡◌, refl, ◌∙◌, inl, inr, Bool, true, not,
  ◌&&◌, Option, none, some, arith,
}
use things3_orchestrator.Calendar.{Date, day}
use things3_orchestrator.Library.Types.{Record, EditAction, Write}
use things3_orchestrator.Library.Handler.Edit.{
  place_item, move_item, set_fields, started, set_start, set_tonight, set_anytime, set_dates,
  set_schedule, moves, update_item, rename_item, edit_record, edit_found, edit_item,
}
use things3_orchestrator.Library.WellFormed.{
  placed, IsGood, IsWellFormed, save-IsWellFormed, found-IsGood,
}

-- what an edit must keep: the uuid and the rows, and one place
abbrev pub Keeps : Record → Record → Type 0
Keeps item next =
    (next.uuid ≡ item.uuid) × (placed next ≡ true) × (next.checklists ≡ item.checklists)

started-placed :
    (day : Option Date) (tonight : Bool) (item : Record)
    → placed item ≡ true
    → Keeps item (started day tonight item)
unfolding started placed
started-placed none tonight item h = (refl, h, refl)
started-placed (some day) tonight item h = (refl, ground arith, refl)

set_start-placed : (w : Write) (item : Record) → placed item ≡ true → Keeps item (set_start w item)
unfolding set_start placed
set_start-placed w item h = elim (Bool-cases w.clear_start) [
  | inl clear ↦ rw clear (refl, ground arith, refl)
  | inr keep ↦ rw keep (elim (Bool-cases w.someday) [
    | inl later ↦ rw later (refl, ground arith, refl)
    | inr now ↦ rw now (started-placed w.start w.tonight item h)
  ])
]

set_tonight-placed :
    (w : Write) (item : Record) → placed item ≡ true → Keeps item (set_tonight w item)
unfolding set_tonight placed
set_tonight-placed w item h = elim (Bool-cases (w.tonight && not w.someday)) [
  | inl on ↦ rw on (refl, ground arith, refl)
  | inr off ↦ rw off (refl, h, refl)
]

set_anytime-placed :
    (w : Write) (item : Record) → placed item ≡ true → Keeps item (set_anytime w item)
unfolding set_anytime placed
set_anytime-placed w item h = elim (Bool-cases w.anytime) [
  | inl on ↦ rw on (refl, ground arith, refl)
  | inr off ↦ rw off (refl, h, refl)
]

Keeps-trans : (a b c : Record) → Keeps a b → Keeps b c → Keeps a c
Keeps-trans a b c h k = (k.0 ∙ h.0, k.1, k.2 ∙ h.2)

pub set_schedule-placed :
    (w : Write) (item : Record) → placed item ≡ true → Keeps item (set_schedule w item)
unfolding set_schedule set_dates placed
set_schedule-placed w item h =
    let first = set_start w item in
    let second = set_tonight w first in
    let a = set_start-placed w item h in
    let b = Keeps-trans item first second a (set_tonight-placed w first a.1) in
    Keeps-trans item second (set_anytime w second) b (set_anytime-placed w second b.1)

place_item-uuid :
    (w : Write) (item next : Record) → place_item w item ≡ ok next → next.uuid ≡ item.uuid
unfolding place_item
place_item-uuid w item next moved = ground arith

place_item-rows :
    (w : Write) (item next : Record)
    → place_item w item ≡ ok next
    → next.checklists ≡ item.checklists
unfolding place_item
place_item-rows w item next moved = ground arith

place_item-placed :
    (w : Write) (item next : Record)
    → placed item ≡ true
    → place_item w item ≡ ok next
    → placed next ≡ true
unfolding place_item placed
place_item-placed w item next h moved = ground arith

move_item-placed :
    (w : Write) (item next : Record)
    → placed item ≡ true
    → move_item w item ≡ ok next
    → Keeps item next
unfolding move_item placed
move_item-placed w item next h moved =
    let aimed = record item { heading_uuid = w.heading_uuid } in
    (
      place_item-uuid w aimed next moved,
      place_item-placed w aimed next h moved,
      place_item-rows w aimed next moved,
    )

update_item-placed :
    (w : Write) (now : ℕ) (item next : Record)
    → placed item ≡ true
    → update_item w now item ≡ ok next
    → Keeps item next
unfolding update_item set_fields placed
update_item-placed w now item next h updated =
    let fields = set_fields w now item in
    let changed = set_schedule w fields in
    let a : Keeps item changed = set_schedule-placed w fields h in
    elim (Bool-cases (moves w)) [
      | inl on ↦
          let moved : move_item w changed ≡ ok next = ground arith in
          Keeps-trans item changed next a (move_item-placed w changed next a.1 moved)
      | inr off ↦ let is : changed ≡ next = ground arith in rw (← is) a
    ]

edit_record-placed :
    (action : EditAction) (w : Write) (now : ℕ) (item next : Record)
    → placed item ≡ true
    → edit_record action w now item ≡ ok next
    → Keeps item next
unfolding edit_record rename_item placed
edit_record-placed EditAction.update w now item next h e = update_item-placed w now item next h e
edit_record-placed EditAction.move w now item next h e = move_item-placed w item next h e
edit_record-placed EditAction.tags w now item next h e = rw (← ok_inj e) (refl, h, refl)
edit_record-placed EditAction.rename_area w now item next h e =
    (ground arith, ground arith, ground arith)

pub Keeps-IsGood :
    (key : String) (item next : Record) → IsGood key item → Keeps item next → IsGood key next
Keeps-IsGood key item next g k = (k.0 ∙ g.0, k.1, rw (k.2) g.2)

edit_found-IsWellFormed :
    (action : EditAction) (w : Write) (now : ℕ) (found : Option Record) (a b : Applied)
    → lookup w.uuid a.library.records ≡ found
    → IsWellFormed a.library
    → edit_found action w now found a ≡ ok b
    → IsWellFormed b.library
unfolding edit_found
edit_found-IsWellFormed action w now none a b at good edited = rw (← ok_inj edited) good
edit_found-IsWellFormed action w now (some item) a b at good edited =
    let (next, e, is) = >>=-eq-ok (edit_record action w now item) _ edited in
    let g = found-IsGood a.library good w.uuid at in
    let kept = edit_record-placed action w now item next g.1 e in
    rw (← ok_inj is)
      (save-IsWellFormed a.library good w.uuid next (Keeps-IsGood w.uuid item next g kept))

pub edit_item-IsWellFormed :
    (action : EditAction) (w : Write) (now : ℕ) (a b : Applied)
    → IsWellFormed a.library
    → edit_item action w now a ≡ ok b
    → IsWellFormed b.library
unfolding edit_item
edit_item-IsWellFormed action w now a b =
    edit_found-IsWellFormed action w now (lookup w.uuid a.library.records) a b refl
