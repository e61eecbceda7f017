-- ===== src/Library/Handler/Edit.antt =====
-- The `edit` of `_MemoryApplyHandler`: the "move" of an item, and its "update" field by field.
use things3_orchestrator.Prelude.{
  if◌then◌else◌, Result, err, ok, ◌>>=◌, lookup, ℕ, String, Bool, true, false, not, ◌&&◌, ◌||◌,
  Option, none, some, List, [], ◌∷◌, ◌++◌,
}
use things3_orchestrator.Calendar.{Date, day}
use things3_orchestrator.Library.Types.{
  Kind, NotesSource, NotesFormat, Record, EditAction, Write, Error, project_in_inbox,
}
use things3_orchestrator.Library.Queries.{kind_eq, is_kind, is_none, truthy_text, or_else}
use things3_orchestrator.Library.Handler.{Applied, save, completion}

-- no start, no reminder, neither tonight nor Someday
abbrev pub unscheduled : Record → Record
unscheduled item = record item { start = none; remind = none; tonight = false; someday = false }

-- "move", after `item.heading_uuid = write.heading_uuid`
unfoldable pub place_item : Write → Record → Result Error Record
place_item w item =
    if is_kind w.into_kind Kind.project
    then ok (record item { parent_uuid = w.into_uuid; area_uuid = none; inbox = false })
    else if is_kind w.into_kind Kind.area
    then ok (record item { area_uuid = w.into_uuid; parent_uuid = none; inbox = false })
    else if kind_eq item.kind Kind.project
    then (if w.inbox
        then err project_in_inbox
        else ok
            (record item { inbox = false; someday = false; parent_uuid = none; area_uuid = none }))
    else ok
        (record (unscheduled item) { parent_uuid = none; area_uuid = none; inbox = not w.anytime })

unfoldable pub move_item : Write → Record → Result Error Record
unfolding place_item
move_item w item = place_item w (record item { heading_uuid = w.heading_uuid })

-- the fields that "update" takes over as they are
unfoldable pub set_fields : Write → ℕ → Record → Record
set_fields w now item = record item {
  heading_uuid = if w.clear_heading then none else item.heading_uuid;
  status = or_else w.status item.status;
  completed_at = if is_none w.status then item.completed_at else completion w.status now;
  title = or_else w.title item.title;
  notes = or_else w.notes item.notes;
  notes_source = if is_none w.notes then item.notes_source else NotesSource.structured;
  notes_format = if is_none w.notes then item.notes_format else NotesFormat.markdown;
  tag_uuids = or_else w.tag_uuids item.tag_uuids;
  sort_index = or_else w.sort_index item.sort_index;
  today_index = or_else w.today_index item.today_index;
}

unfoldable pub started : Option Date → Bool → Record → Record
started none tonight item = item
started (some day) tonight item = record item {
  start = some day;
  someday = false;
  inbox = false;
  tonight = tonight;
}

-- `clear_start`, else `someday`, else `start`
unfoldable pub set_start : Write → Record → Record
unfolding started
set_start w item =
    if w.clear_start
    then unscheduled item
    else if w.someday
    then record item { start = none; remind = none; someday = true; tonight = false; inbox = false }
    else started w.start w.tonight item

unfoldable pub set_tonight : Write → Record → Record
set_tonight w item =
    if w.tonight && not w.someday then record item { tonight = true; inbox = false } else item

unfoldable pub set_anytime : Write → Record → Record
set_anytime w item = if w.anytime then record (unscheduled item) { inbox = false } else item

unfoldable pub set_dates : Write → Record → Record
set_dates w item = record item {
  deadline =
      if w.clear_deadline then none else if is_none w.deadline then item.deadline else w.deadline;
  remind = if w.clear_remind then none else if is_none w.remind then item.remind else w.remind;
}

-- the schedule that "update" leaves
unfoldable pub set_schedule : Write → Record → Record
unfolding set_start set_tonight set_anytime set_dates
set_schedule w item = set_dates w (set_anytime w (set_tonight w (set_start w item)))

unfoldable pub moves : Write → Bool
moves w =
    not (is_none w.into_uuid)
    || not (is_none w.into_kind)
    || w.inbox
    || w.anytime
    || not (is_none w.heading_uuid)

-- "update"
unfoldable pub update_item : Write → ℕ → Record → Result Error Record
unfolding set_fields set_schedule moves move_item
update_item w now item =
    let changed = set_schedule w (set_fields w now item) in
    if moves w then move_item w changed else ok changed

-- "rename_area"
unfoldable pub rename_item : Write → Record → Record
rename_item w item =
    if truthy_text w.title then record item { title = or_else w.title "" } else item

-- the item after the edit
unfoldable pub edit_record : EditAction → Write → ℕ → Record → Result Error Record
unfolding update_item move_item rename_item
edit_record EditAction.rename_area w now item = ok (rename_item w item)
edit_record EditAction.move w now item = move_item w item
edit_record EditAction.tags w now item =
    ok (record item { tag_uuids = or_else w.tag_uuids item.tag_uuids })
edit_record EditAction.update w now item = update_item w now item

-- how often the edit appends the title to `verified`: the move inside an update does so too
unfoldable pub titles : EditAction → Write → String → List String
unfolding moves
titles EditAction.update w title = if moves w then title ∷ title ∷ [] else title ∷ []
titles _ w title = title ∷ []

unfoldable pub edit_found : EditAction → Write → ℕ → Option Record → Applied → Result Error Applied
unfolding edit_record titles
edit_found action w now none a = ok a
edit_found action w now (some item) a = do
  changed ← edit_record action w now item
  ok (record (save w.uuid changed a) { verified = a.verified ++ titles action w changed.title })

-- `edit`
unfoldable pub edit_item : EditAction → Write → ℕ → Applied → Result Error Applied
unfolding edit_found
edit_item action w now a = edit_found action w now (lookup w.uuid a.library.records) a
