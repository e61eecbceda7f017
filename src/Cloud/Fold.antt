-- ===== src/Cloud/Fold.antt =====
-- What `fold_events` of cloud.py does with the payload of a task, a Project or a heading, field by
-- field.
use mathlib.Core.Option
use things3_orchestrator.Prelude.{
  if◌then◌else◌, ℤ, pos, eq_ℤ, ok, ◌>>=◌, ℕ, String, Bool, true, false, not, ◌&&◌, Option, none,
  some, List,
}
use things3_orchestrator.Json.{JsonValue, null, str, Fields, truthy}
use things3_orchestrator.Library.Types.{
  Kind, Status, NotesSource, NotesFormat, Record, plain_record,
}
use things3_orchestrator.Library.Queries.{kind_eq, is_template, is_none, or_else}
use things3_orchestrator.Recurrence.Types.{Role}
use things3_orchestrator.Recurrence.Fold.{fold_payload}
use things3_orchestrator.Cloud.Values.{
  Folded, given, present, bool_of, list_of, as_int, as_text, as_texts, first_text, from_ts,
  native_count,
}
use things3_orchestrator.Cloud.Note.{apply_note}
use things3_orchestrator.Cloud.Reminder.{native_datetime, native_reminder}

-- an item of the kind before its fields are known
unfoldable pub new_item : String → Record
new_item uuid = record (plain_record uuid Kind.task "") {
  recurrence_instance_count_known = false;
  recurrence_paused_known = false;
  recurrence_generated_on_known = false;
}

-- `step(value)` where a value is found
unfoldable pub update_with : {A : Type 0} → (A → Record → Record) → Option A → Record → Record
update_with step none item = item
update_with step (some a) item = step a item

unfoldable pub status_of : ℤ → Status
status_of n =
    if eq_ℤ n (pos 3) then Status.done else if eq_ℤ n (pos 2) then Status.dropped else Status.opened

unfoldable pub typed : ℤ → Record → Record
typed n item = record item {
  heading = eq_ℤ n (pos 2);
  kind = if eq_ℤ n (pos 2) then Kind.task else if eq_ℤ n (pos 1) then Kind.project else Kind.task;
}

-- `_inbox_from_list_state`
unfoldable pub inbox_from_list_state : Record → ℤ → Bool
inbox_from_list_state item n =
    eq_ℤ n (pos 0) && not (kind_eq item.kind Kind.project) && not item.heading

unfoldable pub listed : ℤ → Record → Record
unfolding inbox_from_list_state
listed n item = record item {
  inbox = inbox_from_list_state item n;
  someday = eq_ℤ n (pos 2) && is_none item.start;
}

unfoldable pub source_of : JsonValue → NotesSource
source_of null = NotesSource.no_source
source_of (str s) = NotesSource.legacy
source_of _ = NotesSource.structured

unfoldable pub format_of : JsonValue → Option String → NotesFormat
format_of v none = NotesFormat.unavailable
format_of (str s) (some t) = NotesFormat.plain
format_of _ (some t) = NotesFormat.markdown

unfoldable pub is_unavailable : NotesFormat → Bool
is_unavailable NotesFormat.unavailable = true
is_unavailable _ = false

module _ (crc32 : String → ℕ) where
  unfoldable pub noted : JsonValue → Record → Record
  unfolding source_of format_of is_unavailable apply_note
  noted v item =
      let previous = if is_unavailable item.notes_format then none else some item.notes in
      let text = apply_note crc32 v previous in
      record item {
        notes = or_else text "";
        notes_source = source_of v;
        notes_format = format_of v text;
      }

unfoldable pub begin_on : JsonValue → Record → Record
unfolding from_ts
begin_on v item = record item {
  start = from_ts v;
  someday = if is_none (from_ts v) then item.someday else false;
}

unfoldable pub in_project : Option String → Record → Record
in_project (some uuid) item = record item { parent_uuid = some uuid; area_uuid = none }
in_project none item = record item { parent_uuid = none }

unfoldable pub in_area : Option String → Record → Record
in_area (some uuid) item = record item {
  area_uuid = some uuid;
  parent_uuid = none;
  heading_uuid = none;
}
in_area none item = record item { area_uuid = none }

abbrev pub set_repeater : JsonValue → Record → Record
set_repeater v item = record item { repeater = v }

abbrev pub know_paused : Bool → Record → Record
know_paused paused item = record item { recurrence_paused_known = true }

unfoldable pub set_created : JsonValue → Record → Record
unfolding from_ts
set_created v item = record item { recurrence_created_through = from_ts v }

unfoldable pub set_completed : JsonValue → Record → Record
unfolding from_ts
set_completed v item = record item { recurrence_completed_on = from_ts v }

-- `"icc"`
unfoldable pub count_of : JsonValue → Record → Record
unfolding native_count
count_of v item = elim (native_count v) [
  | none ↦ record item { recurrence_instance_count_known = false }
  | some n ↦ record item { recurrence_instance_count = n; recurrence_instance_count_known = true }
]

unfoldable pub next_on : JsonValue → Record → Record
unfolding from_ts
next_on v item =
    if is_template item.recurrence.role
    then record item { recurrence_next_on = from_ts v }
    else item

unfoldable pub is_instanced : Role → Bool
is_instanced Role.instanced = true
is_instanced _ = false

-- `"lt"`, in the first event of the item or in a later one
unfoldable pub left : Bool → Bool → Record → Record
unfolding is_instanced
left first flag item =
    if not flag
    then record item {
      leavable = false;
      recurrence_generated_on = none;
      recurrence_generated_on_known = true;
    }
    else if first && is_instanced item.recurrence.role
    then record item {
      leavable = true;
      recurrence_generated_on = item.start;
      recurrence_generated_on_known = not (is_none item.start);
    }
    else if not item.leavable
    then record item {
      leavable = true;
      recurrence_generated_on = none;
      recurrence_generated_on_known = false;
    }
    else item

unfoldable pub bool_at : String → Fields → Option Bool
unfolding present bool_of
bool_at key p = elim (present key p) [ none ↦ none | some v ↦ bool_of v ]

module _ (py_str : JsonValue → String) (int_of_text : String → Option ℤ) (crc32 : String → ℕ) where
  -- `int(payload[key])` if it is given
  unfoldable pub int_at : String → Fields → Folded (Option ℤ)
  unfolding given as_int
  int_at key p = elim (given key p) [
    | none ↦ ok none
    | some v ↦ do n ← as_int int_of_text v; ok (some n)
  ]

  unfoldable pub tags_at : Fields → Option (List String)
  unfolding present list_of as_texts
  tags_at p = elim (present "tg" p) [
    | none ↦ none
    | some v ↦ Option.map (as_texts py_str) (list_of v)
  ]

  -- title, note, type and state
  unfoldable pub fold_head : Fields → Option ℤ → Option ℤ → Record → Record
  unfolding update_with given present as_text noted typed status_of native_datetime truthy
  fold_head p type_code status_code item =
      let a = update_with (λ v i. record i { title = as_text py_str v }) (given "tt" p) item in
      let b = update_with (noted crc32) (present "nt" p) a in
      let c = update_with typed type_code b in
      let d = update_with (λ n i. record i { status = status_of n }) status_code c in
      let e =
        update_with (λ v i. record i { completed_at = native_datetime v }) (present "sp" p) d in
      update_with (λ v i. record i { trashed = truthy v }) (given "tr" p) e

  -- dates, reminder, tonight and the two orders
  unfoldable pub fold_dates : Fields → Option ℤ → Option ℤ → Option ℤ → Record → Record
  unfolding update_with present begin_on from_ts native_reminder
  fold_dates p tonight index today_index item =
      let a = update_with begin_on (present "sr" p) item in
      let b = update_with (λ v i. record i { deadline = from_ts v }) (present "dd" p) a in
      let c = update_with (λ v i. record i { remind = native_reminder v }) (present "ato" p) b in
      let d = update_with (λ n i. record i { tonight = eq_ℤ n (pos 1) }) tonight c in
      let e = update_with (λ n i. record i { sort_index = n }) index d in
      update_with (λ n i. record i { today_index = n }) today_index e

  -- Project, area, list, heading and tags
  unfoldable pub fold_place : Fields → Option ℤ → Record → Record
  unfolding update_with present in_project in_area first_text listed tags_at
  fold_place p list_state item =
      let a = update_with (λ v. in_project (first_text py_str v)) (present "pr" p) item in
      let b = update_with (λ v. in_area (first_text py_str v)) (present "ar" p) a in
      let c = update_with listed list_state b in
      let d =
        update_with (λ v i. record i { heading_uuid = first_text py_str v }) (present "agr" p) c in
      update_with (λ ts i. record i { tag_uuids = ts }) (tags_at p) d

  -- the recurrence and what is known of its instances
  unfoldable pub fold_repeat : Bool → Fields → Record → Record
  unfolding update_with present fold_payload bool_at set_created set_completed count_of next_on left
      is_instanced
  fold_repeat first p item =
      let a = record item { recurrence = fold_payload py_str p item.recurrence } in
      let b = update_with set_repeater (present "rp" p) a in
      let c = update_with know_paused (bool_at "icp" p) b in
      let d = update_with set_created (present "icsd" p) c in
      let e = update_with count_of (present "icc" p) d in
      let g = update_with set_completed (present "acrd" p) e in
      let h = update_with next_on (present "tir" p) g in update_with (left first) (bool_at "lt" p) h

  -- the item after the payload; `first` in the event that creates it
  unfoldable pub fold_item : Bool → Fields → Record → Folded Record
  unfolding int_at fold_head fold_dates fold_place fold_repeat
  fold_item first p item = do
    type_code ← int_at "tp" p
    status_code ← int_at "ss" p
    tonight ← int_at "sb" p
    index ← int_at "ix" p
    today_index ← int_at "ti" p
    list_state ← int_at "st" p
    let headed = fold_head p type_code status_code item
    let dated = fold_dates p tonight index today_index headed
    ok (fold_repeat first p (fold_place p list_state dated))
