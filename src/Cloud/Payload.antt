-- ===== src/Cloud/Payload.antt =====
-- The payloads of cloud.py: `_create_payload` and `_schedule`. `today` is the local date, `now` the
-- time stamp of the clock.
use things3_orchestrator.Prelude.{
  leb, if◌then◌else◌, ℤ, pos, err, ok, ◌>>=◌, ℕ, String, Bool, false, ◌||◌, Option, none, some,
  List, [], ◌∷◌, map,
}
use things3_orchestrator.Json.{
  Float, JsonValue, null, bool, int, float, str, list, dict, Fields, empty, field, put, items,
}
use things3_orchestrator.Calendar.{Date, timestamp}
use things3_orchestrator.Library.Types.{Kind, Status, Write}
use things3_orchestrator.Library.Queries.{kind_eq, is_kind, is_none, truthy_text, or_else}
use things3_orchestrator.Library.Handler.{settles}
use things3_orchestrator.Cloud.Values.{bad_number, Folded}
use things3_orchestrator.Cloud.Note.{new_note}
use things3_orchestrator.Cloud.Reminder.{offset_from_remind}

-- a dict, in the order written
unfoldable pub fields_of : List (String × JsonValue) → Fields
fields_of [] = empty
fields_of ((key, v) ∷ rest) = field key v (fields_of rest)

abbrev pub texts : List String → JsonValue
texts ts = list (items (map str ts))

abbrev pub text_value : Option String → JsonValue
text_value none = null
text_value (some t) = str t

abbrev pub int_value : Option ℤ → JsonValue
int_value none = null
int_value (some n) = int n

-- `day_ts(day) if day else None`
abbrev pub stamp_value : Option Date → JsonValue
stamp_value none = null
stamp_value (some d) = int (timestamp d)

-- `[uuid] if uuid else []`
abbrev pub one_text : Option String → JsonValue
one_text t = if truthy_text t then texts (or_else t "" ∷ []) else texts []

abbrev pub flag_value : Bool → JsonValue
flag_value b = int (if b then pos 1 else pos 0)

abbrev pub rule_or_null : Option Fields → JsonValue
rule_or_null none = null
rule_or_null (some rule) = dict rule

-- `{"sn": {}, "_t": "oo"}`
unfoldable pub extra : JsonValue
extra = dict (field "sn" (dict empty) (field "_t" (str "oo") empty))

-- `_status_code`
unfoldable pub status_code : Status → ℤ
status_code Status.done = pos 3
status_code Status.dropped = pos 2
status_code Status.opened = pos 0

-- the `"st"` of `_schedule`: the day has come, or it is ahead
unfoldable pub start_state : Date → Date → ℤ
start_state start today = if leb start today then pos 1 else pos 2

-- `offset_from_remind`, which raises at a text that is no time
unfoldable pub offset_of : Option String → Folded (Option ℤ)
offset_of none = ok none
offset_of (some remind) = elim (offset_from_remind remind) [
  | none ↦ err bad_number
  | some n ↦ ok (some (pos n))
]

-- `_schedule`, with the offset of the reminder if there is one
unfoldable pub schedule : Date → Option ℤ → Date → Fields
unfolding start_state
schedule start offset today =
    let stamp = int (timestamp start) in
    let reminder : Fields = elim offset [
      | none ↦ empty
      | some n ↦ field "rmd" stamp (field "ato" (int n) empty)
    ] in
    field "st" (int (start_state start today)) (field "sr" stamp (field "tir" stamp reminder))

-- the `"st"` of `_create_payload`
unfoldable pub list_state : Write → Date → ℤ
unfolding start_state
list_state w today = if w.tonight then pos 1 else elim w.start [
  | some start ↦ start_state start today
  | none ↦
      if w.someday
      then pos 2
      else if kind_eq w.kind Kind.project
          || w.anytime
          || is_kind w.into_kind Kind.project
          || is_kind w.into_kind Kind.area
      then pos 1
      else pos 0
]

-- the Project of the payload, and the area
unfoldable pub project_of : Write → JsonValue
project_of w = if is_kind w.into_kind Kind.project then one_text w.into_uuid else texts []

unfoldable pub area_of : Write → JsonValue
area_of w = if is_kind w.into_kind Kind.area then one_text w.into_uuid else texts []

-- the reminder's date
reminder_date : Write → Option ℤ → JsonValue
reminder_date w none = null
reminder_date w (some n) = stamp_value w.start

-- `"tp"`, which `create` overwrites for a heading
unfoldable pub type_code : Bool → Kind → ℤ
type_code is_heading kind =
    if is_heading then pos 2 else if kind_eq kind Kind.project then pos 1 else pos 0

area_type : Bool → Fields → Fields
area_type is_heading payload = if is_heading then put "tp" (int (pos 2)) payload else payload

module _ (crc32 : String → ℕ) where
  unfoldable pub note_value : Option String → JsonValue
  unfolding new_note
  note_value notes = if truthy_text notes then new_note crc32 (or_else notes "") else null

  -- `_create_payload` of an item that is no area
  unfoldable pub item_payload : ℤ → Write → Option ℤ → Date → Float → Fields
  unfolding fields_of list_state project_of area_of status_code reminder_date note_value extra
  item_payload type_code w offset today now = fields_of (
      ("tp", int type_code)
      ∷ ("sr", stamp_value w.start)
      ∷ ("dds", null)
      ∷ ("rt", texts (or_else w.recurrence_links []))
      ∷ ("rmd", reminder_date w offset)
      ∷ ("ss", int (status_code (or_else w.status Status.opened)))
      ∷ ("tr", bool false)
      ∷ ("dl", texts [])
      ∷ ("icp", bool (or_else w.recurrence_paused false))
      ∷ ("st", int (list_state w today))
      ∷ ("ar", area_of w)
      ∷ ("tt", text_value w.title)
      ∷ ("do", int (pos 0))
      ∷ ("lai", null)
      ∷ ("tir", stamp_value w.start)
      ∷ ("tg", texts (or_else w.tag_uuids []))
      ∷ ("agr", one_text w.heading_uuid)
      ∷ ("ix", int (or_else w.sort_index (pos 0)))
      ∷ ("cd", float now)
      ∷ ("lt", bool w.leavable)
      ∷ ("icc", int (or_else w.recurrence_instance_count (pos 0)))
      ∷ ("md", null)
      ∷ ("ti", int (or_else w.today_index (pos 0)))
      ∷ ("dd", stamp_value w.deadline)
      ∷ ("ato", int_value offset)
      ∷ ("nt", note_value w.notes)
      ∷ ("icsd", stamp_value w.recurrence_created_through)
      ∷ ("pr", project_of w)
      ∷ ("rp", null)
      ∷ ("acrd", null)
      ∷ ("sp", if settles w.status then float now else null)
      ∷ ("sb", flag_value w.tonight)
      ∷ ("rr", rule_or_null w.recurrence_rule)
      ∷ ("xx", extra)
      ∷ [])

  area_payload : Write → Fields
  unfolding extra fields_of
  area_payload w = fields_of (
      ("tt", text_value w.title)
      ∷ ("ix", int (or_else w.sort_index (pos 0)))
      ∷ ("tg", texts (or_else w.tag_uuids []))
      ∷ ("md", null)
      ∷ ("xx", extra)
      ∷ [])

  -- the payload of a creation: `_create_payload`, and the type of a heading
  unfoldable pub create_payload : Bool → Write → Date → Float → Folded Fields
  unfolding item_payload area_payload area_type offset_of type_code
  create_payload is_heading w today now = do
    offset ← offset_of (if is_none w.start || kind_eq w.kind Kind.area then none else w.remind)
    ok (
        if kind_eq w.kind Kind.area
        then area_type is_heading (area_payload w)
        else item_payload (type_code is_heading w.kind) w offset (or_else w.owner_today today) now)
