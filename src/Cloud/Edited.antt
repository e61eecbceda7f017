-- ===== src/Cloud/Edited.antt =====
-- The payload of an edit, as `edit` of `_CloudEnvelopeHandler` makes it. `today` is the local date,
-- `now` the time stamp of the clock.
use things3_orchestrator.Prelude.{
  if◌then◌else◌, pos, ok, ◌>>=◌, ℕ, String, Bool, not, ◌||◌, Option, none, some,
}
use things3_orchestrator.Json.{Float, JsonValue, null, int, float, str, Fields, empty, field, put}
use things3_orchestrator.Calendar.{Date, timestamp}
use things3_orchestrator.Library.Types.{Status, Record, EditAction, Write}
use things3_orchestrator.Library.Queries.{status_eq, is_none, or_else}
use things3_orchestrator.Cloud.Values.{Folded}
use things3_orchestrator.Cloud.Note.{new_note}
use things3_orchestrator.Cloud.Payload.{
  texts, text_value, flag_value, status_code, offset_of, schedule,
}
use things3_orchestrator.Cloud.Envelope.{updated, unscheduled_payload, placement}
use things3_orchestrator.Recurrence.Transition.{put_given}

-- `now if status != "open" else None`
abbrev pub settled_at : Status → Float → JsonValue
settled_at status now = if status_eq status Status.opened then null else float now

abbrev pub update_status : Option Status → Float → Fields → Fields
update_status none now payload = payload
update_status (some status) now payload =
    put "sp" (settled_at status now) (put "ss" (int (status_code status)) payload)

-- what the write sets before the schedule
unfoldable pub update_fields : (String → ℕ) → Write → Float → Fields → Fields
unfolding new_note status_code
update_fields crc32 w now payload =
    let d1 = update_status w.status now payload in
    let d2 = put_given str "tt" w.title d1 in
    let d3 = put_given (new_note crc32) "nt" w.notes d2 in
    let d4 = put_given texts "tg" w.tag_uuids d3 in
    let d5 = put_given int "ix" w.sort_index d4 in put_given int "ti" w.today_index d5

-- `payload.update(_schedule(start, remind, today=today))`
unfoldable pub with_schedule : Date → Option String → Date → Fields → Folded Fields
unfolding offset_of schedule updated
with_schedule start remind today payload = do
  offset ← offset_of remind
  ok (updated payload (schedule start offset today))

-- the day of the item: Someday, Anytime, tonight, no day, or a day
unfoldable pub update_day : Write → Date → Fields → Folded Fields
unfolding updated unscheduled_payload with_schedule
update_day w today payload =
    let evening = with_schedule (or_else w.start today) w.remind today payload in
    if w.someday
    then ok (updated payload (unscheduled_payload (pos 2)))
    else if w.anytime
    then ok (updated payload (unscheduled_payload (pos 1)))
    else if w.tonight
    then (do scheduled ← evening; ok (put "sb" (int (pos 1)) scheduled))
    else if w.clear_start
    then ok (updated payload (unscheduled_payload (pos 1)))
    else if is_none w.start
    then ok payload
    else (do scheduled ← evening; ok (put "sb" (flag_value w.tonight) scheduled))

abbrev pub update_deadline : Write → Fields → Fields
update_deadline w payload =
    if w.clear_deadline
    then put "dd" null payload
    else put_given (λ d. int (timestamp d)) "dd" w.deadline payload

unfoldable pub update_remind : Write → Date → Fields → Folded Fields
unfolding updated with_schedule
update_remind w today payload =
    if w.clear_remind
    then ok (updated payload (field "ato" null (field "rmd" null empty)))
    else if is_none w.remind || is_none w.start
    then ok payload
    else with_schedule (or_else w.start today) w.remind today payload

-- the write asks for a place
unfoldable pub asks_place : Write → Bool
asks_place w =
    not (is_none w.into_uuid)
    || not (is_none w.into_kind)
    || w.inbox
    || w.anytime
    || not (is_none w.heading_uuid)
    || w.clear_heading

-- the payload of an "update"
unfoldable pub update_payload : (String → ℕ) → Write → Option Record → Date → Float → Folded Fields
unfolding update_fields update_day update_remind asks_place updated placement
update_payload crc32 w current local_today now = do
  let today = or_else w.owner_today local_today
  scheduled ← update_day w today (update_fields crc32 w now (field "md" (float now) empty))
  reminded ← update_remind w today (update_deadline w scheduled)
  ok (if asks_place w then updated reminded (placement w current) else reminded)

-- the payload of an edit
unfoldable pub edit_payload :
    (String → ℕ) → EditAction → Write → Option Record → Date → Float → Folded Fields
unfolding update_payload updated placement
edit_payload crc32 EditAction.rename_area w current today now =
    ok (field "tt" (text_value w.title) (field "md" (float now) empty))
edit_payload crc32 EditAction.tags w current today now =
    if is_none w.tag_uuids
    then update_payload crc32 w current today now
    else ok (put_given texts "tg" w.tag_uuids (field "md" (float now) empty))
edit_payload crc32 EditAction.move w current today now =
    ok (updated (field "md" (float now) empty) (placement w current))
edit_payload crc32 EditAction.update w current today now = update_payload crc32 w current today now
