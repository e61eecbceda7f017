-- ===== src/Cloud/Planner/Edits.antt =====
-- The `"ix"` of the payload of an edit.
use things3_orchestrator.Prelude.{
  if◌then◌else◌, Bool-cases, ℤ, pos, err, ok, ◌>>=◌, >>=-eq-ok, ok_inj, Result-cases, ℕ, String,
  ◌≡◌, refl, inl, inr, Bool, true, false, ◌||◌, Option, arith,
}
use things3_orchestrator.Json.{Float, JsonValue, null, int, float, Fields, empty, field, put}
use things3_orchestrator.Calendar.{Date, timestamp}
use things3_orchestrator.Library.Types.{Record, EditAction, Write}
use things3_orchestrator.Library.Queries.{is_none, or_else}
use things3_orchestrator.Cloud.Values.{Folded}
use things3_orchestrator.Cloud.Payload.{texts, flag_value, offset_of, schedule}
use things3_orchestrator.Cloud.Envelope.{updated, unscheduled_payload, placement}
use things3_orchestrator.Cloud.Edited.{
  update_fields, with_schedule, update_day, update_deadline, update_remind, asks_place,
  update_payload, edit_payload,
}
use things3_orchestrator.Recurrence.Transition.{put_given}
use things3_orchestrator.Cloud.Planner.Index.{
  ix_fits, ix_fits-put, ix_fits-updated, ix_fits-given, sort_positive, ix_fits-schedule, fields_fit,
  ix_fits-placement, ix_fits-unscheduled,
}

-- a payload that is made, if it is, with such an index
unfoldable result_fits : Folded Fields → Bool
result_fits (err e) = true
result_fits (ok d) = ix_fits d

result_of :
    (r : Folded Fields) (out : Fields) → result_fits r ≡ true → r ≡ ok out → ix_fits out ≡ true
unfolding result_fits
result_of (err e) out h is = absurd cc
result_of (ok d) out h is = rw (← ok_inj is) h

either :
    (b : Bool) (r s : Folded Fields)
    → result_fits r ≡ true
    → result_fits s ≡ true
    → result_fits (if b then r else s) ≡ true
either true r s h k = h
either false r s h k = k

then_put :
    (r : Folded Fields) (v : JsonValue)
    → result_fits r ≡ true
    → result_fits (r >>= λ scheduled. ok (put "sb" v scheduled)) ≡ true
unfolding result_fits
then_put (err e) v h = refl
then_put (ok d) v h = ix_fits-put "sb" v d h refl

schedule_fits :
    (start : Date) (remind : Option String) (today : Date) (d : Fields)
    → ix_fits d ≡ true
    → result_fits (with_schedule start remind today d) ≡ true
unfolding with_schedule result_fits
schedule_fits start remind today d h = elim (Result-cases (offset_of remind)) [
  | inl (offset, made) ↦
      rw made
        (ix_fits-updated d (schedule start offset today) h (ix_fits-schedule start offset today))
  | inr (e, raised) ↦ rw raised refl
]

update_day_fits :
    (w : Write) (today : Date) (d : Fields)
    → ix_fits d ≡ true
    → result_fits (update_day w today d) ≡ true
unfolding update_day result_fits
update_day_fits w today d h =
    let day = or_else w.start today in
    let evening = schedule_fits day w.remind today d h in
    let timed = with_schedule day w.remind today d in
    let off = λ (n : ℤ). ix_fits-updated d (unscheduled_payload n) h (ix_fits-unscheduled n) in
    either w.someday _ _ (off (pos 2)) (
      either w.anytime _ _ (off (pos 1)) (
        either w.tonight _ _ (then_put timed (int (pos 1)) evening) (
          either w.clear_start _ _ (off (pos 1))
            (either (is_none w.start) (ok d) _ h (then_put timed (flag_value w.tonight) evening)))))

update_remind_fits :
    (w : Write) (today : Date) (d : Fields)
    → ix_fits d ≡ true
    → result_fits (update_remind w today d) ≡ true
unfolding update_remind result_fits ix_fits
update_remind_fits w today d h =
    either w.clear_remind _ _ (ix_fits-updated d (field "ato" null (field "rmd" null empty)) h refl)
      (either (is_none w.remind || is_none w.start) (ok d) _ h
        (schedule_fits (or_else w.start today) w.remind today d h))

deadline_fits : (w : Write) (d : Fields) → ix_fits d ≡ true → ix_fits (update_deadline w d) ≡ true
deadline_fits w d h = elim (Bool-cases w.clear_deadline) [
  | inl clear ↦ rw clear (ix_fits-put "dd" null d h refl)
  | inr other ↦ rw other (ix_fits-given (λ day. int (timestamp day)) "dd" w.deadline d h refl)
]

pub ix_fits-update_payload :
    (crc32 : String → ℕ) (w : Write) (current : Option Record) (today : Date) (now : Float)
    (out : Fields)
    → sort_positive w.sort_index ≡ true
    → update_payload crc32 w current today now ≡ ok out
    → ix_fits out ≡ true
unfolding update_payload ix_fits
ix_fits-update_payload crc32 w current local_today now out positive is =
    let today = or_else w.owner_today local_today in
    let start = field "md" (float now) empty in
    let fields = update_fields crc32 w now start in
    let (scheduled, s, last) = >>=-eq-ok (update_day w today fields) _ is in
    let (reminded, r, end) =
      >>=-eq-ok (update_remind w today (update_deadline w scheduled)) _ last in
    let fit =
      result_of _ scheduled
        (update_day_fits w today fields (fields_fit crc32 w now start positive refl)) s in
    let fits =
      result_of _ reminded (update_remind_fits w today _ (deadline_fits w scheduled fit)) r in
    elim (Bool-cases (asks_place w)) [
      | inl on ↦
          let is : updated reminded (placement w current) ≡ out = ground arith in
          rw (← is)
            (ix_fits-updated reminded (placement w current) fits (ix_fits-placement w current))
      | inr off ↦ let is : reminded ≡ out = ground arith in rw (← is) fits
    ]

pub ix_fits-edit_payload :
    (crc32 : String → ℕ) (action : EditAction) (w : Write) (current : Option Record) (today : Date)
    (now : Float) (out : Fields)
    → sort_positive w.sort_index ≡ true
    → edit_payload crc32 action w current today now ≡ ok out
    → ix_fits out ≡ true
unfolding edit_payload ix_fits
ix_fits-edit_payload crc32 EditAction.rename_area w current today now out positive is =
    rw (← ok_inj is) refl
ix_fits-edit_payload crc32 EditAction.move w current today now out positive is = rw (← ok_inj is) (
    ix_fits-updated (field "md" (float now) empty) (placement w current) refl
      (ix_fits-placement w current))
ix_fits-edit_payload crc32 EditAction.update w current today now out positive is =
    ix_fits-update_payload crc32 w current today now out positive is
ix_fits-edit_payload crc32 EditAction.tags w current today now out positive is =
    elim (Bool-cases (is_none w.tag_uuids)) [
      | inl missing ↦ ix_fits-update_payload crc32 w current today now out positive (ground arith)
      | inr there ↦
          let is : put_given texts "tg" w.tag_uuids (field "md" (float now) empty) ≡ out =
            ground arith in
          rw (← is) (ix_fits-given texts "tg" w.tag_uuids (field "md" (float now) empty) refl refl)
    ]
