-- ===== src/Cloud/Tests.antt =====
-- Concrete runs of the payloads and the fold, and the theorems on them.
use things3_orchestrator.Library.Ids.{compile_mutation}
use things3_orchestrator.Cloud.Envelope.{Envelope, updated}
use things3_orchestrator.Cloud.Edited.{
  update_fields, update_day, update_remind, asks_place, update_payload, edit_payload,
}
use things3_orchestrator.Cloud.Handler.{entity_of, envelope_of, write_envelope}
use things3_orchestrator.Cloud.Plan.{
  creates, kinds_of, headings_of, deleted_of, heading_move, heading_moves, batch_of,
  with_planned_kind, actual_kind, with_positive_index, heading_planned, prepare,
}
use things3_orchestrator.Cloud.Planner.{
  normalize_item_tags, emit, plan_action, plan_compiled, plan_write, plan_each, plan,
}
use things3_orchestrator.Cloud.Planner.Positive.{ix_positive}
use things3_orchestrator.Cloud.Coalesce.{
  overlay, joined, coalesce_one, coalesce, coalesce_envelopes, distinct,
}
use things3_orchestrator.Cloud.Coalesce.Merged.{coalesce_envelopes-distinct}
use things3_orchestrator.Cloud.Planner.Prepared.{well_named}
use things3_orchestrator.Cloud.Planner.Whole.{plan-ix_positive}
use things3_orchestrator.Prelude.{
  All, ℤ, pos, ok, lookup, insert, ℕ, String, ◌≡◌, refl, true, false, Option, none, some, [], ◌∷◌,
  arith,
}
use things3_orchestrator.Json.{Float, JsonValue, int, str, Fields, empty, field, put}
use things3_orchestrator.Calendar.{Date, timestamp}
use things3_orchestrator.Library.Types.{Kind, Record, Write, new_library}
use things3_orchestrator.Cloud.Values.{from_ts, from_ts-timestamp}
use things3_orchestrator.Cloud.Note.{new_note, apply_note, apply_note-new_note}
use things3_orchestrator.Cloud.Reminder.{native_reminder, offset_from_remind}
use things3_orchestrator.Cloud.Fold.{new_item, fold_item}
use things3_orchestrator.Cloud.Payload.{create_payload}
use things3_orchestrator.Cloud.Written.Facts.{day_fits_stamp, remind_reads, filled}
use things3_orchestrator.Cloud.Written.View.{cloud_asks}
use things3_orchestrator.Cloud.Written.Matched.{fold_item-create_payload}
use things3_orchestrator.Library.Tests.{plain_write}
use things3_orchestrator.Library.Verify.Actions.{create_matches}
use things3_orchestrator.Library.Verify.Coherent.{coherent, one_place}
use things3_orchestrator.Library.Verify.Created.{create_asks}

abbrev py_str : JsonValue → String
py_str v = "?"

abbrev int_of_text : String → Option ℤ
int_of_text t = none

-- a check sum that grows with the text
abbrev length_sum : String → ℕ
length_sum t = 7

abbrev day : Date
day = 739000

abbrev new_task : Write
new_task = record (plain_write "create" "T9" Kind.task) {
  title = some "Pay rent";
  notes = some "twice";
  into_kind = some Kind.project;
  into_uuid = some "P1";
  start = some 739010;
  remind = some "09:30";
  tag_uuids = some ("G1" ∷ []);
}

from_ts-timestamp_example : from_ts (int (timestamp day)) ≡ some day
from_ts-timestamp_example = from_ts-timestamp day (omega arith) (omega arith)

apply_note-new_note_example :
    apply_note length_sum (new_note length_sum "twice") none ≡ some "twice"
apply_note-new_note_example = apply_note-new_note length_sum "twice" none

fold_item-create_payload_example :
    (p : Fields) × (item : Record) × (create_payload length_sum false new_task day
        (Float.finite (pos 0))
      ≡ ok p)
    × (fold_item py_str int_of_text length_sum true p (new_item "T9") ≡ ok item)
    × (create_matches false new_task item ≡ true)
unfolding cloud_asks create_asks coherent one_place day_fits_stamp remind_reads offset_from_remind
    filled native_reminder
fold_item-create_payload_example =
    fold_item-create_payload py_str int_of_text length_sum false new_task day (Float.finite (pos 0))
      "T9" refl

abbrev moved_up : Write
moved_up = record (plain_write "update" "T1" Kind.task) { sort_index = some (pos 0) }

abbrev change : Fields → Envelope
change payload = record { uuid = "T1"; action = 1; entity = "Task7"; payload = payload }

abbrev first_place : Envelope
first_place =
    change (field "md" (JsonValue.float (Float.finite (pos 0))) (field "ix" (int (pos 1)) empty))

planned :
    plan (λ s. s) (λ s. s) length_sum day (Float.finite (pos 0)) new_library (moved_up ∷ [])
    ≡ ok (first_place ∷ [])
unfolding plan plan_each batch_of kinds_of headings_of heading_moves heading_move deleted_of creates
    plan_write plan_compiled compile_mutation prepare with_planned_kind actual_kind
    with_positive_index heading_planned plan_action normalize_item_tags emit write_envelope
    envelope_of edit_payload update_payload update_fields update_day update_remind asks_place
    entity_of coalesce_envelopes coalesce coalesce_one joined lookup insert distinct put
planned = refl

plan-ix_positive_example : All (λ e. ix_positive e ≡ true) (first_place ∷ [])
unfolding well_named with_planned_kind actual_kind entity_of batch_of kinds_of creates lookup
plan-ix_positive_example =
    plan-ix_positive (λ s. s) (λ s. s) length_sum day (Float.finite (pos 0)) new_library
      (moved_up ∷ []) (first_place ∷ []) (refl, tt) planned

abbrev titled : Fields
titled = field "tt" (str "Rent") empty

abbrev indexed : Fields
indexed = field "ix" (int (pos 5)) empty

two_as_one :
    coalesce_envelopes (change titled ∷ change indexed ∷ [])
    ≡ ok (change (field "tt" (str "Rent") indexed) ∷ [])
unfolding coalesce_envelopes coalesce coalesce_one joined overlay updated put lookup insert
two_as_one = refl

coalesce_envelopes-distinct_example : distinct ("T1" ∷ []) ≡ true
coalesce_envelopes-distinct_example =
    coalesce_envelopes-distinct (change titled ∷ change indexed ∷ [])
      (change (field "tt" (str "Rent") indexed) ∷ []) two_as_one
