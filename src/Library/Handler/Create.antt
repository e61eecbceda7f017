-- ===== src/Library/Handler/Create.antt =====
-- The `create` of `_MemoryApplyHandler`.
use things3_orchestrator.Prelude.{
  if◌then◌else◌, ℤ, pos, Result, err, ok, ◌>>=◌, ℕ, String, Bool, true, false, not, ◌&&◌, Option,
  none, some, List, [], ◌∷◌, map,
}
use things3_orchestrator.Json.{JsonValue, null, bool, str, list, dict, Fields, items}
use things3_orchestrator.Library.Types.{
  Kind, Status, NotesSource, NotesFormat, Record, Write, Error, project_in_inbox,
}
use things3_orchestrator.Library.Ids.{public_id}
use things3_orchestrator.Library.Queries.{kind_eq, is_kind, is_none, or_else, record_id, next_index}
use things3_orchestrator.Recurrence.Types.{RecurrenceState, no_recurrence}
use things3_orchestrator.Recurrence.Fold.{fold_rule, fold_paused, fold_links}
use things3_orchestrator.Library.Handler.{Applied, verify, add_created, save, completion}

unfoldable pub starts_in_inbox : Write → Bool
starts_in_inbox w =
    is_none w.into_uuid
    && kind_eq w.kind Kind.task
    && not w.someday
    && not w.tonight
    && is_none w.start
    && not w.anytime
    && not w.inbox

-- Inbox, Project and area of a new item
unfoldable pub new_place : Write → Result Error (Bool × Option String × Option String)
unfolding starts_in_inbox
new_place w =
    if kind_eq w.kind Kind.area
    then ok (false, none, none)
    else if w.inbox
    then (if kind_eq w.kind Kind.project then err project_in_inbox else ok (true, none, none))
    else if is_kind w.into_kind Kind.project
    then ok (false, w.into_uuid, none)
    else if is_kind w.into_kind Kind.area
    then ok (false, none, w.into_uuid)
    else ok (starts_in_inbox w, none, none)

abbrev pub rule_value : Option Fields → JsonValue
rule_value none = null
rule_value (some rule) = dict rule

abbrev pub pause_value : Option Bool → JsonValue
pause_value none = null
pause_value (some b) = bool b

abbrev pub text_items : List String → JsonValue
text_items links = list (items (map str links))

abbrev pub is_empty {ℓ} : {A : Type ℓ} → List A → Bool
is_empty [] = true
is_empty (x ∷ xs) = false

abbrev pub given_links : Option (List String) → List String
given_links links = or_else links []

module _ (py_str : JsonValue → String) where
  unfoldable pub new_recurrence : Write → RecurrenceState
  unfolding fold_rule fold_links fold_paused
  new_recurrence w =
      let ruled = fold_rule (rule_value w.recurrence_rule) no_recurrence in
      let linked =
        if is_empty (given_links w.recurrence_links)
        then ruled
        else fold_links py_str (text_items (given_links w.recurrence_links)) ruled in
      fold_paused (pause_value w.recurrence_paused) linked

  unfoldable pub new_record : Write → Bool → Option String × Option String → Bool → ℤ → ℕ → Record
  unfolding new_recurrence
  new_record w inbox place is_heading index now = record {
    uuid = w.uuid;
    kind = w.kind;
    title = or_else w.title "";
    notes = or_else w.notes "";
    notes_source = if is_none w.notes then NotesSource.no_source else NotesSource.structured;
    notes_format = NotesFormat.markdown;
    status = or_else w.status Status.opened;
    completed_at = completion w.status now;
    trashed = false;
    inbox = inbox && not w.someday && not w.tonight;
    start = w.start;
    deadline = w.deadline;
    remind = w.remind;
    tonight = w.tonight;
    parent_uuid = place.0;
    area_uuid = place.1;
    tag_uuids = or_else w.tag_uuids [];
    recurrence = new_recurrence w;
    repeater = null;
    recurrence_created_through = w.recurrence_created_through;
    recurrence_instance_count = or_else w.recurrence_instance_count (pos 0);
    recurrence_instance_count_known = true;
    recurrence_paused_known = true;
    recurrence_completed_on = w.recurrence_completed_on;
    recurrence_next_on = w.recurrence_next_on;
    recurrence_generated_on =
        (if w.leavable && not (is_empty (given_links w.recurrence_links)) then w.start else none);
    recurrence_generated_on_known = true;
    heading = is_heading;
    heading_uuid = w.heading_uuid;
    someday = w.someday;
    sort_index = index;
    today_index = or_else w.today_index (pos 0);
    entity = "";
    leavable = w.leavable;
    checklists = [];
  }

  unfoldable pub create_at :
      Write → Bool → ℕ → Bool × Option String × Option String → Applied → Applied
  unfolding new_record next_index public_id
  create_at w is_heading now (inbox, project_uuid, area_uuid) a =
      let item =
        new_record w inbox (project_uuid, area_uuid) is_heading
          (or_else w.sort_index (next_index w a.library)) now in
      verify item.title (add_created item.title (record_id item) (save item.uuid item a))

  -- `create`
  unfoldable pub create_item : Write → Bool → ℕ → Applied → Result Error Applied
  unfolding new_place create_at
  create_item w is_heading now a = do place ← new_place w; ok (create_at w is_heading now place a)
