-- ===== src/Cloud/Handler.antt =====
-- `_CloudEnvelopeHandler` of cloud.py: the envelope of one write.
use mathlib.Core.Option
use things3_orchestrator.Prelude.{
  if◌then◌else◌, ℤ, pos, err, ok, ◌>>=◌, lookup, ℕ, String, ◌==◌, Bool, true, false, not, ◌&&◌,
  ◌||◌, Option, none, some, [], ◌∷◌,
}
use things3_orchestrator.Json.{Float, null, bool, int, float, str, Fields, empty, field, put}
use things3_orchestrator.Calendar.{Date}
use things3_orchestrator.Library.Types.{
  Kind, Status, ChecklistLine, LifecycleAction, TagAction, RepeatAction, Action, create, edit,
  lifecycle, tag, checklist, recurrence, Write, Library,
}
use things3_orchestrator.Library.Queries.{
  kind_eq, is_none, truthy_text, text_or, or_else, find_checklist,
}
use things3_orchestrator.Cloud.Values.{no_tag_title, unplanned_tag, bad_write, Folded}
use things3_orchestrator.Cloud.Payload.{
  fields_of, texts, int_value, stamp_value, one_text, rule_or_null, extra, status_code,
  create_payload,
}
use things3_orchestrator.Library.Ids.{compile_mutation}
use things3_orchestrator.Cloud.Envelope.{Envelope}
use things3_orchestrator.Cloud.Edited.{settled_at, update_status, edit_payload}
use things3_orchestrator.Recurrence.Transition.{put_given}

-- `_entity`
unfoldable pub entity_of : Write → Library → String
entity_of w l =
    if kind_eq w.kind Kind.area
    then elim (lookup w.uuid l.records) [
      | none ↦ "Area3"
      | some item ↦ if item.entity == "" then "Area3" else item.entity
    ]
    else "Task7"

-- `parent.uuid` of a checklist row that was found
unfoldable pub parent_uuid : Option (String × ChecklistLine) → Library → Option String
parent_uuid none l = none
parent_uuid (some found) l = Option.map (λ item. item.uuid) (lookup found.0 l.records)

-- `index` of `checklist`
unfoldable pub row_index : Write → Option (String × ChecklistLine) → ℤ
row_index w found =
    or_else w.checklist_index
      (or_else w.sort_index (elim found [ none ↦ pos 0 | some f ↦ f.1.sort_index ]))

unfoldable pub new_row : Write → Option String → ℤ → Float → Fields
unfolding fields_of status_code extra
new_row w parent index now =
    let status = or_else w.checklist_status Status.opened in
    fields_of (
      ("tt", str (or_else w.title ""))
      ∷ ("ss", int (status_code status))
      ∷ ("sp", settled_at status now)
      ∷ ("ts", one_text parent)
      ∷ ("ix", int index)
      ∷ ("cd", float now)
      ∷ ("md", null)
      ∷ ("lt", bool false)
      ∷ ("xx", extra)
      ∷ [])

unfoldable pub changed_row : Write → ℤ → Float → Fields
unfolding status_code
changed_row w index now =
    let d1 = put_given str "tt" w.title (field "md" (float now) empty) in
    let d2 = update_status w.checklist_status now d1 in
    let d3 = put_given (λ parent. texts (parent ∷ [])) "ts" w.checklist_parent_uuid d2 in
    if is_none w.checklist_index && is_none w.sort_index then d3 else put "ix" (int index) d3

-- `checklist`
unfoldable pub checklist_envelope : Write → Library → Float → Envelope
unfolding parent_uuid row_index new_row changed_row find_checklist
checklist_envelope w l now =
    let found = find_checklist w.uuid l in
    let index = row_index w found in
    let row : Envelope = record {
      uuid = w.uuid;
      action = 2;
      entity = "ChecklistItem3";
      payload = empty;
    } in
    if w.checklist_remove
    then row
    else if is_none found
    then record row {
      action = 0;
      payload = new_row w (text_or w.checklist_parent_uuid (parent_uuid found l)) index now;
    }
    else record row { action = 1; payload = changed_row w index now }

-- `lifecycle`
unfoldable pub lifecycle_envelope : LifecycleAction → Write → Library → Float → Envelope
unfolding entity_of
lifecycle_envelope action w l now =
    let change : Envelope = record {
      uuid = w.uuid;
      action = 1;
      entity = entity_of w l;
      payload = empty;
    } in
    let settled : ℤ → Envelope = λ code. record change {
      payload = field "md" (float now) (field "ss" (int code) (field "sp" (float now) empty));
    } in
    let trashed : Bool → Envelope =
      λ flag. record change { payload = field "tr" (bool flag) (field "md" (float now) empty) } in
    elim action [
      | LifecycleAction.delete_area ↦ record change { action = 2 }
      | LifecycleAction.permanent_delete ↦ record change { action = 2 }
      | LifecycleAction.trash ↦ trashed true
      | LifecycleAction.restore ↦ trashed false
      | LifecycleAction.complete ↦ settled (pos 3)
      | LifecycleAction.cancel ↦ settled (pos 2)
    ]

-- the payload of `recurrence`
unfoldable pub repeat_payload : RepeatAction → Write → Float → Fields
unfolding fields_of
repeat_payload action w now =
    let clock = field "md" (float now) empty in
    let base : Fields = elim action [
      | RepeatAction.repeat_progress ↦
          put "tir" (stamp_value w.recurrence_next_on)
            (put "acrd" (stamp_value w.recurrence_completed_on) clock)
      | RepeatAction.repeat_next ↦ field "icc" (int_value w.recurrence_instance_count) empty
      | RepeatAction.repeat_link ↦ put "rt" (texts (or_else w.recurrence_links [])) clock
      | RepeatAction.repeat ↦
          if is_none w.recurrence_rule && not w.clear_recurrence_rule
          then clock
          else put "rr" (if w.clear_recurrence_rule then null else rule_or_null w.recurrence_rule)
              clock
    ] in
    put_given bool "icp" w.recurrence_paused base

module _ (crc32 : String → ℕ) (strip : String → String) (today : Date) (now : Float) where
  -- `tag`
  unfoldable pub tag_envelope : TagAction → Write → Folded Envelope
  tag_envelope action w =
      let change : Envelope = record {
        uuid = w.uuid;
        action = 1;
        entity = "Tag4";
        payload = empty;
      } in
      let title = strip (or_else w.title "") in
      elim action [
        | TagAction.rename_tag ↦
            if not (truthy_text w.title) || (title == "")
            then err no_tag_title
            else ok
                (record change { payload = field "tt" (str title) (field "md" (float now) empty) })
        | TagAction.reparent_tag ↦ ok (record change {
          payload =
              field "pn" (texts (or_else w.tag_parent_uuids [])) (field "md" (float now) empty);
        })
        | TagAction.delete_tag ↦ ok (record change { action = 2 })
        | TagAction.ensure_tag ↦ err unplanned_tag
      ]

  -- `mutation.dispatch(_CloudEnvelopeHandler(library))`
  unfoldable pub envelope_of : Action → Write → Library → Folded Envelope
  unfolding create_payload edit_payload entity_of lifecycle_envelope tag_envelope checklist_envelope
      repeat_payload
  envelope_of (create is_heading) w l = do
    payload ← create_payload crc32 is_heading w today now
    ok (record {
      uuid = w.uuid;
      action = 0;
      entity = if kind_eq w.kind Kind.area then "Area3" else "Task7";
      payload = payload;
    })
  envelope_of (edit action) w l = do
    payload ← edit_payload crc32 action w (lookup w.uuid l.records) today now
    ok (record { uuid = w.uuid; action = 1; entity = entity_of w l; payload = payload })
  envelope_of (lifecycle action) w l = ok (lifecycle_envelope action w l now)
  envelope_of (tag action) w l = tag_envelope action w
  envelope_of checklist w l = ok (checklist_envelope w l now)
  envelope_of (recurrence action) w l = ok (record {
    uuid = w.uuid;
    action = 1;
    entity = entity_of w l;
    payload = repeat_payload action w now;
  })

  -- `_envelope`
  unfoldable pub write_envelope : Write → Library → Folded Envelope
  unfolding compile_mutation envelope_of
  write_envelope w l = elim (compile_mutation w.action) [
    | err e ↦ err (bad_write e)
    | ok action ↦ envelope_of action w l
  ]
