-- ===== src/Cloud/Planner.antt =====
-- The handlers of `_CloudPlanHandler` of cloud.py, and `plan`.
pub mod Index
pub mod Edits
pub mod Positive
pub mod Prepared
pub mod Sent
pub mod Whole
use things3_orchestrator.Library.Types as Writes
use mathlib.Core.Option
use things3_orchestrator.Prelude.{
  if◌then◌else◌, contains, ℤ, pos, Result, err, ok, ◌>>=◌, ◌>>◌, raise_if, Dict, lookup, insert, ℕ,
  String, Bool, true, false, not, ◌&&◌, ◌||◌, Option, none, some, List, [], ◌∷◌, ◌++◌, map,
}
use things3_orchestrator.Json.{Float, null, int, float, str, empty, field}
use things3_orchestrator.Calendar.{Date}
use things3_orchestrator.Library.Types.{
  Kind, ChecklistLine, Record, TagAction, RepeatAction, Action, create, edit, lifecycle, tag,
  checklist, recurrence, Write, Library,
}
use things3_orchestrator.Library.Queries.{
  kind_eq, is_kind, is_template, is_none, same_text, text_or, or_else, max_ℤ, add_ℕ, next_index,
  tag_uuid, find_checklist,
}
use things3_orchestrator.Library.Handler.{alias}
use things3_orchestrator.Cloud.Values.{
  row_without_task, no_repeat_template, no_progress, no_next_copy, repeated_uuid, bad_write, Folded,
}
use things3_orchestrator.Cloud.Payload.{fields_of, texts, extra}
use things3_orchestrator.Library.Ids.{compile_mutation}
use things3_orchestrator.Library.Handler.Recurrence.{repeat_asks, next_count_fits, checked_template}
use things3_orchestrator.Library.Handler.Checklist.{last_index}
use things3_orchestrator.Cloud.Envelope.{Envelope}
use things3_orchestrator.Cloud.Handler.{parent_uuid, write_envelope}
use things3_orchestrator.Cloud.Plan.{Place, Batch, Plan, new_plan, batch_of, prepare}
use things3_orchestrator.Cloud.Coalesce.{coalesce_envelopes, distinct}
use things3_orchestrator.Recurrence.Types.{RepeatType}

-- `self.tag_map.get(tag, tag)` for each tag
unfoldable pub mapped : Dict String → List String → List String
unfolding alias
mapped tag_map [] = []
mapped tag_map (t ∷ ts) = alias tag_map t ∷ mapped tag_map ts

-- `_normalize_item_tags`
unfoldable pub normalize_item_tags : Dict String → Write → Write
unfolding mapped
normalize_item_tags tag_map w = elim w.tag_uuids [
  | none ↦ w
  | some ts ↦ record w { tag_uuids = some (mapped tag_map ts) }
]

same_kind : Option Kind → Option Kind → Bool
same_kind none none = true
same_kind (some a) (some b) = kind_eq a b
same_kind _ _ = false

same_place : Place → Place → Bool
unfolding same_kind
same_place p q = kind_eq p.0 q.0 && same_text p.1 q.1 && same_kind p.2 q.2

unfoldable pub index_at : Place → List (Place × ℤ) → Option ℤ
unfolding same_place
index_at place [] = none
index_at place (entry ∷ d) = if same_place entry.0 place then some entry.1 else index_at place d

unfoldable pub set_index : Place → ℤ → List (Place × ℤ) → List (Place × ℤ)
unfolding same_place
set_index place index [] = (place, index) ∷ []
set_index place index (entry ∷ d) =
    if same_place entry.0 place then (entry.0, index) ∷ d else entry ∷ set_index place index d

-- the index that `create` gives to an item without one
unfoldable pub new_index : Library → Plan → Write → ℤ
unfolding index_at
new_index l p w =
    let index : ℤ = elim (index_at (w.kind, w.into_uuid, w.into_kind) p.created_ix) [
      | none ↦ next_index w l
      | some last ↦ add_ℕ last 1024
    ] in
    if kind_eq w.kind Kind.area then index else max_ℤ (pos 1024) index

abbrev is_after_completion : RepeatType → Bool
is_after_completion RepeatType.after_completion = true
is_after_completion _ = false

-- what `recurrence` asks of the item
unfoldable pub progress_allowed : Write → Record → Bool
progress_allowed w item =
    is_template item.recurrence.role
    && is_after_completion item.recurrence.repeat_type
    && not (is_none w.recurrence_completed_on)
    && not (is_none w.recurrence_next_on)

unfoldable pub repeat_planned : RepeatAction → Write → Option Record → Folded (Unit {0})
unfolding repeat_asks next_count_fits progress_allowed checked_template
repeat_planned RepeatAction.repeat_link w found = ok tt
repeat_planned RepeatAction.repeat w none = err no_repeat_template
repeat_planned RepeatAction.repeat w (some item) = do
  raise_if (not (repeat_asks w)) no_repeat_template
  elim (checked_template item) [ err e ↦ err (bad_write e) | ok _ ↦ ok tt ]
repeat_planned RepeatAction.repeat_progress w none = err no_progress
repeat_planned RepeatAction.repeat_progress w (some item) =
    raise_if (not (progress_allowed w item)) no_progress
repeat_planned RepeatAction.repeat_next w none = err no_next_copy
repeat_planned RepeatAction.repeat_next w (some item) =
    raise_if (not (next_count_fits w item)) no_next_copy

-- the write of a tag, under the uuids that the tags have
unfoldable pub known_tag : Dict String → Write → Write
unfolding mapped alias
known_tag tag_map w = record w {
  uuid = alias tag_map w.uuid;
  tag_parent_uuids = Option.map (mapped tag_map) w.tag_parent_uuids;
}

-- a row without an index goes after its siblings
unfoldable pub indexed_row : List ChecklistLine → Write → Write
unfolding last_index
indexed_row siblings w =
    if w.checklist_remove || not (is_none w.checklist_index)
    then w
    else record w { checklist_index = some (add_ℕ (last_index siblings) 1) }

abbrev pub add_envelope : Envelope → Plan → Plan
add_envelope e p = record p { envelopes = p.envelopes ++ (e ∷ []) }

module _ (casefold strip : String → String) (crc32 : String → ℕ) (today : Date) (now : Float)
    (l : Library) (b : Batch) where
  -- `_emit`
  unfoldable pub emit : Write → Plan → Folded Plan
  unfolding write_envelope
  emit w p = do e ← write_envelope crc32 strip today now w l; ok (add_envelope e p)

  -- `create`
  unfoldable pub plan_create : Write → Plan → Folded Plan
  unfolding emit normalize_item_tags new_index set_index
  plan_create w p =
      let tagged = normalize_item_tags p.tag_map w in
      let index = new_index l p tagged in
      let place : Place = (w.kind, w.into_uuid, w.into_kind) in
      if is_none w.sort_index
      then emit (record tagged { sort_index = some index })
          (record p { created_ix = set_index place index p.created_ix })
      else emit tagged p

  -- the tag that a title has already, unless the batch deletes it
  unfoldable pub kept_tag : String → Option String
  unfolding tag_uuid
  kept_tag title = elim (tag_uuid casefold title l) [
    | none ↦ none
    | some uuid ↦ if contains uuid b.deleted_tags then none else some uuid
  ]

  -- `tag` with "ensure_tag"
  unfoldable pub plan_ensure : Write → Plan → Plan
  unfolding kept_tag mapped fields_of extra
  plan_ensure w p =
      let title = or_else w.title "" in
      let parents = texts (mapped p.tag_map (or_else w.tag_parent_uuids [])) in
      elim (kept_tag title) [
        | none ↦
            record (add_envelope
              (record {
                uuid = w.uuid;
                action = 0;
                entity = "Tag4";
                payload = fields_of (
                    ("tt", str title)
                    ∷ ("ix", int (pos 0))
                    ∷ ("sh", null)
                    ∷ ("pn", parents)
                    ∷ ("xx", extra)
                    ∷ []);
              })
              p) { tag_map = insert w.uuid w.uuid p.tag_map }
        | some existing ↦
            record (if is_none w.tag_parent_uuids
              then p
              else add_envelope
                  (record {
                    uuid = existing;
                    action = 1;
                    entity = "Tag4";
                    payload = field "pn" parents (field "md" (float now) empty);
                  })
                  p) { tag_map = insert w.uuid existing p.tag_map }
      ]

  -- `tag` otherwise
  unfoldable pub plan_tag : TagAction → Write → Plan → Folded Plan
  unfolding plan_ensure emit known_tag
  plan_tag TagAction.ensure_tag w p = ok (plan_ensure w p)
  plan_tag _ w p = emit (known_tag p.tag_map w) p

  -- the kind of what stands under `destination_uuid`
  unfoldable pub row_kind : Option String → Option Kind
  row_kind uuid = elim (lookup (or_else uuid "") l.records) [
    | some item ↦ some item.kind
    | none ↦ lookup (or_else uuid "") b.created_kinds
  ]

  -- `destination_uuid`
  unfoldable pub row_parent : Write → Option String
  unfolding find_checklist parent_uuid
  row_parent w = text_or w.checklist_parent_uuid (parent_uuid (find_checklist w.uuid l) l)

  unfoldable pub siblings_of : Option String → List ChecklistLine
  siblings_of uuid = elim (lookup (or_else uuid "") l.records) [
    | none ↦ []
    | some item ↦ item.checklists
  ]

  -- `checklist`
  unfoldable pub plan_checklist : Write → Plan → Folded Plan
  unfolding emit row_parent siblings_of row_kind indexed_row
  plan_checklist w p = do
    let uuid = row_parent w
    raise_if (not w.checklist_remove && not (is_kind (row_kind uuid) Kind.task)) row_without_task
    emit (indexed_row (siblings_of uuid) w) p

  -- `mutation.dispatch(self)`
  unfoldable pub plan_action : Action → Write → Plan → Folded Plan
  unfolding plan_create emit normalize_item_tags plan_tag plan_checklist repeat_planned
  plan_action (create is_heading) w p = plan_create w p
  plan_action (edit action) w p = emit (normalize_item_tags p.tag_map w) p
  plan_action (lifecycle action) w p = emit w p
  plan_action (tag action) w p = plan_tag action w p
  plan_action checklist w p = plan_checklist w p
  plan_action (recurrence action) w p = do
    repeat_planned action w (lookup w.uuid l.records)
    emit w p

  unfoldable pub plan_compiled : Result Writes.Error Action → Write → Plan → Folded Plan
  unfolding prepare plan_action
  plan_compiled (err e) w p = err (bad_write e)
  plan_compiled (ok action) w p = do prepared ← prepare l b w; plan_action action prepared p

  unfoldable pub plan_write : Write → Plan → Folded Plan
  unfolding plan_compiled compile_mutation
  plan_write w p = plan_compiled (compile_mutation w.action) w p

  unfoldable pub plan_each : List Write → Plan → Folded Plan
  unfolding plan_write
  plan_each [] p = ok p
  plan_each (w ∷ ws) p = do next ← plan_write w p; plan_each ws next

-- `plan`
unfoldable pub plan :
    (String → String)
    → (String → String)
    → (String → ℕ)
    → Date
    → Float
    → Library
    → List Write
    → Folded (List Envelope)
unfolding plan_each coalesce_envelopes batch_of
plan casefold strip crc32 today now l ws = do
  p ← plan_each casefold strip crc32 today now l (batch_of l ws) ws new_plan
  envelopes ← coalesce_envelopes p.envelopes
  raise_if (not (distinct (map (λ e. e.uuid) envelopes))) repeated_uuid
  ok envelopes
