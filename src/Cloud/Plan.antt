-- ===== src/Cloud/Plan.antt =====
-- `_CloudPlanHandler` of cloud.py. The library does not change while a batch is planned.
use things3_orchestrator.Prelude.{
  if◌then◌else◌, ℤ, pos, ltb_ℤ, ok, ◌>>◌, raise_if, Dict, lookup, insert, String, ◌==◌, Bool, true,
  false, not, ◌&&◌, ◌||◌, Option, none, some, List, [], ◌∷◌,
}
use things3_orchestrator.Library.Types.{Kind, Write, Library}
use things3_orchestrator.Library.Queries.{
  kind_eq, is_kind, same_text, truthy_text, text_or, or_else,
}
use things3_orchestrator.Cloud.Values.{project_to_inbox, foreign_heading, Folded}
use things3_orchestrator.Cloud.Envelope.{Envelope}

-- the place of a new item, under which the last index is kept
abbrev pub Place : Type 0
Place = Kind × Option String × Option Kind

-- what the handler learns of the batch beforehand
pub record Batch : Type 0 where
  pub created_kinds : Dict Kind
  pub created_headings : Dict (Option String)
  pub project_heading_moves : Dict String
  pub deleted_tags : List String

-- what it keeps from write to write
pub record Plan : Type 0 where
  pub tag_map : Dict String
  pub envelopes : List Envelope
  pub created_ix : List (Place × ℤ)

abbrev pub new_plan : Plan
new_plan = record { tag_map = []; envelopes = []; created_ix = [] }

unfoldable pub creates : Write → Bool
creates w = (w.action == "create") || (w.action == "create_heading")

unfoldable pub kinds_of : List Write → Dict Kind → Dict Kind
unfolding creates
kinds_of [] d = d
kinds_of (w ∷ ws) d = kinds_of ws (if creates w then insert w.uuid w.kind d else d)

unfoldable pub headings_of : List Write → Dict (Option String) → Dict (Option String)
headings_of [] d = d
headings_of (w ∷ ws) d =
    headings_of ws (if w.action == "create_heading" then insert w.uuid w.into_uuid d else d)

unfoldable pub deleted_of : List Write → List String
deleted_of [] = []
deleted_of (w ∷ ws) =
    let rest = deleted_of ws in if w.action == "delete_tag" then w.uuid ∷ rest else rest

-- a heading goes to the Project that its write names
unfoldable pub heading_move : Library → Write → Dict String → Dict String
heading_move l w d =
    if is_kind w.into_kind Kind.project && truthy_text w.into_uuid
    then elim (lookup w.uuid l.records) [
      | none ↦ d
      | some item ↦ if item.heading then insert item.uuid (or_else w.into_uuid "") d else d
    ]
    else d

unfoldable pub heading_moves : Library → List Write → Dict String → Dict String
unfolding heading_move
heading_moves l [] d = d
heading_moves l (w ∷ ws) d = heading_moves l ws (heading_move l w d)

unfoldable pub batch_of : Library → List Write → Batch
unfolding kinds_of headings_of heading_moves deleted_of
batch_of l ws = record {
  created_kinds = kinds_of ws [];
  created_headings = headings_of ws [];
  project_heading_moves = heading_moves l ws [];
  deleted_tags = deleted_of ws;
}

-- the write with the kind that the batch creates under its uuid
unfoldable pub with_planned_kind : Batch → Write → Write
unfolding creates
with_planned_kind b w = elim (lookup w.uuid b.created_kinds) [
  | none ↦ w
  | some kind ↦ if not (creates w) && not (kind_eq w.kind kind) then record w { kind = kind } else w
]

-- `actual_kind`
unfoldable pub actual_kind : Library → Batch → Write → Kind
actual_kind l b w = elim (lookup w.uuid l.records) [
  | some item ↦ item.kind
  | none ↦ or_else (lookup w.uuid b.created_kinds) w.kind
]

-- a first position that is not positive becomes 1
unfoldable pub with_positive_index : Kind → Write → Write
with_positive_index kind w = elim w.sort_index [
  | none ↦ w
  | some index ↦
      if not (kind_eq kind Kind.area) && not (ltb_ℤ (pos 0) index)
      then record w { sort_index = some (pos 1) }
      else w
]

-- the Project that the heading of the write must be in
unfoldable pub heading_project : Library → Batch → Write → String → Option String
heading_project l b w heading_uuid =
    let parent : Option String = elim (lookup w.uuid l.records) [
      | none ↦ none
      | some item ↦ item.parent_uuid
    ] in
    let own : Option String = elim (lookup heading_uuid l.records) [
      | none ↦ none
      | some h ↦ h.parent_uuid
    ] in
    text_or w.into_uuid
      (text_or parent (text_or (or_else (lookup heading_uuid b.created_headings) none) own))

-- the heading is in that Project, moves there, or is created there
unfoldable pub heading_planned : Library → Batch → Write → Bool
unfolding heading_project
heading_planned l b w = elim w.heading_uuid [
  | none ↦ true
  | some heading_uuid ↦
      let project = heading_project l b w heading_uuid in
      let planned = or_else (lookup heading_uuid b.created_headings) none in
      truthy_text project
      && ((elim (lookup heading_uuid l.records) [
        | none ↦ false
        | some h ↦
            h.heading
            && (same_text h.parent_uuid project
                || same_text (lookup h.uuid b.project_heading_moves) project)
      ])
          || same_text planned project)
]

-- `_prepare`
unfoldable pub prepare : Library → Batch → Write → Folded Write
unfolding with_planned_kind actual_kind with_positive_index heading_planned
prepare l b w = do
  let kind = actual_kind l b w
  let fixed = with_positive_index kind (with_planned_kind b w)
  raise_if (kind_eq kind Kind.project && fixed.inbox) project_to_inbox
  raise_if (not (heading_planned l b fixed)) foreign_heading
  ok fixed
