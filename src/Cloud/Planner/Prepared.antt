-- ===== src/Cloud/Planner/Prepared.antt =====
-- What `_prepare` and the handlers of `_CloudPlanHandler` make of the index of a write.
use things3_orchestrator.Prelude.{
  Bool-cases, All, ℤ, pos, ltb_ℤ, ok, Dict, String, ◌==◌, ◌≡◌, refl, inl, inr, Bool, true, not,
  ◌&&◌, ◌||◌, List, arith,
}
use things3_orchestrator.Library.Types.{Kind, ChecklistLine, Write, Library}
use things3_orchestrator.Library.Queries.{kind_eq, max_ℤ}
use things3_orchestrator.Cloud.Envelope.{Envelope}
use things3_orchestrator.Cloud.Handler.{entity_of}
use things3_orchestrator.Cloud.Plan.{
  Batch, Plan, with_planned_kind, actual_kind, with_positive_index, prepare,
}
use things3_orchestrator.Cloud.Planner.{normalize_item_tags, new_index, indexed_row}
use things3_orchestrator.Cloud.Planner.Index.{sort_positive}
use things3_orchestrator.Cloud.Planner.Positive.{ix_safe, ready}

-- The write is of the kind of the item that it changes, and an area of the library does not go by
-- the entity of a task.
unfoldable pub well_named : Library → Batch → Write → Bool
unfolding with_planned_kind actual_kind entity_of
well_named l b w =
    let named = with_planned_kind b w in
    kind_eq named.kind (actual_kind l b w)
    && (not (kind_eq named.kind Kind.area) || not (entity_of named l == "Task7"))

abbrev pub AllSafe : List Envelope → Type 0
AllSafe es = All (λ e. ix_safe e ≡ true) es

prepared :
    (l : Library) (b : Batch) (w next : Write)
    → prepare l b w ≡ ok next
    → next ≡ with_positive_index (actual_kind l b w) (with_planned_kind b w)
unfolding prepare
prepared l b w next is = ground arith

pub prepared_action :
    (l : Library) (b : Batch) (w next : Write) → prepare l b w ≡ ok next → next.action ≡ w.action
unfolding with_positive_index with_planned_kind
prepared_action l b w next is = rw (prepared l b w next is) (ground arith)

index_made :
    (kind : Kind) (w : Write) (l : Library)
    → kind_eq w.kind kind ≡ true
    → not (kind_eq w.kind Kind.area) || not (entity_of w l == "Task7") ≡ true
    → ready (with_positive_index kind w) l
        && (kind_eq (with_positive_index kind w).kind Kind.area
            || sort_positive (with_positive_index kind w).sort_index)
      ≡ true
unfolding with_positive_index ready sort_positive entity_of
index_made kind w l same other = ground arith

pub prepared_ready :
    (l : Library) (b : Batch) (w next : Write)
    → well_named l b w ≡ true
    → prepare l b w ≡ ok next
    → ready next l && (kind_eq next.kind Kind.area || sort_positive next.sort_index) ≡ true
unfolding well_named
prepared_ready l b w next h is =
    rw (prepared l b w next is)
      (index_made (actual_kind l b w) (with_planned_kind b w) l (ground arith) (ground arith))

pub normalized :
    (tag_map : Dict String) (w : Write)
    → normalize_item_tags tag_map w
      ≡ record w { tag_uuids = (normalize_item_tags tag_map w).tag_uuids }
unfolding normalize_item_tags
normalized tag_map w = ground arith

pub both : (a b : Bool) → a && b ≡ true → (a ≡ true) × (b ≡ true)
both a b h = ground arith

pub ready_normalized :
    (tag_map : Dict String) (w : Write) (l : Library)
    → ready w l ≡ true
    → ready (normalize_item_tags tag_map w) l ≡ true
unfolding ready entity_of
ready_normalized tag_map w l h = rw (normalized tag_map w) h

at_least : (n : ℤ) → ltb_ℤ (pos 0) (max_ℤ (pos 1024) n) ≡ true
unfolding max_ℤ
at_least n = ground arith

pub new_index_positive :
    (l : Library) (p : Plan) (w : Write)
    → kind_eq w.kind Kind.area || ltb_ℤ (pos 0) (new_index l p w) ≡ true
unfolding new_index
new_index_positive l p w = elim (Bool-cases (kind_eq w.kind Kind.area)) [
  | inl is_area ↦ rw is_area refl
  | inr other ↦ rw other (at_least _)
]

pub row_action :
    (siblings : List ChecklistLine) (w : Write) → (indexed_row siblings w).action ≡ w.action
unfolding indexed_row
row_action siblings w = ground arith
