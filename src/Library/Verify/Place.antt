-- ===== src/Library/Verify/Place.antt =====
-- The place that a move leaves, against the checks of `_MutationVerifier`.
use things3_orchestrator.Prelude.{
  Bool-cases, ok, String, eq_iff, ◌≡◌, refl, ◌⊎◌, inl, inr, true, false, not, ◌||◌, Option, none,
  some, arith,
}
use things3_orchestrator.Library.Types.{Kind, Record, Write}
use things3_orchestrator.Library.Queries.{kind_eq, is_none, same_text}
use things3_orchestrator.Library.Handler.Edit.{unscheduled, place_item, move_item, moves}
use things3_orchestrator.Library.Verify.{unplaced, placement_matches, schedule_matches}
use things3_orchestrator.Library.Verify.Coherent.{coherent, one_place}

-- The three places that a move puts an item in.
moved_into :
    (w : Write) (item next : Record)
    → one_place w ≡ true
    → is_none w.into_kind ≡ false
    → place_item w item ≡ ok next
    → next
      ≡ record item { inbox = false; parent_uuid = next.parent_uuid; area_uuid = next.area_uuid }
unfolding place_item one_place
moved_into w item next o into moved = ground arith

moved_out :
    (w : Write) (item next : Record)
    → is_none w.into_kind ≡ true
    → place_item w item ≡ ok next
    → ((kind_eq item.kind Kind.project ≡ true)
        × (next
            ≡ record item { inbox = false; someday = false; parent_uuid = none; area_uuid = none }))
      ⊎ ((kind_eq item.kind Kind.project ≡ false)
          × (next ≡ record (unscheduled item) {
            parent_uuid = none;
            area_uuid = none;
            inbox = not w.anytime;
          }))
unfolding place_item
moved_out w item next out moved = elim (Bool-cases (kind_eq item.kind Kind.project)) [
  | inl project_kind ↦ inl (project_kind, ground arith)
  | inr other ↦ inr (other, ground arith)
]

into_schedule :
    (w : Write) (item : Record) (p a : Option String)
    → one_place w ≡ true
    → is_none w.into_kind ≡ false
    → schedule_matches item w ≡ true
    → schedule_matches (record item { inbox = false; parent_uuid = p; area_uuid = a }) w ≡ true
unfolding one_place schedule_matches
into_schedule w item p a o into h = ground arith

out_schedule :
    (w : Write) (item : Record)
    → coherent w ≡ true
    → w.anytime || w.inbox ≡ true
    → schedule_matches item w ≡ true
    → (schedule_matches
          (record item { inbox = false; someday = false; parent_uuid = none; area_uuid = none })
          w
        ≡ true)
unfolding coherent schedule_matches
out_schedule w item c out h = ground arith

unscheduled_schedule :
    (w : Write) (item : Record)
    → coherent w ≡ true
    → w.anytime || w.inbox ≡ true
    → schedule_matches item w ≡ true
    → (schedule_matches
          (record (unscheduled item) {
            parent_uuid = none;
            area_uuid = none;
            inbox = not w.anytime;
          })
          w
        ≡ true)
unfolding coherent schedule_matches
unscheduled_schedule w item c out h = ground arith

place_asked :
    (w : Write)
    → one_place w ≡ true
    → moves w ≡ true
    → is_none w.into_kind ≡ true
    → w.anytime || w.inbox ≡ true
unfolding one_place moves
place_asked w o on out = ground arith

pub place_schedule :
    (w : Write) (item next : Record)
    → coherent w ≡ true
    → one_place w ≡ true
    → moves w ≡ true
    → move_item w item ≡ ok next
    → schedule_matches item w ≡ true
    → schedule_matches next w ≡ true
unfolding move_item schedule_matches
place_schedule w item next c o on moved h =
    let aimed = record item { heading_uuid = w.heading_uuid } in
    elim (Bool-cases (is_none w.into_kind)) [
      | inl out ↦
          let leaves = place_asked w o on out in
          elim (moved_out w aimed next out moved) [
            | inl (_, is) ↦ rw is (out_schedule w aimed c leaves h)
            | inr (_, is) ↦ rw is (unscheduled_schedule w aimed c leaves h)
          ]
      | inr into ↦
          rw (moved_into w aimed next o into moved)
            (into_schedule w aimed next.parent_uuid next.area_uuid o into h)
    ]

same_text_refl : (t : Option String) → same_text t t ≡ true
same_text_refl none = refl
same_text_refl (some t) = ground (arith, eq_iff t t)

into_placed :
    (w : Write) (item next : Record)
    → one_place w ≡ true
    → is_none w.into_kind ≡ false
    → kind_eq w.kind Kind.area ≡ false
    → same_text item.heading_uuid w.heading_uuid ≡ true
    → place_item w item ≡ ok next
    → placement_matches next w ≡ true
unfolding place_item placement_matches one_place
into_placed w item next o into not_area under moved = ground (arith, same_text_refl w.into_uuid)

out_placed :
    (w : Write) (item : Record)
    → coherent w ≡ true
    → w.anytime || w.inbox ≡ true
    → is_none w.into_kind ≡ true
    → kind_eq item.kind w.kind ≡ true
    → kind_eq w.kind Kind.area ≡ false
    → kind_eq item.kind Kind.project ≡ false
    → (placement_matches
          (record (unscheduled item) {
            parent_uuid = none;
            area_uuid = none;
            inbox = not w.anytime;
          })
          w
        ≡ true)
unfolding placement_matches unplaced coherent
out_placed w item c out into same not_area not_project = ground arith

out_project :
    (w : Write) (item : Record)
    → is_none w.into_kind ≡ true
    → kind_eq w.kind Kind.area ≡ false
    → kind_eq w.kind Kind.project ≡ true
    → (placement_matches
          (record item { inbox = false; someday = false; parent_uuid = none; area_uuid = none })
          w
        ≡ true)
unfolding placement_matches unplaced
out_project w item into not_area is_project = ground arith

pub place_placed :
    (w : Write) (item next : Record)
    → coherent w ≡ true
    → one_place w ≡ true
    → moves w ≡ true
    → kind_eq item.kind w.kind ≡ true
    → kind_eq w.kind Kind.area ≡ false
    → move_item w item ≡ ok next
    → placement_matches next w ≡ true
unfolding move_item
place_placed w item next c o on same not_area moved =
    let aimed = record item { heading_uuid = w.heading_uuid } in
    elim (Bool-cases (is_none w.into_kind)) [
      | inl out ↦
          let leaves = place_asked w o on out in
          elim (moved_out w aimed next out moved) [
            | inl (kind, is) ↦ rw is (out_project w aimed out not_area (ground arith))
            | inr (kind, is) ↦ rw is (out_placed w aimed c leaves out same not_area kind)
          ]
      | inr into ↦ into_placed w aimed next o into not_area (same_text_refl w.heading_uuid) moved
    ]
