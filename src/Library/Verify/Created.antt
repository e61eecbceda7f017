-- ===== src/Library/Verify/Created.antt =====
-- The creation of `_MemoryApplyHandler` against the checks of `_MutationVerifier`.
use text.Mathlib.TextPositions.{eq_refl}
use things3_orchestrator.Library.Handler.{Applied}
use things3_orchestrator.Library.Verify.Actions.{create_matches, on_item}
use things3_orchestrator.Calendar.{Date}
use things3_orchestrator.Prelude.{
  ℤ, pos, ok, >>=-eq-ok, ok_inj, lookup, lookup-insert, ℕ, String, eq_iff, ◌≡◌, refl, Bool, true,
  not, ◌&&◌, ◌||◌, Option, none, some, [], arith,
}
use things3_orchestrator.Json.{JsonValue}
use things3_orchestrator.Library.Types.{Kind, Status, Record, Write}
use things3_orchestrator.Library.Queries.{kind_eq, is_none, same_text, or_else, next_index}
use things3_orchestrator.Library.Handler.Create.{
  starts_in_inbox, new_place, new_record, create_at, create_item,
}
use things3_orchestrator.Library.Verify.{
  day_fits, remind_fits, unplaced, placement_matches, fields_match, schedule_matches, patch_matches,
}
use things3_orchestrator.Library.Verify.Coherent.{coherent, one_place}
use things3_orchestrator.Library.Verify.Edited.{text_set, status_set, tags_set, index_set}

unfoldable pub create_asks : Write → Bool
unfolding coherent one_place
create_asks w = coherent w && (kind_eq w.kind Kind.area || one_place w)

day_same : (d : Option Date) → day_fits d d ≡ true
day_same none = refl
day_same (some d) = ground arith

remind_same : (r : Option String) → remind_fits r r ≡ true
remind_same none = refl
remind_same (some r) = ground (arith, eq_iff r r)

pub created_schedule :
    (w : Write) (item : Record)
    → coherent w ≡ true
    → item.deadline ≡ w.deadline
    → item.start ≡ w.start
    → item.tonight ≡ w.tonight
    → item.someday ≡ w.someday
    → item.remind ≡ w.remind
    → not w.anytime || not item.inbox ≡ true
    → schedule_matches item w ≡ true
unfolding coherent schedule_matches
created_schedule w item c d s t l r i =
    ground (arith, day_same w.deadline, day_same w.start, remind_same w.remind)

pub same_text_refl : (t : Option String) → same_text t t ≡ true
same_text_refl none = refl
same_text_refl (some t) = ground (arith, eq_iff t t)

-- the place of a new item, with what takes it out of Inbox
placed_at :
    (w : Write) (item : Record) (i : Bool) (p a : Option String)
    → create_asks w ≡ true
    → new_place w ≡ ok (i, p, a)
    → item.inbox ≡ i && not w.someday && not w.tonight
    → item.parent_uuid ≡ p
    → item.area_uuid ≡ a
    → item.heading_uuid ≡ w.heading_uuid
    → placement_matches item w ≡ true
unfolding create_asks coherent one_place new_place placement_matches starts_in_inbox unplaced
placed_at w item i p a asks at e1 e2 e3 e4 =
    ground (arith, same_text_refl w.into_uuid, same_text_refl w.heading_uuid)

pub create-coherent : (w : Write) → create_asks w ≡ true → coherent w ≡ true
unfolding create_asks
create-coherent w asks = ground arith

pub heading_uncleared :
    (w : Write) → create_asks w ≡ true → not w.clear_heading || is_none w.heading_uuid ≡ true
unfolding create_asks coherent
heading_uncleared w asks = ground arith

inbox_anytime :
    (w : Write) (i : Bool) (p a : Option String)
    → create_asks w ≡ true
    → new_place w ≡ ok (i, p, a)
    → not w.anytime || not (i && not w.someday && not w.tonight) ≡ true
unfolding create_asks coherent new_place starts_in_inbox
inbox_anytime w i p a asks at = ground arith

pub kind_same : (k : Kind) → kind_eq k k ≡ true
kind_same k = ground arith

pub heading_same : (b : Bool) → not b || b ≡ true
heading_same b = ground arith

pub created_parts :
    (is_heading : Bool) (item : Record) (w : Write)
    → kind_eq item.kind w.kind ≡ true
    → not is_heading || item.heading ≡ true
    → fields_match item w ≡ true
    → schedule_matches item w ≡ true
    → not w.clear_heading || is_none item.heading_uuid ≡ true
    → placement_matches item w ≡ true
    → create_matches is_heading w item ≡ true
unfolding create_matches patch_matches
created_parts is_heading item w k h f s c p = rw (k, h, f, s, c, p) refl

module _ (py_str : JsonValue → String) where
  created_fields :
      (w : Write) (is_heading : Bool) (index : ℤ) (now : ℕ)
      (place : Bool × Option String × Option String)
      → fields_match
          (new_record py_str w place.0
            (place.1, place.2)
            is_heading
            (or_else w.sort_index index)
            now)
          w
        ≡ true
  unfolding fields_match new_record
  created_fields w is_heading index now place =
      rw
        (
          text_set w.title "",
          text_set w.notes "",
          status_set w.status Status.opened,
          tags_set w.tag_uuids [],
          index_set w.sort_index index,
          index_set w.today_index (pos 0),
        )
        refl

  -- the record of a creation passes the checks
  created_matches :
      (w : Write) (is_heading : Bool) (index : ℤ) (now : ℕ) (i : Bool) (p a : Option String)
      → create_asks w ≡ true
      → new_place w ≡ ok (i, p, a)
      → create_matches is_heading w
          (new_record py_str w i (p, a) is_heading (or_else w.sort_index index) now)
        ≡ true
  unfolding new_record
  created_matches w is_heading index now i p a asks at =
      let item = new_record py_str w i (p, a) is_heading (or_else w.sort_index index) now in
      let c = create-coherent w asks in
      let s = created_schedule w item c refl refl refl refl refl (inbox_anytime w i p a asks at) in
      let placed = placed_at w item i p a asks at refl refl refl refl in
      let f = created_fields w is_heading index now (i, p, a) in
      created_parts is_heading item w (kind_same w.kind) (heading_same is_heading) f s
        (heading_uncleared w asks) placed

  pub create_item-matches :
      (w : Write) (is_heading : Bool) (now : ℕ) (a b : Applied)
      → create_asks w ≡ true
      → create_item py_str w is_heading now a ≡ ok b
      → on_item (create_matches is_heading w) (lookup w.uuid b.library.records) ≡ true
  unfolding create_item create_at on_item new_record
  create_item-matches w is_heading now a b asks e =
      let ((i, p, c), at, is) = >>=-eq-ok (new_place w) _ e in
      let index = next_index w a.library in
      let item = new_record py_str w i (p, c) is_heading (or_else w.sort_index index) now in
      rw (← ok_inj is) (
        rw (lookup-insert w.uuid w.uuid item a.library.records, eq_refl w.uuid)
          (created_matches w is_heading index now i p c asks at))
