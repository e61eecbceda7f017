-- ===== src/Cloud/Written/Placed.antt =====
-- The list and the place of a created item in the fold.
-- the two places of a payload leave the other fields
use things3_orchestrator.Prelude.{
  if◌then◌else◌, Bool-cases, pos, eq_ℤ, String, ◌≡◌, refl, inl, inr, Bool, true, false, not, ◌&&◌,
  ◌||◌, Option, none, some, arith,
}
use things3_orchestrator.Json.{JsonValue}
use things3_orchestrator.Calendar.{Date}
use things3_orchestrator.Library.Types.{Kind, Record, Write}
use things3_orchestrator.Library.Queries.{kind_eq, is_kind, is_none}
use things3_orchestrator.Cloud.Values.{first_text}
use things3_orchestrator.Cloud.Fold.{typed, in_project, in_area}
use things3_orchestrator.Cloud.Payload.{start_state, list_state, project_of, area_of, type_code}
use things3_orchestrator.Cloud.Written.Facts.{filled, first_read}
use things3_orchestrator.Library.Verify.{unplaced, placement_matches}
use things3_orchestrator.Library.Verify.Coherent.{coherent, one_place}
use things3_orchestrator.Library.Verify.Created.{create_asks, same_text_refl}

pub both_placed :
    (p a : Option String) (item : Record)
    → is_none p || is_none a ≡ true
    → ((in_area a (in_project p item)).parent_uuid ≡ p)
      × ((in_area a (in_project p item)).area_uuid ≡ a)
unfolding in_area in_project
both_placed none none item h = (refl, refl)
both_placed none (some u) item h = (refl, refl)
both_placed (some u) none item h = (refl, refl)
both_placed (some u) (some v) item h = absurd cc

pub placed_rest :
    (p a : Option String) (item : Record)
    → (in_area a (in_project p item) ≡ record item {
      parent_uuid = (in_area a (in_project p item)).parent_uuid;
      area_uuid = (in_area a (in_project p item)).area_uuid;
      heading_uuid = (in_area a (in_project p item)).heading_uuid;
    })
unfolding in_area in_project
placed_rest none none item = refl
placed_rest none (some u) item = refl
placed_rest (some u) none item = refl
placed_rest (some u) (some v) item = refl

-- a Project or an area of the write, as the payload names them
abbrev pub project_uuid : Write → Option String
project_uuid w = if is_kind w.into_kind Kind.project then w.into_uuid else none

abbrev pub area_uuid : Write → Option String
area_uuid w = if is_kind w.into_kind Kind.area then w.into_uuid else none

pub one_of_them : (w : Write) → is_none (project_uuid w) || is_none (area_uuid w) ≡ true
one_of_them w = ground arith

pub project_read :
    (py_str : JsonValue → String) (w : Write)
    → filled w.into_uuid ≡ true
    → first_text py_str (project_of w) ≡ project_uuid w
unfolding project_of filled
project_read py_str w full = elim (Bool-cases (is_kind w.into_kind Kind.project)) [
  | inl inside ↦ rw inside (first_read py_str w.into_uuid full)
  | inr other ↦ rw other (first_read py_str none refl)
]

pub area_read :
    (py_str : JsonValue → String) (w : Write)
    → filled w.into_uuid ≡ true
    → first_text py_str (area_of w) ≡ area_uuid w
unfolding area_of filled
area_read py_str w full = elim (Bool-cases (is_kind w.into_kind Kind.area)) [
  | inl inside ↦ rw inside (first_read py_str w.into_uuid full)
  | inr other ↦ rw other (first_read py_str none refl)
]

pub kind_typed :
    (is_heading : Bool) (kind : Kind) (item : Record)
    → kind_eq kind Kind.area ≡ false
    → not is_heading || kind_eq kind Kind.task ≡ true
    → (typed (type_code is_heading kind) item).kind ≡ kind
unfolding typed type_code
kind_typed is_heading kind item not_area h = ground arith

pub heading_typed :
    (is_heading : Bool) (kind : Kind) → eq_ℤ (type_code is_heading kind) (pos 2) ≡ is_heading
unfolding type_code
heading_typed is_heading kind = ground arith

-- the list state is Someday for an item of no date exactly when the write asks for it
pub someday_listed :
    (w : Write) (today : Date)
    → coherent w ≡ true
    → eq_ℤ (list_state w today) (pos 2) && is_none w.start ≡ w.someday
unfolding coherent list_state start_state
someday_listed w today c = ground arith

pub anytime_listed :
    (w : Write) (today : Date)
    → coherent w ≡ true
    → not w.anytime || not (eq_ℤ (list_state w today) (pos 0)) ≡ true
unfolding coherent list_state start_state
anytime_listed w today c = ground arith

-- the list of the fold and the places of the payload are those which the verifier asks for
pub placed_in :
    (w : Write) (is_heading : Bool) (today : Date) (item : Record)
    → create_asks w ≡ true
    → kind_eq w.kind Kind.area ≡ false
    → not is_heading || is_kind w.into_kind Kind.project ≡ true
    → item.inbox
      ≡ eq_ℤ (list_state w today) (pos 0) && not (kind_eq w.kind Kind.project) && not is_heading
    → item.parent_uuid ≡ project_uuid w
    → item.area_uuid ≡ area_uuid w
    → item.heading_uuid ≡ w.heading_uuid
    → placement_matches item w ≡ true
unfolding create_asks coherent one_place placement_matches unplaced list_state start_state
placed_in w is_heading today item asks not_area h e1 e2 e3 e4 =
    ground (arith, same_text_refl w.into_uuid, same_text_refl w.heading_uuid)
