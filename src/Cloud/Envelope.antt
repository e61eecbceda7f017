-- ===== src/Cloud/Envelope.antt =====
-- `Envelope` of cloud.py, and the placement that an edit asks for.
use things3_orchestrator.Prelude.{
  if◌then◌else◌, ℤ, pos, ℕ, String, Bool, true, not, ◌&&◌, ◌||◌, Option, none, some, [], ◌∷◌,
}
use things3_orchestrator.Json.{null, int, Fields, empty, field, put}
use things3_orchestrator.Library.Types.{Kind, Record, Write}
use things3_orchestrator.Library.Queries.{kind_eq, is_kind, is_none, truthy_text}
use things3_orchestrator.Cloud.Payload.{fields_of, texts, one_text}

-- action 0 creates, 1 changes, 2 deletes
pub record Envelope : Type 0 where
  pub uuid : String
  pub action : ℕ
  pub entity : String
  pub payload : Fields

-- `payload.update(other)`
unfoldable pub updated : Fields → Fields → Fields
updated payload empty = payload
updated payload (field key v rest) = updated (put key v payload) rest

-- an item taken off its day, with its list state
unfoldable pub unscheduled_payload : ℤ → Fields
unfolding fields_of
unscheduled_payload state = fields_of (
    ("st", int state)
    ∷ ("sr", null)
    ∷ ("tir", null)
    ∷ ("ato", null)
    ∷ ("rmd", null)
    ∷ ("sb", int (pos 0))
    ∷ [])

-- an item without a place, with its list state
unfoldable pub unplaced_payload : ℤ → Fields
unfolding fields_of
unplaced_payload state = fields_of (
    ("pr", texts [])
    ∷ ("ar", texts [])
    ∷ ("agr", texts [])
    ∷ ("st", int state)
    ∷ ("sb", int (pos 0))
    ∷ ("sr", null)
    ∷ ("tir", null)
    ∷ ("ato", null)
    ∷ ("rmd", null)
    ∷ [])

-- `_needs_anytime_list_state`
unfoldable pub needs_anytime_list_state : Write → Option Record → Bool
needs_anytime_list_state w current =
    not (w.someday || not (is_none w.start) || w.tonight || w.anytime || w.inbox) && (elim current [
      | none ↦ true
      | some item ↦ not (item.someday || not (is_none item.start) || item.tonight)
    ])

-- the places of a payload, with the list state of an item that leaves Inbox
abbrev pub with_list_state : Bool → Fields → Fields
with_list_state needs payload = if needs then put "st" (int (pos 1)) payload else payload

-- `_placement`
unfoldable pub placement : Write → Option Record → Fields
unfolding fields_of needs_anytime_list_state unplaced_payload
placement w current =
    if w.clear_heading && is_none w.into_uuid && is_none w.into_kind && not w.inbox && not w.anytime
    then field "agr" (texts []) empty
    else if is_kind w.into_kind Kind.project && truthy_text w.into_uuid
    then with_list_state (needs_anytime_list_state w current) (
        fields_of
          (("pr", one_text w.into_uuid) ∷ ("ar", texts []) ∷ ("agr", one_text w.heading_uuid) ∷ []))
    else if is_kind w.into_kind Kind.area && truthy_text w.into_uuid
    then with_list_state (needs_anytime_list_state w current)
        (fields_of (("ar", one_text w.into_uuid) ∷ ("pr", texts []) ∷ ("agr", texts []) ∷ []))
    else if kind_eq w.kind Kind.project || w.anytime
    then unplaced_payload (pos 1)
    else unplaced_payload (pos 0)
