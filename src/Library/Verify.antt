-- ===== src/Library/Verify.antt =====
-- `_patch` of `_MutationVerifier`, and `_placement_matches`: whether an item shows what a write asks.
pub mod Actions
pub mod Coherent
pub mod Place
pub mod Schedule
pub mod Edited
pub mod Created
pub mod Applied
pub mod Labelled
use things3_orchestrator.Prelude.{
  nat_eq, if◌then◌else◌, bool_eq, ℤ, eq_ℤ, String, ◌==◌, Bool, true, false, not, ◌&&◌, ◌||◌, Option,
  none, some, List, [], ◌∷◌,
}
use things3_orchestrator.Calendar.{Date}
use things3_orchestrator.Library.Types.{Kind, Status, Record, Write}
use things3_orchestrator.Library.Queries.{kind_eq, is_kind, status_eq, is_none, same_text}

-- `item.field == value` at the types of the fields
abbrev pub same_day : Option Date → Option Date → Bool
same_day none none = true
same_day (some a) (some b) = nat_eq a b
same_day _ _ = false

unfoldable pub same_texts : List String → List String → Bool
same_texts [] [] = true
same_texts (s ∷ ss) (t ∷ ts) = (s == t) && same_texts ss ts
same_texts _ _ = false

-- `value is None or field == value`
abbrev pub text_fits : Option String → String → Bool
text_fits none held = true
text_fits (some t) held = held == t

abbrev pub status_fits : Option Status → Status → Bool
status_fits none held = true
status_fits (some s) held = status_eq held s

abbrev pub tags_fit : Option (List String) → List String → Bool
tags_fit none held = true
tags_fit (some ts) held = same_texts held ts

abbrev pub index_fits : Option ℤ → ℤ → Bool
index_fits none held = true
index_fits (some n) held = eq_ℤ held n

abbrev pub day_fits : Option Date → Option Date → Bool
day_fits none held = true
day_fits (some d) held = same_day held (some d)

abbrev pub remind_fits : Option String → Option String → Bool
remind_fits none held = true
remind_fits (some r) held = same_text held (some r)

abbrev pub pause_fits : Option Bool → Bool → Bool
pause_fits none held = true
pause_fits (some p) held = bool_eq held p

unfoldable pub unplaced : Record → Bool
unplaced item = not item.inbox && is_none item.parent_uuid && is_none item.area_uuid

-- `_placement_matches`
unfoldable pub placement_matches : Record → Write → Bool
unfolding unplaced
placement_matches item w =
    if kind_eq w.kind Kind.area
    then unplaced item
    else if is_kind w.into_kind Kind.project
    then same_text item.parent_uuid w.into_uuid
      && is_none item.area_uuid
      && not item.inbox
      && same_text item.heading_uuid w.heading_uuid
    else if is_kind w.into_kind Kind.area
    then same_text item.area_uuid w.into_uuid && is_none item.parent_uuid && not item.inbox
    else if kind_eq w.kind Kind.project
        || w.anytime
        || not (is_none w.start)
        || w.someday
        || w.tonight
    then unplaced item
    else item.inbox && is_none item.parent_uuid && is_none item.area_uuid

-- the checks of `_patch` on what the write sets
unfoldable pub fields_match : Record → Write → Bool
unfolding same_texts
fields_match item w =
    text_fits w.title item.title
    && text_fits w.notes item.notes
    && status_fits w.status item.status
    && tags_fit w.tag_uuids item.tag_uuids
    && index_fits w.sort_index item.sort_index
    && index_fits w.today_index item.today_index

-- its checks on dates, the reminder, Someday, tonight and Anytime
unfoldable pub schedule_matches : Record → Write → Bool
schedule_matches item w =
    day_fits w.deadline item.deadline
    && (not w.clear_deadline || is_none item.deadline)
    && day_fits w.start item.start
    && (is_none w.start || bool_eq item.tonight w.tonight)
    && (not w.clear_start
        || (is_none item.start && not item.someday && not item.tonight && is_none item.remind))
    && remind_fits w.remind item.remind
    && (not w.clear_remind || is_none item.remind)
    && (not w.someday || (item.someday && not item.tonight))
    && (not w.tonight || item.tonight)
    && (not w.anytime
        || (not item.inbox && not item.someday && not item.tonight && is_none item.start))

-- `_patch`
unfoldable pub patch_matches : Bool → Record → Write → Bool
unfolding fields_match schedule_matches placement_matches
patch_matches placement item w =
    fields_match item w
    && schedule_matches item w
    && (not w.clear_heading || is_none item.heading_uuid)
    && (not (
          placement
          || not (is_none w.into_uuid)
          || not (is_none w.into_kind)
          || w.inbox
          || w.anytime)
        || placement_matches item w)
