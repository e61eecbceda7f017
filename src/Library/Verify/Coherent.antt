-- ===== src/Library/Verify/Coherent.antt =====
-- Which writes ask for things that go together, and what an edit may change of an item's schedule.
use things3_orchestrator.Prelude.{if◌then◌else◌, ok, ◌≡◌, Bool, not, ◌&&◌, ◌||◌, arith}
use things3_orchestrator.Library.Types.{Kind, Record, Write}
use things3_orchestrator.Library.Queries.{is_kind, is_none}
use things3_orchestrator.Library.Handler.Edit.{
  place_item, move_item, started, set_start, set_tonight, set_anytime, set_dates, set_schedule,
}

-- an item with only its places and its schedule changed
abbrev pub IsRescheduled : Record → Record → Type 0
IsRescheduled item next = next ≡ record item {
  inbox = next.inbox;
  parent_uuid = next.parent_uuid;
  area_uuid = next.area_uuid;
  heading_uuid = next.heading_uuid;
  start = next.start;
  deadline = next.deadline;
  remind = next.remind;
  tonight = next.tonight;
  someday = next.someday;
}

pub place_item-IsRescheduled :
    (w : Write) (item next : Record) → place_item w item ≡ ok next → IsRescheduled item next
unfolding place_item
place_item-IsRescheduled w item next moved = ground arith

pub move_item-IsRescheduled :
    (w : Write) (item next : Record) → move_item w item ≡ ok next → IsRescheduled item next
unfolding move_item
move_item-IsRescheduled w item next moved =
    place_item-IsRescheduled w (record item { heading_uuid = w.heading_uuid }) next moved

pub set_schedule-IsRescheduled :
    (w : Write) (item : Record) → IsRescheduled item (set_schedule w item)
unfolding set_schedule set_dates set_anytime set_tonight set_start started
set_schedule-IsRescheduled w item = ground arith

-- The write does not ask for two things of which one undoes the other.
unfoldable pub coherent : Write → Bool
coherent w =
    (not w.clear_start || (is_none w.start && not w.someday && not w.tonight && is_none w.remind))
    && (not w.clear_deadline || is_none w.deadline)
    && (not w.clear_remind || is_none w.remind)
    && (not w.someday || (is_none w.start && not w.tonight))
    && (not (w.anytime || w.inbox)
        || (is_none w.start && not w.someday && not w.tonight && is_none w.remind))
    && not (w.anytime && w.inbox)
    && (not w.clear_heading || is_none w.heading_uuid)

-- A place is asked for by an area or Project, by Inbox or by Anytime, not by two of them, and a
-- heading only with its Project.
unfoldable pub one_place : Write → Bool
one_place w =
    (if is_none w.into_kind
      then is_none w.into_uuid && is_none w.heading_uuid
      else not w.inbox
        && not w.anytime
        && not (is_none w.into_uuid)
        && (is_kind w.into_kind Kind.project
            || (is_kind w.into_kind Kind.area && is_none w.heading_uuid)))
