-- ===== src/Routines/History.antt =====
-- `history_groups` of cloud.py, from the decoded answer of the Cloud on: it validates one page of the
-- history and numbers its groups. Freezing a payload changes no value of it.
pub mod Numbered
use things3_orchestrator.Prelude.{
  ltb, leb, nat_eq, if◌then◌else◌, length, contains, ℤ, pos, negsuc, Result, err, ok, ◌>>=◌, ◌>>◌,
  raise_if, ℕ, suc, ◌+◌, String, ◌==◌, Bool, true, false, not, ◌&&◌, ◌||◌, Option, none, some, List,
  [], ◌∷◌, ◌++◌,
}
use things3_orchestrator.Json.{
  JsonValue, bool, int, str, list, dict, Fields, empty, field, get, has_key, items, values,
}
use things3_orchestrator.Routines.Types.{
  task_kinds, tag_kinds, HistoryEvent, HistoryGroup, HistoryBatch,
}

pub data HistoryError : Type 0 where
  bad_start unreadable moved_behind inconsistent bad_group bad_event : HistoryError
  unsupported_entity bad_payload gap : HistoryError

abbrev pub Page : Type 0 → Type 0
Page A = Result HistoryError A

-- `isinstance(v, int) and v in values`, where a `bool` is no `int`
unfoldable pub int_among : List ℕ → JsonValue → Bool
int_among [] v = false
int_among (n ∷ ns) (int (pos m)) = nat_eq m n || int_among ns (int (pos m))
int_among (n ∷ ns) _ = false

unfoldable pub text_like : JsonValue → Bool
text_like (str s) = true
text_like _ = false

unfoldable pub bool_like : JsonValue → Bool
bool_like (bool b) = true
bool_like _ = false

abbrev pub some_text : String → Bool
some_text s = not (s == "")

unfoldable pub all_texts : List JsonValue → Bool
all_texts [] = true
all_texts (str s ∷ vs) = some_text s && all_texts vs
all_texts (_ ∷ vs) = false

unfoldable pub tags_fit : JsonValue → Bool
unfolding all_texts
tags_fit (list vs) = all_texts (values vs)
tags_fit _ = false

-- `key in payload and not …`
abbrev pub misfits : String → (JsonValue → Bool) → Fields → Bool
misfits k fits payload = has_key k payload && not (fits (get k payload))

unfoldable pub validate_grouped_payload : String → Fields → Page (Unit {0})
unfolding int_among text_like bool_like tags_fit
validate_grouped_payload entity payload = do
  raise_if (contains entity tag_kinds && misfits "tt" text_like payload) bad_payload
  raise_if
      (contains entity task_kinds
        && (misfits "tp" (int_among (0 ∷ 1 ∷ 2 ∷ [])) payload
            || (misfits "ss" (int_among (0 ∷ 2 ∷ 3 ∷ [])) payload
                || (misfits "tr" bool_like payload || misfits "tg" tags_fit payload))))
      bad_payload

abbrev pub known_versioned : List String
known_versioned =
    task_kinds
    ++ ("Area3" ∷ "Area2" ∷ "Area" ∷ [])
    ++ tag_kinds
    ++ ("ChecklistItem3" ∷ "ChecklistItem2" ∷ "ChecklistItem" ∷ [])

-- the fields `t`, `e` and `p` of an event, if they have the right types
unfoldable pub event_parts : JsonValue → JsonValue → JsonValue → Option (ℕ × String × Fields)
event_parts (int (pos action)) (str entity) (dict payload) =
    if leb action 2 && some_text entity then some (action, entity, payload) else none
event_parts _ _ _ = none

module _ (versioned : String → Bool) where
  -- `versioned` is the match of `_VERSIONED_ENTITY`
  unfoldable pub checked_event : String → Option (ℕ × String × Fields) → Page HistoryEvent
  checked_event uuid none = err bad_event
  checked_event uuid (some (action, entity, payload)) = do
    raise_if (versioned entity && not (contains entity known_versioned)) unsupported_entity
    _ ← validate_grouped_payload entity payload
    ok (record { uuid = uuid; action = action; entity = entity; payload = payload })

  unfoldable pub read_event : String → JsonValue → Page HistoryEvent
  unfolding event_parts checked_event
  read_event uuid (dict raw) =
      if some_text uuid
      then checked_event uuid (event_parts (get "t" raw) (get "e" raw) (get "p" raw))
      else err bad_event
  read_event uuid _ = err bad_event

  unfoldable pub read_events : Fields → Page (List HistoryEvent)
  unfolding read_event
  read_events empty = ok []
  read_events (field uuid raw rest) = do
    event ← read_event uuid raw
    events ← read_events rest
    ok (event ∷ events)

  unfoldable pub read_group : ℕ → JsonValue → Page HistoryGroup
  unfolding read_events
  read_group at (dict raw) = do
    events ← read_events raw
    ok (record { index = at; events = events })
  read_group at _ = err bad_group

  unfoldable pub read_groups : ℕ → List JsonValue → Page (List HistoryGroup)
  unfolding read_group
  read_groups at [] = ok []
  read_groups at (raw ∷ raws) = do
    group ← read_group at raw
    groups ← read_groups (suc at) raws
    ok (group ∷ groups)

  -- the page once its head and its groups are known to be a number and a list
  unfoldable pub read_page : String → ℕ → ℕ → List JsonValue → Page HistoryBatch
  unfolding read_groups
  read_page fingerprint at current raws = do
    raise_if (ltb current at) moved_behind
    raise_if (ltb current (at + length raws)) inconsistent
    groups ← read_groups at raws
    raise_if (nat_eq (length groups) 0 && ltb (at + length groups) current) gap
    ok (record {
      history_fingerprint = fingerprint;
      requested_start = at;
      current_head = current;
      groups = groups;
      caught_up = leb current (at + length groups);
    })

  unfoldable pub page_of : String → ℕ → JsonValue → JsonValue → Page HistoryBatch
  unfolding read_page
  page_of fingerprint at (int (pos current)) (list raws) =
      read_page fingerprint at current (values raws)
  page_of fingerprint at _ _ = err unreadable

  -- `fingerprint` is the SHA-256 of the client's history id, `data` what `_history_data` decoded
  unfoldable pub history_groups : String → ℤ → JsonValue → Page HistoryBatch
  unfolding page_of
  history_groups fingerprint (negsuc n) data_read = err bad_start
  history_groups fingerprint (pos at) (dict data_read) =
      page_of fingerprint at (get "current-item-index" data_read) (get "items" data_read)
  history_groups fingerprint (pos at) _ = err unreadable
