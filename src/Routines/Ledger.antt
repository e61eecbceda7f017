-- ===== src/Routines/Ledger.antt =====
-- Settling due candidates into events: `_settle` of `RoutineStore`.
pub mod Emits
pub mod Candidates
pub mod Once
use things3_orchestrator.Prelude.{
  leb, if◌then◌else◌, contains, err, ok, ◌>>=◌, ◌>>◌, Dict, lookup, insert, ℕ, String, ◌==◌, Bool,
  true, false, not, ◌&&◌, ◌||◌, Option, none, some, List, [], ◌∷◌,
}
use things3_orchestrator.Routines.Types.{
  TaskKind, Lifecycle, Candidate, EventBody, DeliveryState, Event, Database, Profile, constraint,
  conflicting_event, Stored,
}
use things3_orchestrator.Routines.Store.{delete_candidate}
use Prim.Native.String.{compare}
use Prim.Native.Nat.{Ordering}

-- what `ORDER BY` compares first: a text in the order of its bytes
unfoldable pub text_before : String → String → Bool
text_before a b = elim (compare a b) [
  | Ordering.lt ↦ true
  | Ordering.eq ↦ true
  | Ordering.gt ↦ false
]

unfoldable pub insert_row : String × Candidate → Dict Candidate → Dict Candidate
unfolding text_before
insert_row row [] = row ∷ []
insert_row row (next ∷ rows) =
    let later = insert_row row rows in
    if text_before row.0 next.0 then row ∷ next ∷ rows else next ∷ later

-- the candidates with `settle_after <= now`, ordered by their tasks
unfoldable pub due_candidates : ℕ → Dict Candidate → Dict Candidate
unfolding insert_row
due_candidates now [] = []
due_candidates now (row ∷ rows) =
    let rest = due_candidates now rows in
    if leb row.1.settle_after now then insert_row row rest else rest

-- the join of `candidate_tags` with `ai_tags` for a task
unfoldable pub has_ai_tag : String → List (String × String) → List String → Bool
has_ai_tag uuid [] tags = false
has_ai_tag uuid (pair ∷ pairs) tags =
    (pair.0 == uuid && contains pair.1 tags) || has_ai_tag uuid pairs tags

unfoldable pub find_event : String → String → Dict Event → Option String
find_event routine uuid [] = none
find_event routine uuid (entry ∷ rows) =
    if entry.1.routine_id == routine && entry.1.task_uuid == uuid
    then some entry.0
    else find_event routine uuid rows

abbrev is_task : TaskKind → Bool
is_task TaskKind.task = true
is_task _ = false

abbrev is_open : Lifecycle → Bool
is_open Lifecycle.opened = true
is_open _ = false

abbrev pub is_open_task : Candidate → Bool
is_open_task c = is_task c.task_kind && (is_open c.lifecycle && not c.trashed)

-- `canonical_event_body`, before it is written as JSON
unfoldable pub event_body : String → String → String → ℕ → EventBody
event_body event_id routine uuid observed = record {
  event_id = event_id;
  observed_at = observed;
  routine_id = routine;
  task_id = uuid;
}

unfoldable pub fresh_event : Profile → String → String → Candidate → ℕ → Event
unfolding event_body
fresh_event profile id uuid c now = record {
  routine_id = profile.routine_id;
  task_uuid = uuid;
  creation_group = c.creation_group;
  observed_at = c.first_observed_at;
  body = some (event_body id profile.routine_id uuid c.first_observed_at);
  state = DeliveryState.pending;
  attempt_count = 0;
  next_attempt_at = some now;
  last_attempt_at = none;
  last_http_status = none;
  last_result = none;
  terminal_at = none;
}

-- `INSERT INTO events`, whose primary key is the event's id
unfoldable pub insert_event : String → Event → Database → Stored Database
insert_event id event db = elim (lookup id db.events) [
  | none ↦ ok (record db { events = insert id event db.events })
  | some _ ↦ err constraint
]

unfoldable pub emit :
    Profile → String → Candidate → ℕ → String → Option String → Database → Stored Database
unfolding fresh_event insert_event
emit profile uuid c now id none db = insert_event id (fresh_event profile id uuid c now) db
emit profile uuid c now id (some known) db = if known == id then ok db else err conflicting_event

-- an event for an open task that has the trigger tag
unfoldable pub emit_matching :
    Profile → String → ℕ → String × Candidate → Database → Stored Database
unfolding emit has_ai_tag find_event
emit_matching profile namespace now row db =
    if is_open_task row.1 && has_ai_tag row.0 db.candidate_tags db.ai_tags
    then emit profile row.0 row.1 now (profile.event_id namespace profile.routine_id row.0)
        (find_event profile.routine_id row.0 db.events) db
    else ok db

unfoldable pub settle_one : Profile → String → ℕ → String × Candidate → Database → Stored Database
unfolding emit_matching
settle_one profile namespace now row db = do
  emitted ← emit_matching profile namespace now row db
  ok (delete_candidate row.0 emitted)

unfoldable pub settle_each : Profile → String → ℕ → Dict Candidate → Database → Stored Database
unfolding settle_one
settle_each profile namespace now [] db = ok db
settle_each profile namespace now (row ∷ rows) db = do
  settled ← settle_one profile namespace now row db
  settle_each profile namespace now rows settled

unfoldable pub settle : Profile → String → ℕ → Database → Stored Database
unfolding due_candidates settle_each
settle profile namespace now db =
    settle_each profile namespace now (due_candidates now db.candidates) db
