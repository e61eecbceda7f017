-- ===== src/Routines/Delivery.antt =====
-- The delivery side of the ledger: `due_events`, `record_attempt` and `counts` of `RoutineStore`.
pub mod Attempts
pub mod Due
use things3_orchestrator.Prelude.{
  leb, nat_eq, if◌then◌else◌, length, take, ℤ, pos_part, err, ok, ◌>>=◌, ◌>>◌, Dict, lookup, insert,
  ℕ, suc, ◌+◌, String, ◌==◌, Bool, true, false, not, ◌&&◌, Option, none, some, List, [], ◌∷◌,
}
use things3_orchestrator.Routines.Types.{
  Phase, EventBody, DeliveryState, Event, Database, Profile, constraint, invalid_state, disappeared,
  no_body, Stored,
}
use things3_orchestrator.Routines.Ledger.{text_before}
use things3_orchestrator.Routines.Batch.{verify_account}

pub record StoredEvent : Type 0 where
  pub event_id : String
  pub routine_id : String
  pub task_uuid : String
  pub observed_at : ℕ
  pub body : EventBody
  pub attempt_count : ℕ

abbrev pub delivery_number : DeliveryState → ℕ
delivery_number DeliveryState.pending = 0
delivery_number DeliveryState.delivered = 1
delivery_number DeliveryState.dead = 2

abbrev at_or_zero : Option ℕ → ℕ
at_or_zero none = 0
at_or_zero (some t) = t

abbrev pub event_is_pending : Event → Bool
event_is_pending e = nat_eq (delivery_number e.state) 0

-- `state = 'pending' AND next_attempt_at <= ?`, where NULL is not below any number
unfoldable pub is_due : ℕ → Event → Bool
is_due now e = event_is_pending e && elim e.next_attempt_at [ none ↦ false | some t ↦ leb t now ]

-- a row is before another by `next_attempt_at`, and then by the event's id
unfoldable pub due_before : String × Event → String × Event → Bool
unfolding text_before
due_before a b =
    let s = at_or_zero a.1.next_attempt_at in
    let t = at_or_zero b.1.next_attempt_at in if nat_eq s t then text_before a.0 b.0 else leb s t

unfoldable pub insert_due : String × Event → Dict Event → Dict Event
unfolding due_before
insert_due row [] = row ∷ []
insert_due row (next ∷ rows) =
    let later = insert_due row rows in
    if due_before row next then row ∷ next ∷ rows else next ∷ later

unfoldable pub due_rows : ℕ → Dict Event → Dict Event
unfolding is_due insert_due
due_rows now [] = []
due_rows now (row ∷ rows) =
    let rest = due_rows now rows in if is_due now row.1 then insert_due row rest else rest

abbrev pub stored_event : String → Event → EventBody → StoredEvent
stored_event id e body = record {
  event_id = id;
  routine_id = e.routine_id;
  task_uuid = e.task_uuid;
  observed_at = e.observed_at;
  body = body;
  attempt_count = e.attempt_count;
}

unfoldable pub stored_events : Dict Event → Stored (List StoredEvent)
stored_events [] = ok []
stored_events (row ∷ rows) = do
  body ← elim row.1.body [ none ↦ err no_body | some body ↦ ok body ]
  rest ← stored_events rows
  ok (stored_event row.0 row.1 body ∷ rest)

-- `min(max(limit, 0), 25)`
unfoldable pub bounded : ℤ → ℕ
bounded limit = if leb (pos_part limit) 25 then pos_part limit else 25

unfoldable pub due_events : Profile → ℕ → ℤ → Database → Stored (List StoredEvent)
unfolding verify_account due_rows stored_events bounded
due_events profile now limit db = do
  _ ← verify_account profile db.row
  stored_events (take (bounded limit) (due_rows now db.events))

unfoldable pub state_of_text : String → Option DeliveryState
state_of_text s =
    if s == "pending"
    then some DeliveryState.pending
    else if s == "delivered"
    then some DeliveryState.delivered
    else if s == "dead"
    then some DeliveryState.dead
    else none

abbrev pub has_value : {A : Type 0} → Option A → Bool
has_value none = false
has_value (some _) = true

-- the `CHECK` constraint of `events` on the columns that an attempt changes
unfoldable pub event_fits : Event → Bool
event_fits e =
    fits e.state (has_value e.body) (has_value e.next_attempt_at) (has_value e.terminal_at)
  where
    fits : DeliveryState → Bool → Bool → Bool → Bool
    fits DeliveryState.pending has_body has_next has_end = has_body && (has_next && not has_end)
    fits DeliveryState.delivered has_body has_next has_end =
        not has_body && (not has_next && has_end)
    fits DeliveryState.dead has_body has_next has_end = has_body && (not has_next && has_end)

pub record Attempt : Type 0 where
  pub attempted_at : ℕ
  pub next_attempt_at : Option ℕ
  pub http_status : Option ℕ
  pub result : String

abbrev body_after : DeliveryState → Option EventBody → Option EventBody
body_after DeliveryState.delivered body = none
body_after _ body = body

abbrev end_of : DeliveryState → ℕ → Option ℕ
end_of DeliveryState.pending at = none
end_of _ at = some at

abbrev pub attempted : DeliveryState → Attempt → Event → Event
attempted target a e = record e {
  state = target;
  body = body_after target e.body;
  attempt_count = e.attempt_count + 1;
  next_attempt_at = a.next_attempt_at;
  last_attempt_at = some a.attempted_at;
  last_http_status = a.http_status;
  last_result = some a.result;
  terminal_at = end_of target a.attempted_at;
}

unfoldable pub update_event :
    String → DeliveryState → Attempt → Option Event → Database → Stored Database
unfolding event_fits
update_event id target a none db = err disappeared
update_event id target a (some e) db =
    if not (event_is_pending e)
    then err disappeared
    else if event_fits (attempted target a e)
    then ok (record db { events = insert id (attempted target a e) db.events })
    else err constraint

unfoldable pub record_as :
    Profile → String → Option DeliveryState → Attempt → Database → Stored Database
unfolding verify_account update_event
record_as profile id none a db = err invalid_state
record_as profile id (some target) a db = do
  _ ← verify_account profile db.row
  update_event id target a (lookup id db.events) db

unfoldable pub record_attempt : Profile → String → String → Attempt → Database → Stored Database
unfolding record_as state_of_text
record_attempt profile id state a db = record_as profile id (state_of_text state) a db

pub record StoreCounts : Type 0 where
  pub phase : Phase
  pub cursor : ℕ
  pub ai_tags : ℕ
  pub candidates : ℕ
  pub pending : ℕ
  pub delivered : ℕ
  pub dead : ℕ
  pub last_delivery_at : Option ℕ

unfoldable pub count_state : DeliveryState → Dict Event → ℕ
count_state s [] = 0
count_state s (row ∷ rows) =
    let rest = count_state s rows in
    if nat_eq (delivery_number row.1.state) (delivery_number s) then suc rest else rest

abbrev later_of : Option ℕ → Option ℕ → Option ℕ
later_of none t = t
later_of (some s) none = some s
later_of (some s) (some t) = some (if leb s t then t else s)

-- `MAX(terminal_at)` of the delivered events
unfoldable pub last_delivery : Dict Event → Option ℕ
last_delivery [] = none
last_delivery (row ∷ rows) =
    let rest = last_delivery rows in
    if nat_eq (delivery_number row.1.state) 1 then later_of row.1.terminal_at rest else rest

unfoldable pub counts : Profile → Database → Stored StoreCounts
unfolding verify_account count_state last_delivery
counts profile db = do
  row ← verify_account profile db.row
  ok (record {
    phase = row.phase;
    cursor = row.cursor;
    ai_tags = length db.ai_tags;
    candidates = length db.candidates;
    pending = count_state DeliveryState.pending db.events;
    delivered = count_state DeliveryState.delivered db.events;
    dead = count_state DeliveryState.dead db.events;
    last_delivery_at = last_delivery db.events;
  })
