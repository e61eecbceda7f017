-- ===== src/Routines/Delivery/Attempts.antt =====
-- What `record_attempt` has done when it returns.
use things3_orchestrator.Prelude.{
  nat_eq, Bool-cases, ok, >>=-eq-ok, lookup, insert, String, ◌≡◌, refl, inl, inr, true, Option,
  none, some, arith,
}
use things3_orchestrator.Routines.Types.{DeliveryState, Event, Database, Profile}
use things3_orchestrator.Routines.Batch.{verify_account}
use things3_orchestrator.Routines.Delivery.{
  delivery_number, event_is_pending, state_of_text, event_fits, Attempt, attempted, update_event,
  record_as, record_attempt,
}

pending_state :
    (s : DeliveryState) → nat_eq (delivery_number s) 0 ≡ true → s ≡ DeliveryState.pending
pending_state DeliveryState.pending h = refl
pending_state _ h = absurd (ground arith)

-- One attempt at an event that was pending.
pub record Recorded (id : String) (a : Attempt) (db db' : Database) : Type 0 where
  pub target : DeliveryState
  pub before : Event
  pub stored : lookup id db.events ≡ some before
  pub was_pending : before.state ≡ DeliveryState.pending
  pub fits : event_fits (attempted target a before) ≡ true
  pub after : db' ≡ record db { events = insert id (attempted target a before) db.events }

update-Recorded :
    (id : String) (target : DeliveryState) (a : Attempt) (found : Option Event) (db : Database)
    {db' : Database}
    → lookup id db.events ≡ found
    → update_event id target a found db ≡ ok db'
    → Recorded id a db db'
unfolding update_event
update-Recorded id target a none db is h = absurd cc
update-Recorded id target a (some e) db is h = elim (Bool-cases (event_is_pending e)) [
  | inl waits ↦ elim (Bool-cases (event_fits (attempted target a e))) [
    | inl fits ↦ record {
      target = target;
      before = e;
      stored = is;
      was_pending = pending_state e.state waits;
      fits = fits;
      after = ground arith;
    }
    | inr misfits ↦ absurd (ground arith)
  ]
  | inr over ↦ absurd (ground arith)
]

record_as-Recorded :
    (profile : Profile) (id : String) (target : Option DeliveryState) (a : Attempt) (db : Database)
    {db' : Database}
    → record_as profile id target a db ≡ ok db'
    → Recorded id a db db'
unfolding record_as
record_as-Recorded profile id none a db h = absurd cc
record_as-Recorded profile id (some target) a db h =
    let (row, _, h1) = >>=-eq-ok (verify_account profile db.row) _ h in
    update-Recorded id target a (lookup id db.events) db refl h1

pub record_attempt-Recorded :
    (profile : Profile) (id state : String) (a : Attempt) (db : Database) {db' : Database}
    → record_attempt profile id state a db ≡ ok db'
    → Recorded id a db db'
unfolding record_attempt
record_attempt-Recorded profile id state a db h =
    record_as-Recorded profile id (state_of_text state) a db h
