-- ===== src/Routines/Reach/Events.antt =====
-- The event table through all calls of the store.
use things3_orchestrator.Prelude.{
  Bool-cases, ok, >>=-eq-ok, ok_inj, eq_to, lookup, lookup-insert, total, total-insert_old, ℕ, ◌≤◌,
  String, ◌==◌, ◌≡◌, refl, ap, ◌∙◌, ◌≢◌, inl, inr, Option, none, some, arith,
}
use things3_orchestrator.Routines.Types.{Meta, DeliveryState, Event, Database, Profile}
use things3_orchestrator.Routines.Batch.{verify_account, open_row, open_store, reset_history}
use things3_orchestrator.Routines.Ledger.Emits.{Emits}
use things3_orchestrator.Routines.Batch.Sound.{IsSound}
use things3_orchestrator.Routines.Batch.Applies.{apply_batch-Applies}
use things3_orchestrator.Routines.Delivery.{Attempt, attempted}
use things3_orchestrator.Routines.Delivery.Attempts.{Recorded, record_attempt-Recorded}
use things3_orchestrator.Routines.Ledger.Once.{event_weight, Emits-once, Emits-keep}
use things3_orchestrator.Routines.Reach.{
  StoreStep, opens, resets, applies, attempts, StoreSteps, stay, next, StoreReach,
}
use things3_orchestrator.Routines.Reach.Sound.{steps-IsSound, empty-IsSound}

-- What one call does to the event table.
pub data EventsStep (db db' : Database) : Type 0 where
  kept : db'.events ≡ db.events → EventsStep db db'
  grown :
      (profile : Profile) (namespace : String) (now baseline : ℕ)
      → Emits profile namespace now baseline db.events db'.events
      → EventsStep db db'
  recorded : (id : String) (a : Attempt) → Recorded id a db db' → EventsStep db db'

open_row-kept :
    (profile : Profile) (namespace : String) (row : Option Meta) (db : Database) {db' : Database}
    → open_row profile namespace row db ≡ ok db'
    → db'.events ≡ db.events
unfolding open_row
open_row-kept profile namespace none db h = rw (← ok_inj h) refl
open_row-kept profile namespace (some row) db h =
    let (_, _, same) = >>=-eq-ok (verify_account profile (some row)) _ h in rw (← ok_inj same) refl

reset-kept :
    (profile : Profile) (db : Database) {db' : Database}
    → reset_history profile db ≡ ok db'
    → db'.events ≡ db.events
unfolding reset_history
reset-kept profile db h =
    let (row, _, is) = >>=-eq-ok (verify_account profile db.row) _ h in rw (← ok_inj is) refl

pub step-EventsStep : {db db' : Database} → IsSound db → StoreStep db db' → EventsStep db db'
unfolding open_store
step-EventsStep {db = db} sound (opens profile namespace h) =
    kept (open_row-kept profile namespace db.row db h)
step-EventsStep {db = db} sound (resets profile h) = kept (reset-kept profile db h)
step-EventsStep {db = db} sound (applies profile batch now numbered h) =
    let a = apply_batch-Applies profile batch now db sound numbered h in
    grown profile a.row.namespace now a.baseline a.emits
step-EventsStep {db = db} sound (attempts profile id state a h) =
    recorded id a (record_attempt-Recorded profile id state a db h)

attempted-weight :
    (routine task_id : String) (target : DeliveryState) (a : Attempt) (e : Event)
    → event_weight routine task_id (attempted target a e) ≡ event_weight routine task_id e
unfolding event_weight
attempted-weight routine task_id target a e = refl

-- An attempt is recorded in the same event's row.
Recorded-once :
    (routine task_id id : String) (a : Attempt) {db db' : Database}
    → Recorded id a db db'
    → total (event_weight routine task_id) db'.events
      ≡ total (event_weight routine task_id) db.events
Recorded-once routine task_id id a {db = db} r = rw (ap (λ d. d.events) r.after) (
    omega (
      arith,
      total-insert_old (event_weight routine task_id) id (attempted r.target a r.before) r.before
          db.events r.stored,
      attempted-weight routine task_id r.target a r.before,
    ))

once-step :
    (routine task_id : String) {db db' : Database}
    → EventsStep db db'
    → total (event_weight routine task_id) db.events ≤ 1
    → total (event_weight routine task_id) db'.events ≤ 1
once-step routine task_id (kept same) once = rw same once
once-step routine task_id (grown profile namespace now baseline emits) once =
    Emits-once routine task_id emits once
once-step routine task_id (recorded id a r) once = rw (Recorded-once routine task_id id a r) once

-- In every reachable database there is at most one event for a routine and a task.
pub one_event :
    (routine task_id : String) {db : Database}
    → StoreReach db
    → total (event_weight routine task_id) db.events ≤ 1
unfolding total
one_event routine task_id stay = omega arith
one_event routine task_id (next r s) =
    once-step routine task_id (step-EventsStep (steps-IsSound empty-IsSound r) s)
      (one_event routine task_id r)

same_row : (a b : Event) {x : Option Event} → x ≡ some a → x ≡ some b → b ≡ a
same_row a b p q = cc

-- The row of an event that is no longer pending stays as it is.
stays_step :
    (id : String) (e : Event) {db db' : Database}
    → EventsStep db db'
    → (e.state ≢ DeliveryState.pending)
    → lookup id db.events ≡ some e
    → lookup id db'.events ≡ some e
stays_step id e (kept same) over found = rw same found
stays_step id e (grown profile namespace now baseline emits) over found = Emits-keep id emits found
stays_step id e {db = db} (recorded key a r) over found =
    rw (ap (λ d. d.events) r.after) (elim (Bool-cases (key == id)) [
      | inl same ↦
          let is = eq_to key id same in
          absurd
            (over (ap (λ x. x.state) (same_row r.before e r.stored (rw is found)) ∙ r.was_pending))
      | inr other ↦ ground (arith, lookup-insert key id (attempted r.target a r.before) db.events)
    ])

-- From a reachable database on, an event that is delivered or dead keeps its row through any calls.
pub terminal_stays :
    (id : String) (e : Event) {db db' : Database}
    → StoreReach db
    → StoreSteps db db'
    → (e.state ≢ DeliveryState.pending)
    → lookup id db.events ≡ some e
    → lookup id db'.events ≡ some e
terminal_stays id e reach stay over found = found
terminal_stays id e reach (next r s) over found =
    stays_step id e (step-EventsStep (steps-IsSound (steps-IsSound empty-IsSound reach) r) s) over
      (terminal_stays id e reach r over found)
