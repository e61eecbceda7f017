-- ===== src/Routines/Reach.antt =====
-- The calls of a `RoutineStore`, each by any profile, and the databases that they reach.
pub mod Sound
pub mod Events
pub mod Backfill
pub mod Due
use things3_orchestrator.Prelude.{ok, ℕ, String, ◌≡◌, none, []}
use things3_orchestrator.Routines.Types.{HistoryBatch, Database, Profile}
use things3_orchestrator.Routines.Batch.{open_store, reset_history, apply_batch}
use things3_orchestrator.Routines.Batch.Reduce.{IsNumbered}
use things3_orchestrator.Routines.Delivery.{Attempt, record_attempt}

abbrev pub empty_database : Database
empty_database = record {
  row = none;
  ai_tags = [];
  candidates = [];
  candidate_tags = [];
  events = [];
}

-- One call that returned. A batch comes from `history_groups`, which numbers its groups on from its
-- start.
pub data StoreStep (db : Database) : Database → Type 0 where
  opens :
      (profile : Profile) (namespace : String) {db' : Database}
      → open_store profile namespace db ≡ ok db'
      → StoreStep db db'
  resets :
      (profile : Profile) {db' : Database} → reset_history profile db ≡ ok db' → StoreStep db db'
  applies :
      (profile : Profile) (batch : HistoryBatch) (now : ℕ) {db' : Database}
      → IsNumbered batch.requested_start batch.groups
      → apply_batch profile batch now db ≡ ok db'
      → StoreStep db db'
  attempts :
      (profile : Profile) (id state : String) (a : Attempt) {db' : Database}
      → record_attempt profile id state a db ≡ ok db'
      → StoreStep db db'

-- Any number of calls, one after another.
pub data StoreSteps (db : Database) : Database → Type 0 where
  stay : StoreSteps db db
  next : {mid db' : Database} → StoreSteps db mid → StoreStep mid db' → StoreSteps db db'

abbrev pub StoreReach : Database → Type 0
StoreReach db = StoreSteps empty_database db
