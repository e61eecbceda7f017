-- ===== src/Routines/Types.antt =====
-- The tables of routines_store.py, the Cloud batches of cloud.py and what the store raises.
use things3_orchestrator.Prelude.{Result, Dict, ℕ, String, Bool, Option, List, [], ◌∷◌}
use things3_orchestrator.Json.{Fields}

-- `_TASK_KINDS` and `_TAG_KINDS` of cloud.py
abbrev pub task_kinds : List String
task_kinds = "Task7" ∷ "Task6" ∷ "Task4" ∷ "Task3" ∷ "Task" ∷ []

abbrev pub tag_kinds : List String
tag_kinds = "Tag4" ∷ "Tag3" ∷ "Tag" ∷ []

-- An action is 0 (create), 1 (change) or 2 (delete); batches are validated before they come here.
pub record HistoryEvent : Type 0 where
  pub uuid : String
  pub action : ℕ
  pub entity : String
  pub payload : Fields

pub record HistoryGroup : Type 0 where
  pub index : ℕ
  pub events : List HistoryEvent

pub record HistoryBatch : Type 0 where
  pub history_fingerprint : String
  pub requested_start : ℕ
  pub current_head : ℕ
  pub groups : List HistoryGroup
  pub caught_up : Bool

pub data Phase : Type 0 where
  uninitialized seeding live : Phase

-- the one row of `meta`
pub record Meta : Type 0 where
  pub account_digest : String
  pub namespace : String
  pub fingerprint : Option String
  pub phase : Phase
  pub baseline_head : Option ℕ
  pub cursor : ℕ

pub data TaskKind : Type 0 where
  unknown task project heading : TaskKind

pub data Lifecycle : Type 0 where
  unknown opened done dropped : Lifecycle

pub record Candidate : Type 0 where
  pub creation_group : ℕ
  pub task_kind : TaskKind
  pub lifecycle : Lifecycle
  pub trashed : Bool
  pub first_observed_at : ℕ
  pub last_observed_at : ℕ
  pub settle_after : ℕ

-- the fields of the JSON that `canonical_event_body` writes, less the constant ones
pub record EventBody : Type 0 where
  pub event_id : String
  pub observed_at : ℕ
  pub routine_id : String
  pub task_id : String

pub data DeliveryState : Type 0 where
  pending delivered dead : DeliveryState

pub record Event : Type 0 where
  pub routine_id : String
  pub task_uuid : String
  pub creation_group : ℕ
  pub observed_at : ℕ
  pub body : Option EventBody
  pub state : DeliveryState
  pub attempt_count : ℕ
  pub next_attempt_at : Option ℕ
  pub last_attempt_at : Option ℕ
  pub last_http_status : Option ℕ
  pub last_result : Option String
  pub terminal_at : Option ℕ

-- The tables, keyed by their primary keys. `candidate_tags` holds pairs of a task and a tag.
pub record Database : Type 0 where
  pub row : Option Meta
  pub ai_tags : List String
  pub candidates : Dict Candidate
  pub candidate_tags : List (String × String)
  pub events : Dict Event

-- what a store is opened with; `event_id` is `routine_event_id`, a SHA-256 of its parts
pub record Profile : Type 0 where
  pub account_digest : String
  pub routine_id : String
  pub settle_seconds : ℕ
  pub event_id : String → String → String → String

-- A constructor for each error; `constraint` is an `IntegrityError` of SQLite, `unbindable` a value
-- that SQLite cannot store, `no_baseline` the failed assertion, `no_body` the `TypeError` of
-- `bytes(None)`.
pub data StoreError : Type 0 where
  wrong_account no_meta wrong_start seeding_start identity_changed head_regressed : StoreError
  no_baseline constraint unbindable conflicting_event invalid_state disappeared : StoreError
  no_body : StoreError

-- A method runs in one transaction: what it raises rolls back all that it wrote.
abbrev pub Stored : Type 0 → Type 0
Stored A = Result StoreError A
