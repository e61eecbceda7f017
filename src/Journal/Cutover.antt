-- ===== src/Journal/Cutover.antt =====
-- The methods of `MemoryJournal` that retire old rows: `prune_v2`, `_store_retired_awaiting_owner`, and
-- the two that settle what is left of version 1. The child `Legacy` has `cutover_v1`.
pub mod Legacy
pub mod Fenced
pub mod Quarantine
use things3_orchestrator.Prelude.{
  leb, if◌then◌else◌, err, ok, Dict, lookup, insert, erase, ℕ, ◌+◌, ◌*◌, String, ◌==◌, Bool, true,
  false, not, ◌&&◌, ◌||◌, Option, none, some, [], ◌∷◌,
}
use things3_orchestrator.Json.{str, Fields, empty, field}
use things3_orchestrator.Journal.Types.{
  V2State, awaiting_owner, pending, applied, unchanged, not_applied, partial, partial_resolved,
  stale, declined, rejected, IntentState, V2Operation, IntentRecord, Moment, Journal, ambiguous,
  Outcome, Digests,
}
use things3_orchestrator.Journal.Checks.{is_pending, is_awaiting_owner, intent_is_pending}
use things3_orchestrator.Journal.Memory.{operation_for_mutation, settled}

abbrev field_text : String → String → Fields → Fields
field_text k s d = field k (str s) d

unfoldable pub retired_response : String → Fields
retired_response id = field_text "state" "stale" (
    field_text "code" "stale" (
      field_text "next_action" "read_fresh" (
        field_text "instruction"
          "This legacy awaiting-owner operation was retired without Cloud I/O. Never replay it; read current Things state and send a fresh request."
          (field_text "operation_id" id empty))))

unfoldable pub retire_awaiting_owner : V2Operation → V2Operation
unfolding retired_response
retire_awaiting_owner operation = record operation {
  state = V2State.stale;
  response = some (retired_response operation.operation_id);
}

abbrev time_created : Option (Moment × Option Moment) → Moment → Moment
time_created none now = now
time_created (some times) now = times.0

-- `_store_retired_awaiting_owner`, and the journal after it
unfoldable pub store_retired : V2Operation → Moment → Journal → Journal
unfolding retire_awaiting_owner
store_retired operation now j =
    let id = operation.operation_id in
    record j {
      operations = insert id (retire_awaiting_owner operation) j.operations;
      times = insert id (time_created (lookup id j.times) now, some now) j.times;
    }

unfoldable pub state_text : V2State → String
state_text V2State.awaiting_owner = "awaiting_owner"
state_text V2State.pending = "pending"
state_text V2State.applied = "applied"
state_text V2State.unchanged = "unchanged"
state_text V2State.not_applied = "not_applied"
state_text V2State.partial = "partial"
state_text V2State.partial_resolved = "partial_resolved"
state_text V2State.stale = "stale"
state_text V2State.declined = "declined"
state_text V2State.rejected = "rejected"

-- what a tombstone keeps of an operation
unfoldable pub tombstone : String → V2Operation → V2Operation
unfolding state_text
tombstone key operation = record operation {
  request_id = key;
  manifest = empty;
  response = some (
      field_text "state" (state_text operation.state) (
        field_text "instruction" "This operation is retained as a content-minimized tombstone."
          (field_text "operation_id" operation.operation_id empty)));
}

abbrev pub microseconds_per_day : ℕ
microseconds_per_day = 86400000000

-- `settled is None or settled >= now - timedelta(days=retention_days)`
unfoldable pub retained : Option Moment → Moment → ℕ → Bool
retained none now days = true
retained (some settled) now days = leb now (settled + days * microseconds_per_day)

abbrev settled_at : Option (Moment × Option Moment) → Option Moment
settled_at none = none
settled_at (some times) = times.1

module _ (digests : Digests) where
  open digests use {request_key}

  bury : String → V2Operation → Journal → Journal
  unfolding tombstone
  bury id operation j =
      let key = request_key operation.account_id operation.api_version operation.request_id in
      record j {
        tombstones = insert key (tombstone key operation) j.tombstones;
        operations = erase id j.operations;
        receipts = erase id j.receipts;
        times = erase id j.times;
      }

  -- an operation of the loop of `prune_v2` that does not wait for the owner
  unfoldable pub prune_kept : String → V2Operation → Moment → ℕ → Journal → ℕ × Journal
  unfolding bury
  prune_kept id operation now days j =
      if is_awaiting_owner operation.state
        || (is_pending operation.state || retained (settled_at (lookup id j.times)) now days)
      then (0, j)
      else (1, bury id operation j)

  -- one round; `_utc_now()` is the `clock`, and the caller gives `now`
  unfoldable pub prune_one : String → V2Operation → Moment → Moment → ℕ → Journal → ℕ × Journal
  prune_one id operation clock now days j =
      if is_awaiting_owner operation.state
      then prune_kept id (retire_awaiting_owner operation) now days
          (store_retired operation clock j)
      else prune_kept id operation now days j

  unfoldable pub prune_each : Dict V2Operation → Moment → Moment → ℕ → Journal → ℕ × Journal
  prune_each [] clock now days j = (0, j)
  prune_each (entry ∷ d) clock now days j =
      let (n, j') = prune_one entry.0 entry.1 clock now days j in
      let (m, j'') = prune_each d clock now days j' in (n + m, j'')

  unfoldable pub all_mutable : Dict V2Operation → Journal → Bool
  all_mutable [] j = true
  all_mutable (entry ∷ d) j =
      elim (operation_for_mutation digests entry.0 j) [ none ↦ false | some _ ↦ true ]
      && all_mutable d j

  unfoldable pub prune_v2 : Moment → Moment → ℕ → Journal → Outcome (ℕ × Journal)
  prune_v2 clock now days j =
      if not (all_mutable j.operations j)
      then err ambiguous
      else ok (prune_each j.operations clock now days j)

annotated : String → Fields → Option IntentRecord → Journal → Bool × Journal
annotated id result none j = (false, j)
annotated id result (some current) j =
    if intent_is_pending current.state
    then (
      true,
      record j { records = insert id (record current { result = some result }) j.records },
    )
    else (false, j)

unfoldable pub annotate_v1_pending : String → Fields → Journal → Bool × Journal
unfolding annotated
annotate_v1_pending id result j = annotated id result (lookup id j.records) j

module _ (digests : Digests) where
  open digests use {manifest_hash}

  -- `_legacy_plan_digest` hashes a plan as `v2_manifest_hash` hashes a manifest
  resolved_record :
      String
      → String
      → String
      → IntentState
      → Fields
      → Option IntentRecord
      → Journal
      → Bool × Journal
  resolved_record id fingerprint digest target result none j = (false, j)
  resolved_record id fingerprint digest target result (some current) j =
      if intent_is_pending current.state
        && (current.fingerprint == fingerprint && manifest_hash current.plan == digest)
      then (
        true,
        record j {
          records =
              insert id (record current { state = target; plan = empty; result = some result })
                j.records;
        },
      )
      else (false, j)

  unfoldable pub resolve_v1_pending :
      String → String → String → IntentState → Fields → Journal → Bool × Journal
  unfolding resolved_record
  resolve_v1_pending id fingerprint digest state result j =
      resolved_record id fingerprint digest state result (lookup id j.records) j
