-- ===== src/Journal/Memory.antt =====
-- The methods of `MemoryJournal` that create, dispatch and settle operations. `now` is the value of
-- `_utc_now()`.
pub mod Creation
pub mod Fence
pub mod Replay
pub mod Settle
pub mod Once
pub mod Dispatched
use things3_orchestrator.Prelude.{
  nat_eq, if◌then◌else◌, err, ok, ◌>>=◌, ◌>>◌, raise_if, Dict, lookup, insert, dict_values, String,
  ◌==◌, Bool, true, false, not, ◌&&◌, ◌||◌, Option, none, some, List, [], ◌∷◌, ◌++◌,
}
use things3_orchestrator.Json.{Fields}
use things3_orchestrator.Journal.Types.{
  V2State, V2Operation, IntentRecord, Moment, Journal, bad_manifest, not_pending, Outcome, Digests,
}
use things3_orchestrator.Journal.Checks.{
  is_pending, intent_is_pending, is_apply_state, dispatch_allows_settlement, same_account_id,
  v2_manifest_is_valid, validate_operation_receipts, state_number, resolve_candidates,
}
use Prim.Native.String.{compare}
use Prim.Native.Nat.{Ordering}

-- inserts into a sorted list without repeats, for `sorted({…})`
unfoldable pub insert_sorted : String → List String → List String
insert_sorted s [] = s ∷ []
insert_sorted s (t ∷ ts) = elim (compare s t) [
  | Ordering.lt ↦ s ∷ t ∷ ts
  | Ordering.eq ↦ t ∷ ts
  | Ordering.gt ↦ t ∷ insert_sorted s ts
]

unfoldable pub sorted_set : List String → List String
unfolding insert_sorted
sorted_set [] = []
sorted_set (s ∷ ss) = insert_sorted s (sorted_set ss)

unfoldable pub pending_intents : List IntentRecord → List String
pending_intents [] = []
pending_intents (row ∷ rows) =
    let rest = pending_intents rows in
    if intent_is_pending row.state then row.intent_id ∷ rest else rest

pub data CreateOutcome : Type 0 where
  created existing conflict blocked : CreateOutcome

pub record CreateResult : Type 0 where
  pub outcome : CreateOutcome
  pub stored : Option V2Operation
  pub blockers : List String

module _ (digests : Digests) where
  open digests use {account_key, manifest_hash, request_key, receipt_hash}

  abbrev pub is_request : String → String → String → V2Operation → Bool
  is_request account api request row =
      same_account_id digests row.account_id account
      && (row.api_version == api && row.request_id == request)

  abbrev pub is_tombstone : String → String → String → String × V2Operation → Bool
  is_tombstone account api request entry =
      same_account_id digests entry.1.account_id account
      && (entry.1.api_version == api && entry.0 == request_key entry.1.account_id api request)

  unfoldable pub matching : String → String → String → List V2Operation → List V2Operation
  matching account api request [] = []
  matching account api request (row ∷ rows) =
      let rest = matching account api request rows in
      if is_request account api request row then row ∷ rest else rest

  unfoldable pub matching_tombstones :
      String → String → String → Dict V2Operation → List V2Operation
  matching_tombstones account api request [] = []
  matching_tombstones account api request (entry ∷ d) =
      let rest = matching_tombstones account api request d in
      if is_tombstone account api request entry then entry.1 ∷ rest else rest

  unfoldable pub candidates : String → String → String → Journal → List V2Operation
  candidates account api request j =
      matching account api request (dict_values j.operations)
      ++ matching_tombstones account api request j.tombstones

  unfoldable pub get_v2_request : String → String → String → Journal → Outcome (Option V2Operation)
  unfolding candidates
  get_v2_request account api request j = resolve_candidates (candidates account api request j)

  abbrev pub fences : String → V2Operation → Bool
  fences account row = same_account_id digests row.account_id account && is_pending row.state

  unfoldable pub pending_operations : String → List V2Operation → List String
  pending_operations account [] = []
  pending_operations account (row ∷ rows) =
      let rest = pending_operations account rows in
      if fences account row then row.operation_id ∷ rest else rest

  unfoldable pub blocking_v2_operations : String → Journal → List String
  blocking_v2_operations account j = sorted_set (
      pending_operations account (dict_values j.operations)
      ++ pending_intents (dict_values j.records))

  abbrev pub added : V2Operation → Moment → Journal → Journal
  added operation now j = record j {
    operations = insert operation.operation_id operation j.operations;
    times = insert operation.operation_id (now, none) j.times;
  }

  unfoldable pub create_fresh :
      V2Operation → Moment → List String → Journal → CreateResult × Journal
  create_fresh operation now [] j = (
    record { outcome = CreateOutcome.created; stored = some operation; blockers = [] },
    added operation now j,
  )
  create_fresh operation now blockers j =
      (record { outcome = CreateOutcome.blocked; stored = none; blockers = blockers }, j)

  unfoldable pub create_after :
      V2Operation → Moment → Option V2Operation → Journal → CreateResult × Journal
  unfolding create_fresh
  create_after operation now (some found) j = (
    record {
      outcome =
          if found.request_hash == operation.request_hash
          then CreateOutcome.existing
          else CreateOutcome.conflict;
      stored = some found;
      blockers = [];
    },
    j,
  )
  create_after operation now none j =
      create_fresh operation now (blocking_v2_operations operation.account_id j) j

  unfoldable pub create_v2 : V2Operation → Moment → Journal → Outcome (CreateResult × Journal)
  create_v2 operation now j = do
    raise_if (not (v2_manifest_is_valid digests operation)) bad_manifest
    raise_if (not (is_pending operation.state)) not_pending
    found ← get_v2_request operation.account_id operation.api_version operation.request_id j
    ok (create_after operation now found j)

  unfoldable pub same_request :
      V2Operation → String → Outcome (Option V2Operation) → Option V2Operation
  same_request current id (err e) = none
  same_request current id (ok none) = none
  same_request current id (ok (some request)) =
      if request.operation_id == id then some current else none

  -- `_v2_operation_for_mutation_locked`
  unfoldable pub operation_for_mutation : String → Journal → Option V2Operation
  unfolding same_request
  operation_for_mutation id j = elim (lookup id j.operations) [
    | none ↦ none
    | some current ↦
        same_request current id
          (get_v2_request current.account_id current.api_version current.request_id j)
  ]

  unfoldable pub mark_current : String → Option V2Operation → Journal → Bool × Journal
  mark_current id none j = (false, j)
  mark_current id (some current) j =
      if not (is_pending current.state)
      then (false, j)
      else if current.dispatch_started
      then (true, j)
      else (
        true,
        record j {
          operations = insert id (record current { dispatch_started = true }) j.operations;
        },
      )

  unfoldable pub mark_v2_dispatched : String → Journal → Bool × Journal
  mark_v2_dispatched id j = mark_current id (operation_for_mutation id j) j

  abbrev created_at : Option (Moment × Option Moment) → Moment → Moment
  created_at none now = now
  created_at (some times) now = times.0

  abbrev pub settled :
      String → V2Operation → V2State → Fields → List Fields → Moment → Journal → Journal
  settled id current state response rows now j = record j {
    receipts = insert id rows j.receipts;
    operations =
        insert id
          (record current {
            state = state;
            response = some response;
            receipt_hash = some (receipt_hash rows);
          })
          j.operations;
    times = insert id (created_at (lookup id j.times) now, some now) j.times;
  }

  unfoldable pub settle_current :
      String
      → Option V2Operation
      → V2State
      → V2State
      → Fields
      → List Fields
      → Bool
      → Moment
      → Journal
      → Outcome (Bool × Journal)
  settle_current id none expected target response rows definitive now j = ok (false, j)
  settle_current id (some current) expected target response rows definitive now j =
      if not (nat_eq (state_number current.state) (state_number expected))
        || not (dispatch_allows_settlement current target definitive)
      then ok (false, j)
      else do
        normalized ← validate_operation_receipts digests current rows
        ok (true, settled id current target response normalized now j)

  -- `_settle_v2_locked` with no owner action, as the workspace calls it
  unfoldable pub settle_v2 :
      String
      → V2State
      → V2State
      → Fields
      → List Fields
      → Bool
      → Moment
      → Journal
      → Outcome (Bool × Journal)
  settle_v2 id expected state response rows definitive now j =
      if not (is_pending expected) || not (is_apply_state state)
      then ok (false, j)
      else settle_current id (operation_for_mutation id j) expected state response rows definitive
          now j
