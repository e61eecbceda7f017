-- ===== src/Journal/Tests.antt =====
-- Runs of the journal on one operation, and an instance of each theorem.
use things3_orchestrator.Journal.Cutover.Legacy.{quarantined_result, Report}
use things3_orchestrator.Journal.Memory.Fence.{pending_count}
use things3_orchestrator.Journal.Memory.Replay.{create_or_same}
use things3_orchestrator.Journal.Memory.Settle.{AfterDispatch, settle_fence}
use things3_orchestrator.Journal.Cutover.Fenced.{JournalStep, start, next, one_pending_operation}
use things3_orchestrator.Prelude.{
  length, pos, ok, lookup, insert, ◌≤◌, String, ◌≡◌, refl, ◌⊎◌, true, false, none, some, List, [],
  ◌∷◌,
}
use things3_orchestrator.Json.{
  null, int, str, list, dict, nil, cons, Fields, empty, field, get, values, equals_int, equals_text,
  equals_text_or_none,
}
use things3_orchestrator.Journal.Types.{
  V2State, IntentState, V2Operation, IntentRecord, Journal, new_journal, Digests,
}
use things3_orchestrator.Journal.Checks.{
  dispatch_allows_settlement, contiguous, write_count, same_account_id, v2_manifest_is_valid,
  receipts_fit, validate_operation_receipts, all_same, resolve_candidates,
}
use things3_orchestrator.Journal.Memory.{
  sorted_set, pending_intents, CreateOutcome, CreateResult, matching, matching_tombstones,
  candidates, get_v2_request, pending_operations, blocking_v2_operations, added, create_fresh,
  create_after, create_v2, same_request, operation_for_mutation, mark_current, mark_v2_dispatched,
  settled, settle_current, settle_v2,
}

abbrev digests : Digests
digests = record {
  account_key = λ s. s;
  manifest_hash = λ d. "manifest";
  request_key = λ account api request. request;
  receipt_hash = λ rows. "receipts";
}

abbrev text : String → String → Fields → Fields
text k s d = field k (str s) d

abbrev manifest_fields : Fields
manifest_fields = text "version" "v1" (
    text "schema_version" "v2.0" (
      text "account_id" "alice" (
        text "api_version" "2" (
          text "request_hash" "req" (
            text "tool" "things_apply" (
              text "safety_policy_digest" "policy" (
                field "expires_at" null (field "writes" (list (cons (dict empty) nil)) empty))))))))

abbrev operation : V2Operation
operation = record {
  account_id = "alice";
  api_version = "2";
  request_id = "r1";
  request_hash = "req";
  operation_id = "op1";
  tool = "things_apply";
  state = V2State.pending;
  manifest = manifest_fields;
  manifest_hash = "manifest";
  safety_policy_digest = "policy";
  expires_at = none;
  response = none;
  authorization = none;
  receipt_hash = none;
  dispatch_started = false;
}

abbrev rows : List Fields
rows = field "sequence" (int (pos 1)) empty ∷ []

abbrev made : CreateResult
made = record { outcome = CreateOutcome.created; stored = some operation; blockers = [] }

created_run :
    create_v2 digests operation 5 new_journal ≡ ok (made, added digests operation 5 new_journal)
unfolding create_v2 create_after create_fresh get_v2_request candidates matching matching_tombstones
    resolve_candidates blocking_v2_operations pending_operations pending_intents sorted_set
    v2_manifest_is_valid equals_text equals_text_or_none get
created_run = refl

abbrev dispatched : Journal
dispatched = (mark_v2_dispatched digests "op1" (added digests operation 5 new_journal)).1

create_or_same_example :
    ((made.outcome ≡ CreateOutcome.created)
      × (candidates digests operation.account_id operation.api_version operation.request_id
            new_journal
          ≡ [])
      × (blocking_v2_operations digests operation.account_id new_journal ≡ [])
      × (added digests operation 5 new_journal ≡ added digests operation 5 new_journal))
    ⊎ (added digests operation 5 new_journal ≡ new_journal)
create_or_same_example = create_or_same digests operation 5 new_journal created_run

dispatched_run :
    (mark_v2_dispatched digests "op1" (added digests operation 5 new_journal)).1 ≡ dispatched
unfolding mark_v2_dispatched mark_current operation_for_mutation same_request get_v2_request
    candidates matching matching_tombstones resolve_candidates all_same same_account_id insert
    lookup
dispatched_run = refl

abbrev reply : Fields
reply = text "state" "applied" empty

abbrev applied_journal : Journal
applied_journal =
    settled digests "op1" (record operation { dispatch_started = true }) V2State.applied reply rows
      7 dispatched

settled_run :
    settle_v2 digests "op1" V2State.pending V2State.applied reply rows false 7 dispatched
    ≡ ok (true, applied_journal)
unfolding settle_v2 settle_current dispatch_allows_settlement validate_operation_receipts
    receipts_fit v2_manifest_is_valid contiguous write_count values mark_v2_dispatched mark_current
    operation_for_mutation same_request get_v2_request candidates matching matching_tombstones
    resolve_candidates all_same same_account_id insert lookup equals_text equals_text_or_none get
    equals_int
settled_run = refl

settle_fence_example :
    (current : V2Operation) × (lookup "op1" dispatched.operations ≡ some current)
    × (current.state ≡ V2State.pending)
    × (v2_manifest_is_valid digests current ≡ true)
    × (contiguous 1 rows ≡ true)
    × (write_count (get "writes" current.manifest) ≡ some (length rows))
    × (lookup "op1" applied_journal.receipts ≡ some rows)
    × (lookup "op1" applied_journal.operations
        ≡ some (record current {
          state = V2State.applied;
          response = some reply;
          receipt_hash = some (digests.receipt_hash rows);
        }))
    × (((current.dispatch_started ≡ false) × (false ≡ false))
        ⊎ ((current.dispatch_started ≡ true) × AfterDispatch V2State.applied false))
settle_fence_example =
    settle_fence digests "op1" V2State.pending V2State.applied reply rows false 7 dispatched
      settled_run

one_pending_operation_example : pending_count digests "alice" dispatched ≤ 1
one_pending_operation_example = one_pending_operation digests "alice" (
    next (next start (JournalStep.creates operation 5 created_run))
      (JournalStep.dispatches "op1" dispatched_run))

abbrev waiting : IntentRecord
waiting = record {
  intent_id = "i1";
  fingerprint = "f1";
  state = IntentState.needs_approval;
  plan = text "title" "x" empty;
  plan_id = none;
  expires_at = none;
  result = none;
}

abbrev running : IntentRecord
running = record waiting { intent_id = "i2"; state = IntentState.pending }

abbrev old_journal : Journal
old_journal = record new_journal { records = ("i1", waiting) ∷ ("i2", running) ∷ [] }

abbrev cut_journal : Journal
cut_journal = record new_journal {
  records =
      (
        "i1",
        record waiting {
          state = IntentState.stale;
          plan = empty;
          result = some quarantined_result;
        },
      )
      ∷ ("i2", running)
      ∷ [];
}

abbrev report : Report
report = record {
  quarantined = "i1" ∷ [];
  unresolved = "i2" ∷ [];
  partial_like = [];
  terminal = [];
}
