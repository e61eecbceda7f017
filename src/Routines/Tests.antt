-- ===== src/Routines/Tests.antt =====
-- A history in which a tag and a task come after the baseline, and an instance of each theorem.
use things3_orchestrator.Routines.Store.{
  reduce_tag, delete_candidate, write_candidate, new_candidate, write_tags, reduce_task,
}
use things3_orchestrator.Routines.Ledger.{settle}
use things3_orchestrator.Prelude.{
  length, pos, ok, lookup, insert, erase, total, ℕ, ◌+◌, ◌≤◌, ◌≡◌, refl, ◌⊎◌, true, none, some, [],
  ◌∷◌,
}
use things3_orchestrator.Json.{
  int, str, list, nil, cons, empty, field, get, has_key, values, equals_text, truthy,
}
use things3_orchestrator.Routines.Types.{
  HistoryEvent, HistoryBatch, Phase, Meta, DeliveryState, Event, Database, Profile,
}
use things3_orchestrator.Routines.Batch.{
  verify_account, open_row, open_store, reset_history, is_live, apply_batch,
}
use things3_orchestrator.Routines.Batch.Reduce.{IsNumbered}
use things3_orchestrator.Routines.Delivery.{Attempt, attempted, record_attempt}
use things3_orchestrator.Routines.Ledger.Once.{event_weight}
use things3_orchestrator.Routines.Reach.{empty_database, StoreStep, stay, next, StoreReach}
use things3_orchestrator.Routines.Reach.Events.{one_event, terminal_stays}
use things3_orchestrator.Routines.Reach.Backfill.{
  MadeAfterBaseline, no_backfill, apply_batch_advances,
}

abbrev pub profile : Profile
profile = record {
  account_digest = "digest";
  routine_id = "triage";
  settle_seconds = 0;
  event_id = λ namespace routine task_id. task_id;
}

abbrev opened_database : Database
opened_database = record {
  row = some (record {
    account_digest = "digest";
    namespace = "namespace";
    fingerprint = none;
    phase = Phase.uninitialized;
    baseline_head = none;
    cursor = 0;
  });
  ai_tags = [];
  candidates = [];
  candidate_tags = [];
  events = [];
}

opened_run : open_store profile "namespace" empty_database ≡ ok opened_database
unfolding open_store open_row
opened_run = refl

abbrev tag_event : HistoryEvent
tag_event = record {
  uuid = "tag1";
  action = 0;
  entity = "Tag4";
  payload = field "tt" (str "AI") empty;
}

abbrev task_event : HistoryEvent
task_event = record {
  uuid = "task1";
  action = 0;
  entity = "Task6";
  payload =
      field "tp" (int (pos 0))
        (field "ss" (int (pos 0)) (field "tg" (list (cons (str "tag1") nil)) empty));
}

abbrev batch : HistoryBatch
batch = record {
  history_fingerprint = "history";
  requested_start = 0;
  current_head = 1;
  groups =
      record { index = 0; events = tag_event ∷ [] }
      ∷ record { index = 1; events = task_event ∷ [] }
      ∷ [];
  caught_up = true;
}

numbered : IsNumbered batch.requested_start batch.groups
unfolding IsNumbered
numbered = (refl, (refl, tt))

abbrev pub event : Event
event = record {
  routine_id = "triage";
  task_uuid = "task1";
  creation_group = 1;
  observed_at = 100;
  body =
      some (record {
        event_id = "task1";
        observed_at = 100;
        routine_id = "triage";
        task_id = "task1";
      });
  state = DeliveryState.pending;
  attempt_count = 0;
  next_attempt_at = some 100;
  last_attempt_at = none;
  last_http_status = none;
  last_result = none;
  terminal_at = none;
}

abbrev pub seeded_database : Database
seeded_database = record {
  row = some (record {
    account_digest = "digest";
    namespace = "namespace";
    fingerprint = some "history";
    phase = Phase.live;
    baseline_head = some 1;
    cursor = 2;
  });
  ai_tags = "tag1" ∷ [];
  candidates = [];
  candidate_tags = [];
  events = ("task1", event) ∷ [];
}

applied_run : apply_batch profile batch 100 opened_database ≡ ok seeded_database
unfolding apply_batch reduce_task write_candidate new_candidate write_tags has_key get values settle
    insert delete_candidate erase reduce_tag equals_text truthy lookup
applied_run = refl

abbrev attempt : Attempt
attempt = record {
  attempted_at = 130;
  next_attempt_at = none;
  http_status = some 202;
  result = "delivered";
}

abbrev delivered_event : Event
delivered_event = attempted DeliveryState.delivered attempt event

abbrev delivered_database : Database
delivered_database = record seeded_database { events = ("task1", delivered_event) ∷ [] }

attempted_run :
    record_attempt profile "task1" "delivered" attempt seeded_database ≡ ok delivered_database
unfolding record_attempt lookup insert
attempted_run = refl

abbrev reset_database : Database
reset_database = record delivered_database {
  row = some (record {
    account_digest = "digest";
    namespace = "namespace";
    fingerprint = none;
    phase = Phase.uninitialized;
    baseline_head = none;
    cursor = 0;
  });
  ai_tags = [];
}

reset_run : reset_history profile delivered_database ≡ ok reset_database
unfolding reset_history
reset_run = refl

opened_reach : StoreReach opened_database
opened_reach = next stay (StoreStep.opens profile "namespace" opened_run)

delivered_reach : StoreReach delivered_database
delivered_reach =
    next (next opened_reach (StoreStep.applies profile batch 100 numbered applied_run))
      (StoreStep.attempts profile "task1" "delivered" attempt attempted_run)

one_event_example : total (event_weight "triage" "task1") delivered_database.events ≤ 1
one_event_example = one_event "triage" "task1" delivered_reach

delivered_lookup : lookup "task1" delivered_database.events ≡ some delivered_event
unfolding lookup
delivered_lookup = refl

terminal_stays_example : lookup "task1" reset_database.events ≡ some delivered_event
terminal_stays_example =
    terminal_stays "task1" delivered_event delivered_reach
      (next stay (StoreStep.resets profile reset_run)) (λ e. cc) delivered_lookup

pub seeded_lookup : lookup "task1" seeded_database.events ≡ some event
unfolding lookup
seeded_lookup = refl

no_backfill_example :
    (lookup "task1" opened_database.events ≡ some event)
    ⊎ MadeAfterBaseline seeded_database.row 100 event
no_backfill_example =
    no_backfill profile batch 100 "task1" event opened_reach numbered applied_run seeded_lookup

apply_batch_advances_example :
    (row row' : Meta) × (baseline : ℕ) × (opened_database.row ≡ some row)
    × (seeded_database.row ≡ some row')
    × (batch.requested_start ≡ row.cursor)
    × (row'.cursor ≡ row.cursor + length batch.groups)
    × (row'.fingerprint ≡ some batch.history_fingerprint)
    × (row'.baseline_head ≡ some baseline)
    × (((row.phase ≡ Phase.uninitialized) × (baseline ≡ batch.current_head))
        ⊎ ((row.fingerprint ≡ some batch.history_fingerprint)
            × (row.baseline_head ≡ some baseline)))
    × (is_live row'.phase ≡ true → baseline ≤ row'.cursor)
apply_batch_advances_example =
    apply_batch_advances profile batch 100 opened_reach numbered applied_run

pub account_verified :
    verify_account profile seeded_database.row
    ≡ ok (record {
      account_digest = "digest";
      namespace = "namespace";
      fingerprint = some "history";
      phase = Phase.live;
      baseline_head = some 1;
      cursor = 2;
    })
unfolding verify_account
account_verified = refl
