-- ===== src/Routines/PollTests.antt =====
-- A page of the history, a delivery that is to be tried again, and instances of their theorems.
use things3_orchestrator.Prelude.{
  length, pos, ok, ℕ, ◌+◌, ◌≤◌, ◌≡◌, refl, ◌↔◌, true, false, some, [], ◌∷◌,
}
use things3_orchestrator.Json.{
  JsonValue, int, str, list, dict, nil, cons, empty, field, get, has_key, values,
}
use things3_orchestrator.Routines.Types.{HistoryBatch}
use things3_orchestrator.Routines.Batch.Reduce.{IsNumbered}
use things3_orchestrator.Routines.Delivery.{StoredEvent}
use things3_orchestrator.Routines.Worker.{RetryPolicy, DeliveryKind, DeliveryResult}
use things3_orchestrator.Routines.History.{validate_grouped_payload, history_groups}
use things3_orchestrator.Routines.History.Numbered.{history_groups_fit}

abbrev policy : RetryPolicy
policy = record {
  initial_delay_seconds = 5;
  max_delay_seconds = 900;
  max_attempts = 10;
  max_age_seconds = 604800;
}

abbrev due_event : StoredEvent
due_event = record {
  event_id = "task1";
  routine_id = "triage";
  task_uuid = "task1";
  observed_at = 100;
  body = record { event_id = "task1"; observed_at = 100; routine_id = "triage"; task_id = "task1" };
  attempt_count = 0;
}

abbrev unavailable : DeliveryResult
unavailable = record {
  kind = DeliveryKind.retry;
  code = "http_503";
  http_status = some 503;
  retry_after_seconds = some 60;
}

abbrev raw_page : JsonValue
raw_page = dict (
    field "current-item-index" (int (pos 3)) (
      field "items"
        (list (
          cons
            (dict (
              field "tag1"
                (dict (
                  field "t" (int (pos 0)) (
                    field "e" (str "Tag4") (field "p" (dict (field "tt" (str "AI") empty)) empty))))
                empty))
            nil))
        empty))

abbrev read_batch : HistoryBatch
read_batch = record {
  history_fingerprint = "history";
  requested_start = 1;
  current_head = 3;
  groups =
      record {
        index = 1;
        events =
            record {
              uuid = "tag1";
              action = 0;
              entity = "Tag4";
              payload = field "tt" (str "AI") empty;
            }
            ∷ [];
      }
      ∷ [];
  caught_up = false;
}

page_read : history_groups (λ s. true) "history" (pos 1) raw_page ≡ ok read_batch
unfolding history_groups get values validate_grouped_payload has_key
page_read = refl

history_groups_fit_example :
    (at : ℕ) × (pos 1 ≡ pos at)
    × (read_batch.requested_start ≡ at)
    × IsNumbered at read_batch.groups
    × (at + length read_batch.groups ≤ read_batch.current_head)
    × ((read_batch.caught_up ≡ true) ↔ (at + length read_batch.groups ≡ read_batch.current_head))
    × ((read_batch.groups ≡ []) → read_batch.caught_up ≡ true)
history_groups_fit_example = history_groups_fit (λ s. true) "history" (pos 1) raw_page page_read
