-- ===== src/Routines/Worker/Recorded.antt =====
-- `_record_delivery` of a pending event.
use things3_orchestrator.Prelude.{
  ok, insert, ℕ, ◌+◌, ◌≤◌, ◌<◌, String, ◌≡◌, ◌⊎◌, true, false, Option, some,
}
use things3_orchestrator.Routines.Types.{DeliveryState, Event, Database, Profile}
use things3_orchestrator.Routines.Delivery.{StoredEvent, record_attempt}
use things3_orchestrator.Routines.Worker.{
  RetryPolicy, DeliveryKind, DeliveryResult, max_of, exhausted, attempt_of,
}

-- The row after an attempt, by the kind of the result: delivered by a delivery alone; dead by a
-- permanent failure or an exhausted retry; and pending by a retry that is not exhausted, with
-- attempts left and the next one soon.
unfoldable pub Decided : RetryPolicy → StoredEvent → DeliveryKind → ℕ → Event → Type 0
Decided policy event kind now after =
    ((kind ≡ DeliveryKind.delivered) × (after.state ≡ DeliveryState.delivered))
    ⊎ ((((kind ≡ DeliveryKind.permanent)
            ⊎ ((kind ≡ DeliveryKind.retry) × (exhausted policy event now ≡ true)))
          × (after.state ≡ DeliveryState.dead))
        ⊎ ((kind ≡ DeliveryKind.retry)
            × (exhausted policy event now ≡ false)
            × (after.state ≡ DeliveryState.pending)
            × (after.attempt_count < policy.max_attempts)
            × (next : ℕ) × (after.next_attempt_at ≡ some next)
            × (now < next)
            × (next ≤ now + max_of policy.max_delay_seconds 1)))

module _ (profile : Profile) (policy : RetryPolicy) (jitter : ℕ → ℕ) (event : StoredEvent)
    (result : DeliveryResult) (now : ℕ) (db : Database) (e : Event) where
  -- What a recorded decision leads to.
  RecordsAs : DeliveryKind → String × Option ℕ → Type 0
  RecordsAs kind decided =
      (after : Event) × (record_attempt profile event.event_id decided.0
          (attempt_of result now decided.1) db
        ≡ ok (record db { events = insert event.event_id after db.events }))
      × (after.attempt_count ≡ e.attempt_count + 1)
      × Decided policy event kind now after
