-- ===== src/Routines/Worker/Fits.antt =====
-- The attempts that the table takes, and the pause before the next one.
use things3_orchestrator.Prelude.{
  ok, lookup, insert, ℕ, ◌+◌, ◌≤◌, ◌<◌, String, ◌≡◌, refl, true, Option, none, some, arith,
}
use things3_orchestrator.Routines.Types.{Meta, DeliveryState, Event, Database, Profile}
use things3_orchestrator.Routines.Delivery.{
  StoredEvent, state_of_text, has_value, event_fits, Attempt, attempted, update_event, record_as,
  record_attempt,
}
use things3_orchestrator.Routines.Worker.{
  RetryPolicy, DeliveryResult, min_of, max_of, ceiling_of, retry_delay, pending_until,
}
use things3_orchestrator.Routines.Batch.{verify_account}

-- `record_attempt` stores an attempt that the table's constraint takes.
pub attempt_stored :
    (profile : Profile) (id state : String) (target : DeliveryState) (a : Attempt) (db : Database)
    {row : Meta} (e : Event)
    → verify_account profile db.row ≡ ok row
    → lookup id db.events ≡ some e
    → e.state ≡ DeliveryState.pending
    → state_of_text state ≡ some target
    → event_fits (attempted target a e) ≡ true
    → record_attempt profile id state a db
      ≡ ok (record db { events = insert id (attempted target a e) db.events })
unfolding record_attempt record_as update_event
attempt_stored profile id state target a db e verified found waits named fits =
    rw (named, verified, found, waits, fits) refl

pub body_there :
    (e : Event) → e.state ≡ DeliveryState.pending → event_fits e ≡ true → has_value e.body ≡ true
unfolding event_fits
body_there e waits fits = ground arith

pub delivered_fits :
    (a : Attempt) (e : Event)
    → a.next_attempt_at ≡ none
    → event_fits (attempted DeliveryState.delivered a e) ≡ true
unfolding event_fits
delivered_fits a e h = rw h refl

pub dead_fits :
    (a : Attempt) (e : Event)
    → a.next_attempt_at ≡ none
    → has_value e.body ≡ true
    → event_fits (attempted DeliveryState.dead a e) ≡ true
unfolding event_fits
dead_fits a e h body = rw (h, body) refl

pub pending_fits :
    (a : Attempt) (e : Event) (next : ℕ)
    → a.next_attempt_at ≡ some next
    → has_value e.body ≡ true
    → event_fits (attempted DeliveryState.pending a e) ≡ true
unfolding event_fits
pending_fits a e next h body = rw (h, body) refl

min_of-left : (a b : ℕ) → min_of a b ≤ a
min_of-left a b = ground arith

ceiling_low :
    (policy : RetryPolicy) (attempts : ℕ) → ceiling_of policy attempts ≤ policy.max_delay_seconds
unfolding ceiling_of
ceiling_low policy attempts = min_of-left policy.max_delay_seconds _

delay_low :
    (after : Option ℕ) (ceiling delay : ℕ)
    → delay ≤ ceiling
    → retry_delay after ceiling delay ≤ ceiling
unfolding retry_delay
delay_low none ceiling delay h = h
delay_low (some after) ceiling delay h = ground arith

waits_within :
    (now d c m : ℕ)
    → d ≤ c
    → c ≤ m
    → (now < now + max_of d 1) × (now + max_of d 1 ≤ now + max_of m 1)
waits_within now d c m low top = (ground arith, ground arith)

-- The pause before the next attempt.
pub pending_until-bounds :
    (policy : RetryPolicy) (jitter : ℕ → ℕ) (event : StoredEvent) (result : DeliveryResult)
    (now : ℕ)
    → ((upper : ℕ) → jitter upper ≤ upper)
    → (now < pending_until policy jitter event result now)
      × (pending_until policy jitter event result now ≤ now + max_of policy.max_delay_seconds 1)
unfolding pending_until
pending_until-bounds policy jitter event result now low =
    let c = ceiling_of policy event.attempt_count in
    waits_within now (retry_delay result.retry_after_seconds c (jitter c)) c
      policy.max_delay_seconds (delay_low result.retry_after_seconds c (jitter c) (low c))
      (ceiling_low policy event.attempt_count)
