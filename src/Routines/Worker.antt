-- ===== src/Routines/Worker.antt =====
-- The delivery policy of `RoutineWorker`: `_record_delivery`.
pub mod Fits
pub mod Recorded
use things3_orchestrator.Prelude.{
  leb, if◌then◌else◌, ℕ, ◌+◌, ◌*◌, ◌^◌, String, Bool, true, false, ◌||◌, Option, none, some,
}
use things3_orchestrator.Routines.Types.{pending, dead, Database, Profile, Stored}
use things3_orchestrator.Routines.Delivery.{StoredEvent, Attempt, record_attempt}

pub record RetryPolicy : Type 0 where
  pub initial_delay_seconds : ℕ
  pub max_delay_seconds : ℕ
  pub max_attempts : ℕ
  pub max_age_seconds : ℕ

pub data DeliveryKind : Type 0 where
  delivered retry permanent : DeliveryKind

pub record DeliveryResult : Type 0 where
  pub kind : DeliveryKind
  pub code : String
  pub http_status : Option ℕ
  pub retry_after_seconds : Option ℕ

abbrev pub min_of : ℕ → ℕ → ℕ
min_of a b = if leb a b then a else b

abbrev pub max_of : ℕ → ℕ → ℕ
max_of a b = if leb a b then b else a

unfoldable pub exhausted : RetryPolicy → StoredEvent → ℕ → Bool
exhausted policy event now =
    leb policy.max_attempts (event.attempt_count + 1)
    || leb (event.observed_at + policy.max_age_seconds) now

unfoldable pub ceiling_of : RetryPolicy → ℕ → ℕ
ceiling_of policy attempts =
    min_of policy.max_delay_seconds (policy.initial_delay_seconds * 2 ^ min_of attempts 30)

unfoldable pub retry_delay : Option ℕ → ℕ → ℕ → ℕ
retry_delay none ceiling delay = delay
retry_delay (some after) ceiling delay = max_of delay (min_of after ceiling)

-- `jitter` is `int` of the worker's random number from 0 to its argument
unfoldable pub pending_until : RetryPolicy → (ℕ → ℕ) → StoredEvent → DeliveryResult → ℕ → ℕ
unfolding ceiling_of retry_delay
pending_until policy jitter event result now =
    let ceiling = ceiling_of policy event.attempt_count in
    now + max_of (retry_delay result.retry_after_seconds ceiling (jitter ceiling)) 1

-- a retry is dead once it is exhausted
unfoldable pub retry_or_dead : Bool → ℕ → String × Option ℕ
retry_or_dead true next = ("dead", none)
retry_or_dead false next = ("pending", some next)

-- the state that is recorded, and the next attempt
unfoldable pub decide :
    RetryPolicy → (ℕ → ℕ) → StoredEvent → DeliveryResult → DeliveryKind → ℕ → String × Option ℕ
unfolding exhausted pending_until retry_or_dead
decide policy jitter event result DeliveryKind.delivered now = ("delivered", none)
decide policy jitter event result DeliveryKind.permanent now = ("dead", none)
decide policy jitter event result DeliveryKind.retry now =
    retry_or_dead (exhausted policy event now) (pending_until policy jitter event result now)

unfoldable pub attempt_of : DeliveryResult → ℕ → Option ℕ → Attempt
attempt_of result now next = record {
  attempted_at = now;
  next_attempt_at = next;
  http_status = result.http_status;
  result = result.code;
}

-- `_record_delivery`; `now` is the epoch's second
unfoldable pub record_delivery :
    Profile → RetryPolicy → (ℕ → ℕ) → StoredEvent → DeliveryResult → ℕ → Database → Stored Database
unfolding decide attempt_of
record_delivery profile policy jitter event result now db =
    let decided = decide policy jitter event result result.kind now in
    record_attempt profile event.event_id decided.0 (attempt_of result now decided.1) db
