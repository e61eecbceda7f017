-- ===== src/Library/Verify/Schedule.antt =====
-- The schedule that an update leaves, against the checks of `_MutationVerifier`.
use things3_orchestrator.Prelude.{
  if◌then◌else◌, bool_eq, Bool-cases, String, ◌==◌, eq_iff, ◌≡◌, refl, inl, inr, Bool, true, false,
  not, ◌&&◌, ◌||◌, Option, none, some, arith,
}
use things3_orchestrator.Calendar.{Date}
use things3_orchestrator.Library.Types.{Record, Write}
use things3_orchestrator.Library.Queries.{is_none}
use things3_orchestrator.Library.Handler.Edit.{
  unscheduled, started, set_start, set_tonight, set_anytime, set_dates, set_schedule,
}
use things3_orchestrator.Library.Verify.{day_fits, remind_fits, schedule_matches}
use things3_orchestrator.Library.Verify.Coherent.{coherent}

remind_refl : (r : String) → (r == r) ≡ true
remind_refl r = ground (arith, eq_iff r r)

-- The checks that do not look at the deadline.
core_matches : Record → Write → Bool
core_matches item w =
    day_fits w.start item.start
    && (is_none w.start || bool_eq item.tonight w.tonight)
    && (not w.clear_start
        || (is_none item.start && not item.someday && not item.tonight && is_none item.remind))
    && (not w.someday || (item.someday && not item.tonight))
    && (not w.tonight || item.tonight)
    && (not w.anytime
        || (not item.inbox && not item.someday && not item.tonight && is_none item.start))

core_started :
    (w : Write) (item : Record)
    → coherent w ≡ true
    → w.anytime ≡ false
    → core_matches (set_tonight w (set_start w item)) w ≡ true
unfolding coherent core_matches set_tonight set_start started
core_started w item c timed = ground arith

core_anytime :
    (w : Write) (item : Record)
    → coherent w ≡ true
    → w.anytime ≡ true
    → core_matches (record (unscheduled item) { inbox = false }) w ≡ true
unfolding coherent core_matches
core_anytime w item c on = ground arith

-- `clear` empties the field, else a value that is given is taken over
kept_or_given : {A : Type 0} → Bool → Option A → Option A → Option A
kept_or_given clear given old = if clear then none else if is_none given then old else given

deadline_dated :
    (clear : Bool) (given old : Option Date)
    → not clear || is_none given ≡ true
    → day_fits given (kept_or_given clear given old)
        && (not clear || is_none (kept_or_given clear given old))
      ≡ true
unfolding kept_or_given
deadline_dated true none old c = refl
deadline_dated true (some d) old c = absurd cc
deadline_dated false none old c = refl
deadline_dated false (some d) old c = ground arith

remind_dated :
    (clear : Bool) (given old : Option String)
    → not clear || is_none given ≡ true
    → remind_fits given (kept_or_given clear given old)
        && (not clear || is_none (kept_or_given clear given old))
      ≡ true
unfolding kept_or_given
remind_dated true none old c = refl
remind_dated true (some r) old c = absurd cc
remind_dated false none old c = refl
remind_dated false (some r) old c = ground (arith, eq_iff r r)

remind_unset :
    (clear : Bool) (given old : Option String)
    → is_none given ≡ true
    → is_none old ≡ true
    → is_none (kept_or_given clear given old) ≡ true
unfolding kept_or_given
remind_unset clear given old g o = ground arith

core_dated :
    (w : Write) (item : Record)
    → coherent w ≡ true
    → core_matches item w ≡ true
    → schedule_matches (set_dates w item) w ≡ true
unfolding coherent schedule_matches core_matches set_dates kept_or_given
core_dated w item c h =
    let d = deadline_dated w.clear_deadline w.deadline item.deadline (ground arith) in
    let r = remind_dated w.clear_remind w.remind item.remind (ground arith) in
    ground (arith, remind_unset w.clear_remind w.remind item.remind)

anytime_on :
    (w : Write) (item : Record)
    → w.anytime ≡ true
    → set_anytime w item ≡ record (unscheduled item) { inbox = false }
unfolding set_anytime
anytime_on w item on = ground arith

anytime_off : (w : Write) (item : Record) → w.anytime ≡ false → set_anytime w item ≡ item
unfolding set_anytime
anytime_off w item off = ground arith

core_set :
    (w : Write) (item : Record)
    → coherent w ≡ true
    → core_matches (set_anytime w (set_tonight w (set_start w item))) w ≡ true
core_set w item c =
    let started = set_tonight w (set_start w item) in
    elim (Bool-cases w.anytime) [
      | inl on ↦ rw (anytime_on w started on) (core_anytime w started c on)
      | inr timed ↦ rw (anytime_off w started timed) (core_started w item c timed)
    ]

pub schedule_set :
    (w : Write) (item : Record)
    → coherent w ≡ true
    → schedule_matches (set_schedule w item) w ≡ true
unfolding set_schedule
schedule_set w item c =
    core_dated w (set_anytime w (set_tonight w (set_start w item))) c (core_set w item c)
