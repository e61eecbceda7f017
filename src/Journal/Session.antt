-- ===== src/Journal/Session.antt =====
-- `_OwnedV2ApplySession`: the session that owns an operation while the workspace applies it.
use things3_orchestrator.Prelude.{
  nat_eq, if◌then◌else◌, ok, ◌>>=◌, ℕ, String, Bool, true, false, not, ◌&&◌, Option, none, some,
  List,
}
use things3_orchestrator.Json.{Fields}
use things3_orchestrator.Journal.Types.{V2State, V2Operation, Moment, Journal, Outcome, Digests}
use things3_orchestrator.Journal.Checks.{is_pending}
use things3_orchestrator.Journal.Memory.{
  CreateOutcome, CreateResult, create_v2, operation_for_mutation, mark_v2_dispatched, settle_v2,
}

-- A session is owned by the process and thread that opened it.
pub record Session : Type 0 where
  pub operation : V2Operation
  pub active : Bool
  pub owner : ℕ × ℕ

abbrev pub close : Session → Session
close s = record s { active = false }

abbrev pub owns : ℕ × ℕ → Session → Bool
owns caller s = nat_eq caller.0 s.owner.0 && (nat_eq caller.1 s.owner.1 && s.active)

module _ (digests : Digests) where
  -- `apply_session_v2`: the session of a pending operation
  session_of : Option V2Operation → ℕ × ℕ → Option Session
  session_of none caller = none
  session_of (some operation) caller =
      if is_pending operation.state
      then some (record { operation = operation; active = true; owner = caller })
      else none

  unfoldable pub apply_session : String → ℕ × ℕ → Journal → Option Session
  unfolding session_of
  apply_session id caller j = session_of (operation_for_mutation digests id j) caller

  abbrev may_apply : CreateOutcome → Bool
  may_apply CreateOutcome.created = true
  may_apply CreateOutcome.existing = true
  may_apply _ = false

  unfoldable pub create_apply_session :
      V2Operation → Moment → ℕ × ℕ → Journal → Outcome (CreateResult × Option Session × Journal)
  unfolding session_of
  create_apply_session operation now caller j = do
    made ← create_v2 digests operation now j
    let (result, j') = made
    ok (result, (if may_apply result.outcome then session_of result.stored caller else none), j')

  unfoldable pub session_mark : ℕ × ℕ → Session → Journal → Bool × Session × Journal
  session_mark caller s j =
      let (marked, j') = mark_v2_dispatched digests s.operation.operation_id j in
      if not (owns caller s)
      then (false, s, j)
      else if marked
      then (true, record s { operation = record s.operation { dispatch_started = true } }, j')
      else (false, s, j')

  unfoldable pub session_settle :
      ℕ × ℕ
      → Session
      → V2State
      → Fields
      → List Fields
      → Bool
      → Moment
      → Journal
      → Outcome (Bool × Journal)
  session_settle caller s state response rows definitive now j =
      if owns caller s
      then settle_v2 digests s.operation.operation_id V2State.pending state response rows definitive
          now j
      else ok (false, j)
