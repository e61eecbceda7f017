-- ===== src/Routines/Batch.antt =====
-- Opening and resetting the store, and applying a Cloud history batch: `open`, `reset_history`,
-- `cursor` and `apply_batch` of `RoutineStore`.
pub mod Reduce
pub mod Sound
pub mod Applies
use things3_orchestrator.Prelude.{
  ltb, leb, nat_eq, if◌then◌else◌, length, contains, err, ok, ◌>>=◌, ◌>>◌, raise_if, ℕ, ◌+◌, String,
  ◌==◌, Bool, true, false, not, ◌&&◌, ◌||◌, Option, none, some, List, [], ◌∷◌,
}
use things3_orchestrator.Routines.Types.{
  task_kinds, tag_kinds, HistoryEvent, HistoryGroup, HistoryBatch, Phase, Meta, Database, Profile,
  wrong_account, wrong_start, seeding_start, identity_changed, head_regressed, no_baseline, Stored,
}
use things3_orchestrator.Routines.Store.{reduce_tag, reduce_task}
use things3_orchestrator.Routines.Ledger.{settle}

unfoldable pub verify_account : Profile → Option Meta → Stored Meta
verify_account profile none = err wrong_account
verify_account profile (some row) =
    if row.account_digest == profile.account_digest then ok row else err wrong_account

-- `open`, once it holds the lock: a new database gets its row, with the 32 random bytes `namespace`
unfoldable pub open_row : Profile → String → Option Meta → Database → Stored Database
unfolding verify_account
open_row profile namespace none db = ok (record db {
  row = some (record {
    account_digest = profile.account_digest;
    namespace = namespace;
    fingerprint = none;
    phase = Phase.uninitialized;
    baseline_head = none;
    cursor = 0;
  });
})
open_row profile namespace (some row) db = do _ ← verify_account profile (some row); ok db

unfoldable pub open_store : Profile → String → Database → Stored Database
unfolding open_row
open_store profile namespace db = open_row profile namespace db.row db

unfoldable pub reset_history : Profile → Database → Stored Database
unfolding verify_account
reset_history profile db = do
  row ← verify_account profile db.row
  ok (record db {
    row = some (record row {
      fingerprint = none;
      phase = Phase.uninitialized;
      baseline_head = none;
      cursor = 0;
    });
    ai_tags = [];
    candidates = [];
    candidate_tags = [];
  })

unfoldable pub cursor : Profile → Database → Stored ℕ
unfolding verify_account
cursor profile db = do row ← verify_account profile db.row; ok row.cursor

abbrev pub is_live : Phase → Bool
is_live Phase.live = true
is_live _ = false

abbrev pub is_seeding : Phase → Bool
is_seeding Phase.seeding = true
is_seeding _ = false

abbrev pub has_begun : Phase → Bool
has_begun Phase.uninitialized = false
has_begun _ = true

unfoldable pub reduce_event : Profile → ℕ → Bool → ℕ → HistoryEvent → Database → Stored Database
reduce_event profile now watching group event db =
    if contains event.entity tag_kinds
    then ok (reduce_tag event db)
    else if watching && contains event.entity task_kinds
    then reduce_task profile event group now db
    else ok db

unfoldable pub reduce_events :
    Profile → ℕ → Bool → ℕ → List HistoryEvent → Database → Stored Database
unfolding reduce_event
reduce_events profile now watching group [] db = ok db
reduce_events profile now watching group (event ∷ events) db = do
  reduced ← reduce_event profile now watching group event db
  reduce_events profile now watching group events reduced

-- the phase once the loop has come to a group
unfoldable pub phase_at : ℕ → Phase → HistoryGroup → Phase
phase_at baseline phase group =
    if is_live phase || leb baseline group.index then Phase.live else phase

unfoldable pub reduce_groups :
    Profile → ℕ → ℕ → List HistoryGroup → Phase → Database → Stored (Phase × Database)
unfolding phase_at reduce_events
reduce_groups profile now baseline [] phase db = ok (phase, db)
reduce_groups profile now baseline (group ∷ groups) phase db = do
  reduced ←
      reduce_events profile now (is_live (phase_at baseline phase group)) group.index group.events
        db
  reduce_groups profile now baseline groups (phase_at baseline phase group) reduced

-- the phase and the baseline that the batch is applied with
unfoldable pub begin_seeding : Meta → HistoryBatch → Stored (Phase × ℕ)
begin_seeding row batch =
    if nat_eq row.cursor 0 && nat_eq batch.requested_start 0
    then ok (Phase.seeding, batch.current_head)
    else err seeding_start

unfoldable pub go_on : Phase → Option String → Option ℕ → HistoryBatch → Stored (Phase × ℕ)
go_on phase none baseline batch = err identity_changed
go_on phase (some known) none batch =
    if known == batch.history_fingerprint then err no_baseline else err identity_changed
go_on phase (some known) (some baseline) batch =
    if known == batch.history_fingerprint then ok (phase, baseline) else err identity_changed

unfoldable pub start_as : Phase → Meta → HistoryBatch → Stored (Phase × ℕ)
unfolding begin_seeding go_on
start_as Phase.uninitialized row batch = begin_seeding row batch
start_as Phase.seeding row batch = go_on Phase.seeding row.fingerprint row.baseline_head batch
start_as Phase.live row batch = go_on Phase.live row.fingerprint row.baseline_head batch

unfoldable pub phase_after : Phase → ℕ → ℕ → Phase
phase_after phase baseline reached =
    if is_seeding phase && leb baseline reached then Phase.live else phase

abbrev pub applied_row : Meta → HistoryBatch → ℕ → Phase → Meta
applied_row row batch baseline phase = record row {
  fingerprint = some batch.history_fingerprint;
  phase = phase;
  baseline_head = some baseline;
  cursor = row.cursor + length batch.groups;
}

unfoldable pub settle_if : Profile → String → ℕ → Bool → Database → Stored Database
settle_if profile namespace now test db = if test then settle profile namespace now db else ok db

-- the loop, the settlement and the update of `meta`
unfoldable pub apply_begun :
    Profile → HistoryBatch → ℕ → Meta → Phase → ℕ → Database → Stored Database
unfolding reduce_groups phase_after settle_if
apply_begun profile batch now row phase baseline db = do
  reduced ← reduce_groups profile now baseline batch.groups phase db
  let reached = phase_after reduced.0 baseline (row.cursor + length batch.groups)
  settled ← settle_if profile row.namespace now (is_live reached && batch.caught_up) reduced.1
  ok (record settled { row = some (applied_row row batch baseline reached) })

unfoldable pub apply_row : Profile → HistoryBatch → ℕ → Meta → Database → Stored Database
unfolding start_as apply_begun
apply_row profile batch now row db = do
  raise_if (not (nat_eq batch.requested_start row.cursor)) wrong_start
  begun ← start_as row.phase row batch
  raise_if (is_seeding begun.0 && ltb batch.current_head begun.1) head_regressed
  apply_begun profile batch now row begun.0 begun.1 db

unfoldable pub apply_batch : Profile → HistoryBatch → ℕ → Database → Stored Database
unfolding verify_account apply_row
apply_batch profile batch now db = do
  row ← verify_account profile db.row
  apply_row profile batch now row db
