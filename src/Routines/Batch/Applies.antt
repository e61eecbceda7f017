-- ===== src/Routines/Batch/Applies.antt =====
-- What `apply_batch` does to a sound store: the cursor, the phase, the events and the candidates.
use things3_orchestrator.Prelude.{
  ltb, nat_eq, length, ok, >>=-eq-ok, raise_if, raise_if-ok, total, ℕ, ◌+◌, ◌≤◌, String, ◌≡◌, refl,
  ap, Bool, true, false, not, ◌&&◌, some, arith,
}
use things3_orchestrator.Routines.Types.{
  HistoryBatch, Phase, Meta, Database, Profile, wrong_start, head_regressed, Stored,
}
use things3_orchestrator.Routines.Batch.{
  verify_account, is_live, is_seeding, has_begun, reduce_groups, start_as, phase_after, applied_row,
  settle_if, apply_begun, apply_row, apply_batch,
}
use things3_orchestrator.Routines.Store.Reduce.{early}
use things3_orchestrator.Routines.Batch.Reduce.{
  IsNumbered, reduce_groups-Reduced, reduce_groups-begun,
}
use things3_orchestrator.Routines.Ledger.Emits.{Emits, settle-Emits}
use things3_orchestrator.Routines.Ledger.Candidates.{settle-no_earlier}
use things3_orchestrator.Routines.Batch.Sound.{
  SoundAs, IsSound, sound_some, verified, Starts, same_number, start_as-Starts,
}

-- What a batch that was applied has done.
pub record Applies (profile : Profile) (batch : HistoryBatch) (now : ℕ) (db db' : Database)
    : Type 0 where
  pub row : Meta
  pub phase : Phase
  pub baseline : ℕ
  pub phase' : Phase
  pub row_is : db.row ≡ some row
  pub at_cursor : batch.requested_start ≡ row.cursor
  pub starts : Starts row batch db.candidates phase baseline
  pub begun : has_begun phase' ≡ true
  pub row_after : db'.row ≡ some (applied_row row batch baseline phase')
  pub passed : is_live phase' ≡ true → baseline ≤ row.cursor + length batch.groups
  pub emits : Emits profile row.namespace now baseline db.events db'.events
  pub none_early : total (early baseline) db'.candidates ≡ 0

settle_if-cases :
    (profile : Profile) (namespace : String) (now baseline : ℕ) (test : Bool) (db : Database)
    {db' : Database}
    → total (early baseline) db.candidates ≡ 0
    → settle_if profile namespace now test db ≡ ok db'
    → Emits profile namespace now baseline db.events db'.events
      × (total (early baseline) db'.candidates ≡ 0)
unfolding settle_if
settle_if-cases profile namespace now baseline true db fresh h = (
  settle-Emits profile namespace now baseline db fresh h,
  omega (arith, fresh, settle-no_earlier profile namespace now baseline db h),
)
settle_if-cases profile namespace now baseline false db {db' = db'} fresh h =
    let same : db' ≡ db = ground arith in rw same (Emits.done, fresh)

module _ (profile : Profile) (batch : HistoryBatch) (now : ℕ) (row : Meta) where
  updated-is :
      (baseline : ℕ) (phase : Phase) (db : Database) {db' : Database}
      → ◌≡◌ {A = Stored Database}
          (ok (record db { row = some (applied_row row batch baseline phase) }))
          (ok db')
      → db' ≡ record db { row = some (applied_row row batch baseline phase) }
  updated-is baseline phase db h = ground arith

  phase_after-begun :
      (phase : Phase) (baseline at : ℕ)
      → has_begun phase ≡ true
      → has_begun (phase_after phase baseline at) ≡ true
  unfolding phase_after
  phase_after-begun phase baseline at h = ground arith

  phase_after-passed :
      (phase : Phase) (baseline at : ℕ)
      → (is_live phase ≡ true → baseline ≤ at)
      → is_live (phase_after phase baseline at) ≡ true
      → baseline ≤ at
  unfolding phase_after
  phase_after-passed Phase.uninitialized baseline at late h = absurd (ground arith)
  phase_after-passed Phase.seeding baseline at late h = ground arith
  phase_after-passed Phase.live baseline at late h = late refl

  apply_begun-Applies :
      (phase : Phase) (baseline : ℕ) (db : Database) {db' : Database}
      → db.row ≡ some row
      → batch.requested_start ≡ row.cursor
      → IsNumbered batch.requested_start batch.groups
      → Starts row batch db.candidates phase baseline
      → apply_begun profile batch now row phase baseline db ≡ ok db'
      → Applies profile batch now db db'
  unfolding apply_begun
  apply_begun-Applies phase baseline db row_is at numbered starts h =
      let (reduced, reduces, h1) =
        >>=-eq-ok (reduce_groups profile now baseline batch.groups phase db) _ h in
      let reached = phase_after reduced.0 baseline (row.cursor + length batch.groups) in
      let (settled, settles, h2) =
        >>=-eq-ok
          (settle_if profile row.namespace now (is_live reached && batch.caught_up) reduced.1) _
          h1 in
      let is = updated-is baseline reached settled h2 in
      let (r, late) =
        reduce_groups-Reduced profile now baseline batch.requested_start batch.groups phase db
          numbered (λ now_live. rw at (starts.passed now_live)) reduces in
      let (emits, fresh) =
        settle_if-cases profile row.namespace now baseline _ reduced.1
          (omega (arith, r.no_earlier, starts.none_early)) settles in
      record {
        row = row;
        phase = phase;
        baseline = baseline;
        phase' = reached;
        row_is = row_is;
        at_cursor = at;
        starts = starts;
        begun =
            phase_after-begun reduced.0 baseline (row.cursor + length batch.groups)
              (reduce_groups-begun profile now baseline batch.groups phase db starts.begun reduces);
        row_after = ap (λ d. d.row) is;
        passed =
            phase_after-passed reduced.0 baseline (row.cursor + length batch.groups)
              (λ now_live. rw (← at) (late now_live));
        emits = rw (ap (λ d. d.events) is, ← r.same_events) emits;
        none_early = rw (ap (λ d. d.candidates) is) fresh;
      }

  apply_row-Applies :
      (db : Database) {db' : Database}
      → db.row ≡ some row
      → SoundAs row.phase row db.candidates
      → IsNumbered batch.requested_start batch.groups
      → apply_row profile batch now row db ≡ ok db'
      → Applies profile batch now db db'
  unfolding apply_row
  apply_row-Applies db row_is sound numbered h =
      let (_, at, h1) =
        >>=-eq-ok (raise_if (not (nat_eq batch.requested_start row.cursor)) wrong_start) _ h in
      let (begun, begins, h2) = >>=-eq-ok (start_as row.phase row batch) _ h1 in
      let (_, _, h3) =
        >>=-eq-ok (raise_if (is_seeding begun.0 && ltb batch.current_head begun.1) head_regressed) _
          h2 in
      apply_begun-Applies begun.0 begun.1 db row_is (same_number _ _ (raise_if-ok _ _ at)) numbered
        (start_as-Starts row.phase row batch db.candidates refl sound begins) h3

pub apply_batch-Applies :
    (profile : Profile) (batch : HistoryBatch) (now : ℕ) (db : Database) {db' : Database}
    → IsSound db
    → IsNumbered batch.requested_start batch.groups
    → apply_batch profile batch now db ≡ ok db'
    → Applies profile batch now db db'
unfolding apply_batch IsSound
apply_batch-Applies profile batch now db sound numbered h =
    let (row, found, h1) = >>=-eq-ok (verify_account profile db.row) _ h in
    let row_is = verified profile db.row found in
    apply_row-Applies profile batch now row db row_is
      (sound_some db.row row db.candidates row_is sound) numbered h1
