-- ===== src/Routines/Reach/Backfill.antt =====
-- `apply_batch` on a reachable database: cursor, history, baseline and new events.
use things3_orchestrator.Prelude.{
  length, ok, lookup, ℕ, ◌+◌, ◌≤◌, String, ◌≡◌, refl, ◌⊎◌, inl, inr, true, Option, some, arith,
}
use things3_orchestrator.Routines.Types.{
  HistoryBatch, Phase, Meta, Candidate, DeliveryState, Event, Database, Profile,
}
use things3_orchestrator.Routines.Ledger.{fresh_event}
use things3_orchestrator.Routines.Batch.{is_live, applied_row, apply_batch}
use things3_orchestrator.Routines.Store.Reduce.{early}
use things3_orchestrator.Routines.Batch.Reduce.{IsNumbered}
use things3_orchestrator.Routines.Batch.Applies.{apply_batch-Applies}
use things3_orchestrator.Routines.Ledger.Once.{IsFresh, Emits-new}
use things3_orchestrator.Routines.Reach.{StoreReach}
use things3_orchestrator.Routines.Reach.Sound.{steps-IsSound, empty-IsSound}

early-zero : (baseline : ℕ) (c : Candidate) → early baseline c ≡ 0 → baseline ≤ c.creation_group
early-zero baseline c h = ground arith

-- An event made of a candidate that was created at the baseline of the row or later.
abbrev pub MadeAfterBaseline : Option Meta → ℕ → Event → Type 0
MadeAfterBaseline row now e =
    (meta : Meta) × (baseline : ℕ) × (row ≡ some meta)
    × (meta.baseline_head ≡ some baseline)
    × (baseline ≤ e.creation_group)
    × (e.state ≡ DeliveryState.pending)
    × (e.attempt_count ≡ 0)
    × (e.next_attempt_at ≡ some now)

fresh_after :
    (profile : Profile) (namespace : String) (now baseline : ℕ) (id : String) (e : Event)
    → IsFresh profile namespace now baseline id e
    → (baseline ≤ e.creation_group)
      × (e.state ≡ DeliveryState.pending)
      × (e.attempt_count ≡ 0)
      × (e.next_attempt_at ≡ some now)
unfolding IsFresh fresh_event
fresh_after profile namespace now baseline id e (uuid, c, _, late, is) =
    rw is (early-zero baseline c late, refl, refl, refl)

-- After a batch whose groups are numbered on from its start was applied to a reachable database, an
-- event was there before it, or it is a new pending one of a task created at the baseline of the
-- history or later.
pub no_backfill :
    (profile : Profile) (batch : HistoryBatch) (now : ℕ) (id : String) (e : Event)
    {db db' : Database}
    → StoreReach db
    → IsNumbered batch.requested_start batch.groups
    → apply_batch profile batch now db ≡ ok db'
    → lookup id db'.events ≡ some e
    → (lookup id db.events ≡ some e) ⊎ MadeAfterBaseline db'.row now e
no_backfill profile batch now id e {db = db} reach numbered h found =
    let a =
      apply_batch-Applies profile batch now db (steps-IsSound empty-IsSound reach) numbered h in
    elim (Emits-new id a.emits found) [
      | inl old ↦ inl old
      | inr fresh ↦
          let (late, waits, untried, soon) =
            fresh_after profile a.row.namespace now a.baseline id e fresh in
          inr (
            applied_row a.row batch a.baseline a.phase',
            a.baseline,
            a.row_after,
            refl,
            late,
            waits,
            untried,
            soon,
          )
    ]

-- A batch that was applied to a reachable database, with its groups numbered on from its start,
-- began at the cursor and moved it by the number of its groups. It is of the history of the row,
-- with the row's baseline, unless the row had none, and then its head is the baseline. The history
-- that is live after it has reached the baseline.
pub apply_batch_advances :
    (profile : Profile) (batch : HistoryBatch) (now : ℕ) {db db' : Database}
    → StoreReach db
    → IsNumbered batch.requested_start batch.groups
    → apply_batch profile batch now db ≡ ok db'
    → (row row' : Meta) × (baseline : ℕ) × (db.row ≡ some row)
      × (db'.row ≡ some row')
      × (batch.requested_start ≡ row.cursor)
      × (row'.cursor ≡ row.cursor + length batch.groups)
      × (row'.fingerprint ≡ some batch.history_fingerprint)
      × (row'.baseline_head ≡ some baseline)
      × (((row.phase ≡ Phase.uninitialized) × (baseline ≡ batch.current_head))
          ⊎ ((row.fingerprint ≡ some batch.history_fingerprint)
              × (row.baseline_head ≡ some baseline)))
      × (is_live row'.phase ≡ true → baseline ≤ row'.cursor)
apply_batch_advances profile batch now {db = db} reach numbered h =
    let a =
      apply_batch-Applies profile batch now db (steps-IsSound empty-IsSound reach) numbered h in
    (
      a.row,
      applied_row a.row batch a.baseline a.phase',
      a.baseline,
      a.row_is,
      a.row_after,
      a.at_cursor,
      refl,
      refl,
      refl,
      a.starts.known,
      a.passed,
    )
