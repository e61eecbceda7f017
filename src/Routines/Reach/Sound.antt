-- ===== src/Routines/Reach/Sound.antt =====
-- The row of `meta` and the candidates through all calls of the store.
use things3_orchestrator.Routines.Store.Reduce.{early}
use things3_orchestrator.Prelude.{
  ok, >>=-eq-ok, ok_inj, Dict, total, ℕ, ◌≤◌, String, ◌≡◌, refl, sym, true, Option, none, some,
}
use things3_orchestrator.Routines.Types.{HistoryBatch, Phase, Meta, Candidate, Database, Profile}
use things3_orchestrator.Routines.Batch.{
  verify_account, open_row, open_store, reset_history, is_live, has_begun, applied_row,
}
use things3_orchestrator.Routines.Batch.Sound.{SoundAs, SoundRow, IsSound}
use things3_orchestrator.Routines.Batch.Applies.{Applies, apply_batch-Applies}
use things3_orchestrator.Routines.Delivery.{Attempt}
use things3_orchestrator.Routines.Delivery.Attempts.{Recorded, record_attempt-Recorded}
use things3_orchestrator.Routines.Reach.{
  empty_database, StoreStep, opens, resets, applies, attempts, StoreSteps, stay, next,
}
use mathlib.Core.Path.{subst}

row_to_sound :
    (db : Database) (row : Option Meta) → db.row ≡ row → SoundRow row db.candidates → IsSound db
unfolding IsSound
row_to_sound db row e sound = subst (λ r. SoundRow r db.candidates) (sym e) sound

row_sound :
    (db : Database) (row : Option Meta) → db.row ≡ row → IsSound db → SoundRow row db.candidates
unfolding IsSound
row_sound db row e sound = subst (λ r. SoundRow r db.candidates) e sound

open-IsSound :
    (profile : Profile) (namespace : String) (row : Option Meta) (db : Database) {db' : Database}
    → db.row ≡ row
    → IsSound db
    → open_row profile namespace row db ≡ ok db'
    → IsSound db'
unfolding open_row
open-IsSound profile namespace none db is sound h =
    rw (← ok_inj h) (row_to_sound _ _ refl (row_sound db none is sound))
open-IsSound profile namespace (some row) db is sound h =
    let (_, _, same) = >>=-eq-ok (verify_account profile (some row)) _ h in rw (← ok_inj same) sound

reset-IsSound :
    (profile : Profile) (db : Database) {db' : Database}
    → reset_history profile db ≡ ok db'
    → IsSound db'
unfolding reset_history
reset-IsSound profile db h =
    let (row, _, is) = >>=-eq-ok (verify_account profile db.row) _ h in
    rw (← ok_inj is) (row_to_sound _ _ refl refl)

attempt-IsSound :
    (id : String) (a : Attempt) (db : Database) {db' : Database}
    → Recorded id a db db'
    → IsSound db
    → IsSound db'
unfolding IsSound
attempt-IsSound id a db r sound = rw r.after sound

begun-SoundRow :
    (row : Meta) (phase : Phase) (baseline : ℕ) (cs : Dict Candidate)
    → row.phase ≡ phase
    → has_begun phase ≡ true
    → row.baseline_head ≡ some baseline
    → (is_live row.phase ≡ true → baseline ≤ row.cursor)
    → total (early baseline) cs ≡ 0
    → SoundAs phase row cs
begun-SoundRow row Phase.uninitialized baseline cs is begun has passed fresh = absurd cc
begun-SoundRow row Phase.seeding baseline cs is begun has passed fresh =
    (baseline, has, passed, fresh)
begun-SoundRow row Phase.live baseline cs is begun has passed fresh = (baseline, has, passed, fresh)

applied-IsSound :
    (profile : Profile) (batch : HistoryBatch) (now : ℕ) (db : Database) {db' : Database}
    → Applies profile batch now db db'
    → IsSound db'
applied-IsSound profile batch now db {db' = db'} a =
    row_to_sound db' (some (applied_row a.row batch a.baseline a.phase')) a.row_after (
      begun-SoundRow (applied_row a.row batch a.baseline a.phase') a.phase' a.baseline
        db'.candidates refl a.begun refl a.passed a.none_early)

pub step-IsSound : {db db' : Database} → IsSound db → StoreStep db db' → IsSound db'
unfolding open_store
step-IsSound {db = db} sound (opens profile namespace h) =
    open-IsSound profile namespace db.row db refl sound h
step-IsSound {db = db} sound (resets profile h) = reset-IsSound profile db h
step-IsSound {db = db} sound (applies profile batch now numbered h) =
    applied-IsSound profile batch now db (apply_batch-Applies profile batch now db sound numbered h)
step-IsSound {db = db} sound (attempts profile id state a h) =
    attempt-IsSound id a db (record_attempt-Recorded profile id state a db h) sound

-- Calls leave a sound database sound.
pub steps-IsSound : {db db' : Database} → IsSound db → StoreSteps db db' → IsSound db'
steps-IsSound sound stay = sound
steps-IsSound sound (next r s) = step-IsSound (steps-IsSound sound r) s

pub empty-IsSound : IsSound empty_database
unfolding IsSound
empty-IsSound = refl
