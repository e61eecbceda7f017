-- ===== src/Routines/Ledger/Candidates.antt =====
-- What `_settle` does to the candidates.
use things3_orchestrator.Prelude.{
  Bool-cases, Option-cases, ok, >>=-eq-ok, Dict, lookup, total, total-erase, ℕ, ◌≤◌, String, ◌≡◌,
  inl, inr, ◌&&◌, Option, none, some, [], ◌∷◌, arith,
}
use things3_orchestrator.Routines.Types.{Candidate, Database, Profile, Stored}
use things3_orchestrator.Routines.Store.{delete_candidate}
use things3_orchestrator.Routines.Ledger.{
  due_candidates, has_ai_tag, find_event, is_open_task, insert_event, emit, emit_matching,
  settle_one, settle_each, settle,
}
use things3_orchestrator.Routines.Store.Reduce.{early}
use native.Mathlib.Nat.{le_trans}

module _ (profile : Profile) (namespace : String) (now baseline : ℕ) where
  emit-candidates :
      (uuid : String) (c : Candidate) (id : String) (known : Option String) (db : Database)
      {db' : Database}
      → emit profile uuid c now id known db ≡ ok db'
      → db'.candidates ≡ db.candidates
  unfolding emit insert_event
  emit-candidates uuid c id none db h = elim (Option-cases (lookup id db.events)) [
    | inl free ↦ ground arith
    | inr (old, known) ↦ absurd (ground arith)
  ]
  emit-candidates uuid c id (some known) db h = ground arith

  emit_matching-candidates :
      (row : String × Candidate) (db : Database) {db' : Database}
      → emit_matching profile namespace now row db ≡ ok db'
      → db'.candidates ≡ db.candidates
  unfolding emit_matching
  emit_matching-candidates row db {db' = db'} h =
      elim (Bool-cases (is_open_task row.1 && has_ai_tag row.0 db.candidate_tags db.ai_tags)) [
        | inl matches ↦
            emit-candidates row.0 row.1 (profile.event_id namespace profile.routine_id row.0)
              (find_event profile.routine_id row.0 db.events) db {db' = db'} (ground arith)
        | inr other ↦ ground arith
      ]

  deleted-no_earlier :
      (uuid : String) (db : Database) {db' : Database}
      → ◌≡◌ {A = Stored Database} (ok (delete_candidate uuid db)) (ok db')
      → total (early baseline) db'.candidates ≤ total (early baseline) db.candidates
  unfolding delete_candidate
  deleted-no_earlier uuid db h = ground (arith, total-erase (early baseline) uuid db.candidates)

  settle_one-no_earlier :
      (row : String × Candidate) (db : Database) {db' : Database}
      → settle_one profile namespace now row db ≡ ok db'
      → total (early baseline) db'.candidates ≤ total (early baseline) db.candidates
  unfolding settle_one
  settle_one-no_earlier row db h =
      let (e, emitted, is) = >>=-eq-ok (emit_matching profile namespace now row db) _ h in
      rw (← emit_matching-candidates row db emitted) (deleted-no_earlier row.0 e is)

  settle_each-no_earlier :
      (rows : Dict Candidate) (db : Database) {db' : Database}
      → settle_each profile namespace now rows db ≡ ok db'
      → total (early baseline) db'.candidates ≤ total (early baseline) db.candidates
  unfolding settle_each
  settle_each-no_earlier [] db h = ground arith
  settle_each-no_earlier (row ∷ rows) db h =
      let (mid, first, rest) = >>=-eq-ok (settle_one profile namespace now row db) _ h in
      le_trans (settle_each-no_earlier rows mid rest) (settle_one-no_earlier row db first)

  pub settle-no_earlier :
      (db : Database) {db' : Database}
      → settle profile namespace now db ≡ ok db'
      → total (early baseline) db'.candidates ≤ total (early baseline) db.candidates
  unfolding settle
  settle-no_earlier db h = settle_each-no_earlier (due_candidates now db.candidates) db h
