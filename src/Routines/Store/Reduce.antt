-- ===== src/Routines/Store/Reduce.antt =====
-- What `_reduce_tag` and `_reduce_task` do to the tables.
use things3_orchestrator.Prelude.{
  leb, nat_eq, if◌then◌else◌, Bool-cases, ok, >>=-eq-ok, lookup, insert, total, total-insert_old,
  total-erase, total-insert_le, ℕ, ◌≤◌, String, ◌≡◌, refl, ◌∙◌, inl, inr, Option, none, some, arith,
}
use things3_orchestrator.Routines.Types.{HistoryEvent, Candidate, Database, Profile}
use things3_orchestrator.Routines.Store.{
  reduce_tag, delete_candidate, write_candidate, new_candidate, changed_candidate, write_tags,
  change_task, create_task, reduce_task,
}
use native.Mathlib.Nat.{le_trans, le_refl}

-- group than the baseline.

-- 1 for a candidate of a group before the baseline
abbrev pub early : ℕ → Candidate → ℕ
early baseline c = if leb baseline c.creation_group then 0 else 1

-- What reducing leaves as it was.
pub record Reduced (baseline : ℕ) (db db' : Database) : Type 0 where
  pub same_events : db'.events ≡ db.events
  pub same_row : db'.row ≡ db.row
  pub no_earlier : total (early baseline) db'.candidates ≤ total (early baseline) db.candidates

module _ (baseline : ℕ) where
  pub same-Reduced : (db : Database) → Reduced baseline db db
  same-Reduced db = record { same_events = refl; same_row = refl; no_earlier = le_refl _ }

  pub both-Reduced :
      {a b c : Database} → Reduced baseline a b → Reduced baseline b c → Reduced baseline a c
  both-Reduced p q = record {
    same_events = q.same_events ∙ p.same_events;
    same_row = q.same_row ∙ p.same_row;
    no_earlier = le_trans q.no_earlier p.no_earlier;
  }

  pub Reduced-to : {a b c : Database} → Reduced baseline a b → b ≡ c → Reduced baseline a c
  Reduced-to r e = rw (← e) r

  pub reduce_tag-Reduced :
      (event : HistoryEvent) (db : Database) → Reduced baseline db (reduce_tag event db)
  unfolding reduce_tag
  reduce_tag-Reduced event db = record {
    same_events = ground arith;
    same_row = ground arith;
    no_earlier = ground arith;
  }

  pub delete_candidate-Reduced :
      (uuid : String) (db : Database) → Reduced baseline db (delete_candidate uuid db)
  unfolding delete_candidate
  delete_candidate-Reduced uuid db = record {
    same_events = refl;
    same_row = refl;
    no_earlier = total-erase (early baseline) uuid db.candidates;
  }

  write_candidate-Reduced :
      (uuid : String) (c : Candidate) (db : Database) {db' : Database}
      → write_candidate uuid c db ≡ ok db'
      → total (early baseline) (insert uuid c db.candidates) ≤ total (early baseline) db.candidates
      → Reduced baseline db db'
  unfolding write_candidate
  write_candidate-Reduced uuid c db h less = record {
    same_events = ground arith;
    same_row = ground arith;
    no_earlier = ground (arith, less);
  }

  write_tags-Reduced :
      (event : HistoryEvent) (db : Database) {db' : Database}
      → write_tags event db ≡ ok db'
      → Reduced baseline db db'
  unfolding write_tags
  write_tags-Reduced event db h = record {
    same_events = ground arith;
    same_row = ground arith;
    no_earlier = ground arith;
  }

  new-early :
      (profile : Profile) (event : HistoryEvent) (group now : ℕ)
      → baseline ≤ group
      → early baseline (new_candidate profile event group now) ≡ 0
  unfolding new_candidate
  new-early profile event group now late = ground arith

  create_task-Reduced :
      (profile : Profile) (event : HistoryEvent) (group now : ℕ) (db : Database) {db' : Database}
      → baseline ≤ group
      → create_task profile event group now db ≡ ok db'
      → Reduced baseline db db'
  unfolding create_task
  create_task-Reduced profile event group now db late h =
      let (created, written, tagged) =
        >>=-eq-ok (write_candidate event.uuid (new_candidate profile event group now) db) _ h in
      both-Reduced
        (write_candidate-Reduced event.uuid _ db written (
          omega (
            arith,
            total-insert_le (early baseline) event.uuid (new_candidate profile event group now)
                db.candidates,
            new-early profile event group now late,
          )))
        (write_tags-Reduced event created tagged)

  changed-early :
      (profile : Profile) (event : HistoryEvent) (now : ℕ) (c : Candidate)
      → early baseline (changed_candidate profile event now c) ≡ early baseline c
  unfolding changed_candidate
  changed-early profile event now c = refl

  change_task-Reduced :
      (profile : Profile) (event : HistoryEvent) (now : ℕ) (found : Option Candidate)
      (db : Database) {db' : Database}
      → lookup event.uuid db.candidates ≡ found
      → change_task profile event now found db ≡ ok db'
      → Reduced baseline db db'
  unfolding change_task
  change_task-Reduced profile event now none db is h = record {
    same_events = ground arith;
    same_row = ground arith;
    no_earlier = ground arith;
  }
  change_task-Reduced profile event now (some c) db is h =
      let (changed, written, tagged) =
        >>=-eq-ok (write_candidate event.uuid (changed_candidate profile event now c) db) _ h in
      both-Reduced
        (write_candidate-Reduced event.uuid _ db written (
          omega (
            arith,
            total-insert_old (early baseline) event.uuid (changed_candidate profile event now c) c
                db.candidates is,
            changed-early profile event now c,
          )))
        (write_tags-Reduced event changed tagged)

  pub reduce_task-Reduced :
      (profile : Profile) (event : HistoryEvent) (group now : ℕ) (db : Database) {db' : Database}
      → baseline ≤ group
      → reduce_task profile event group now db ≡ ok db'
      → Reduced baseline db db'
  unfolding reduce_task
  reduce_task-Reduced profile event group now db late h =
      elim (Bool-cases (nat_eq event.action 2)) [
        | inl gone ↦ Reduced-to (delete_candidate-Reduced event.uuid db) (ground arith)
        | inr stays ↦ elim (Bool-cases (nat_eq event.action 0)) [
          | inl new ↦ both-Reduced (delete_candidate-Reduced event.uuid db) (
              create_task-Reduced profile event group now (delete_candidate event.uuid db) late
                (ground arith))
          | inr old ↦
              change_task-Reduced profile event now (lookup event.uuid db.candidates) db refl
                (ground arith)
        ]
      ]
