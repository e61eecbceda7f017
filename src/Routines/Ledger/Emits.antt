-- ===== src/Routines/Ledger/Emits.antt =====
-- What `_settle` does to the event table, row by row.
use things3_orchestrator.Routines.Store.{delete_candidate}
use things3_orchestrator.Prelude.{
  Bool-cases, Option-cases, ok, >>=-eq-ok, Dict, lookup, insert, total, ℕ, ◌+◌, ◌≤◌, String, ◌≡◌,
  refl, ap, ◌⊎◌, inl, inr, ◌&&◌, Option, none, some, [], ◌∷◌, arith,
}
use things3_orchestrator.Routines.Types.{Candidate, Event, Database, Profile, Stored}
use things3_orchestrator.Routines.Ledger.{
  insert_row, due_candidates, has_ai_tag, find_event, is_open_task, fresh_event, insert_event, emit,
  emit_matching, settle_one, settle_each, settle,
}
use things3_orchestrator.Routines.Store.Reduce.{early}
use native.Mathlib.Nat.{le_refl}

-- One row after another is added to the events, as `settle_one` adds them.
pub data Emits (profile : Profile) (namespace : String) (now baseline : ℕ)
    : Dict Event → Dict Event → Type 0 where
  done : {d : Dict Event} → Emits profile namespace now baseline d d
  more :
      {d d' : Dict Event} (uuid : String) (c : Candidate)
      → find_event profile.routine_id uuid d ≡ none
      → lookup (profile.event_id namespace profile.routine_id uuid) d ≡ none
      → early baseline c ≡ 0
      → Emits profile namespace now baseline
          (insert
            (profile.event_id namespace profile.routine_id uuid)
            (fresh_event profile (profile.event_id namespace profile.routine_id uuid) uuid c now)
            d)
          d'
      → Emits profile namespace now baseline d d'

deleted-events :
    (uuid : String) (db : Database) {db' : Database}
    → ◌≡◌ {A = Stored Database} (ok (delete_candidate uuid db)) (ok db')
    → db'.events ≡ db.events
unfolding delete_candidate
deleted-events uuid db h = ground arith

insert_row-total :
    (baseline : ℕ) (row : String × Candidate) (rows : Dict Candidate)
    → total (early baseline) (insert_row row rows)
      ≡ early baseline row.1 + total (early baseline) rows
unfolding insert_row total
insert_row-total baseline row [] = refl
insert_row-total baseline row (next ∷ rows) = ground (arith, insert_row-total baseline row rows)

due-total :
    (baseline now : ℕ) (rows : Dict Candidate)
    → total (early baseline) (due_candidates now rows) ≤ total (early baseline) rows
unfolding due_candidates total
due-total baseline now [] = le_refl _
due-total baseline now (row ∷ rows) =
    ground
      (arith, insert_row-total baseline row (due_candidates now rows), due-total baseline now rows)

module _ (profile : Profile) (namespace : String) (now baseline : ℕ) where
  abbrev id_of : String → String
  id_of uuid = profile.event_id namespace profile.routine_id uuid

  emit-cases :
      (uuid : String) (c : Candidate) (known : Option String) (db : Database) {db' : Database}
      → emit profile uuid c now (id_of uuid) known db ≡ ok db'
      → (db' ≡ db)
        ⊎ ((known ≡ none)
            × (lookup (id_of uuid) db.events ≡ none)
            × (db' ≡ record db {
              events = insert (id_of uuid) (fresh_event profile (id_of uuid) uuid c now) db.events;
            }))
  unfolding emit insert_event
  emit-cases uuid c none db h = elim (Option-cases (lookup (id_of uuid) db.events)) [
    | inl free ↦ inr (refl, free, ground arith)
    | inr (old, known) ↦ absurd (ground arith)
  ]
  emit-cases uuid c (some known) db h = inl (ground arith)

  -- An event table after one row is settled.
  abbrev Settles : String × Candidate → Dict Event → Dict Event → Type 0
  Settles row d d' =
      (d' ≡ d)
      ⊎ ((find_event profile.routine_id row.0 d ≡ none)
          × (lookup (id_of row.0) d ≡ none)
          × (d' ≡ insert (id_of row.0) (fresh_event profile (id_of row.0) row.0 row.1 now) d))

  emit_matching-Settles :
      (row : String × Candidate) (db : Database) {db' : Database}
      → emit_matching profile namespace now row db ≡ ok db'
      → Settles row db.events db'.events
  unfolding emit_matching
  emit_matching-Settles row db {db' = db'} h =
      elim (Bool-cases (is_open_task row.1 && has_ai_tag row.0 db.candidate_tags db.ai_tags)) [
        | inl matches ↦
            elim (emit-cases row.0 row.1 (find_event profile.routine_id row.0 db.events) db
              {db' = db'} (ground arith)) [
                | inl same ↦ inl (ap (λ x. x.events) same)
                | inr (absent, free, grown) ↦ inr (absent, free, ap (λ x. x.events) grown)
              ]
        | inr other ↦ inl (ground arith)
      ]

  settle_one-Settles :
      (row : String × Candidate) (db : Database) {db' : Database}
      → settle_one profile namespace now row db ≡ ok db'
      → Settles row db.events db'.events
  unfolding settle_one
  settle_one-Settles row db h =
      let (e, emitted, is) = >>=-eq-ok (emit_matching profile namespace now row db) _ h in
      rw (deleted-events row.0 e is) (emit_matching-Settles row db emitted)

  settle_each-Emits :
      (rows : Dict Candidate) (db : Database) {db' : Database}
      → total (early baseline) rows ≡ 0
      → settle_each profile namespace now rows db ≡ ok db'
      → Emits profile namespace now baseline db.events db'.events
  unfolding settle_each total
  settle_each-Emits [] db {db' = db'} fresh h =
      let same : db'.events ≡ db.events = ground arith in rw same done
  settle_each-Emits (row ∷ rows) db fresh h =
      let (mid, first, rest) = >>=-eq-ok (settle_one profile namespace now row db) _ h in
      let later = settle_each-Emits rows mid (omega (arith, fresh)) rest in
      elim (settle_one-Settles row db first) [
        | inl same ↦ rw (← same) later
        | inr (absent, free, is) ↦
            more row.0 row.1 absent free (omega (arith, fresh)) (rw (← is) later)
      ]

  pub settle-Emits :
      (db : Database) {db' : Database}
      → total (early baseline) db.candidates ≡ 0
      → settle profile namespace now db ≡ ok db'
      → Emits profile namespace now baseline db.events db'.events
  unfolding settle
  settle-Emits db fresh h =
      settle_each-Emits (due_candidates now db.candidates) db
        (omega (arith, due-total baseline now db.candidates, fresh)) h
