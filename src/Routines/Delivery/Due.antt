-- ===== src/Routines/Delivery/Due.antt =====
-- What `due_events` returns.
use things3_orchestrator.Routines.Batch.{verify_account}
use mathlib.Core.List.{mem-cons_self, Mem, mem-cons_of_mem}
use things3_orchestrator.Prelude.{
  leb, if◌then◌else◌, Bool-cases, length, All, take, All-take, ℤ, ok, Dict, ℕ, zero, suc, String,
  ◌≡◌, refl, inl, inr, true, Option, none, some, List, [], ◌∷◌, arith,
}
use things3_orchestrator.Routines.Types.{Meta, Event, Database, Profile}
use things3_orchestrator.Routines.Delivery.{
  StoredEvent, is_due, due_before, insert_due, due_rows, stored_event, stored_events, bounded,
  due_events, has_value, event_fits,
}

-- the number of due events
unfoldable pub count_due : ℕ → Dict Event → ℕ
unfolding is_due
count_due now [] = 0
count_due now (row ∷ rows) =
    let rest = count_due now rows in if is_due now row.1 then suc rest else rest

module _ (P : String × Event → Type 0) where
  insert_due-All :
      (row : String × Event) (rows : Dict Event) → P row → All P rows → All P (insert_due row rows)
  unfolding insert_due
  insert_due-All row [] h hs = (h, tt)
  insert_due-All row (next ∷ rows) h hs = elim (Bool-cases (due_before row next)) [
    | inl first ↦ rw first (h, hs)
    | inr later ↦ rw later (hs.0, insert_due-All row rows h hs.1)
  ]

module _ (P : String × Event → Type 0) where
  due_rows-All :
      (now : ℕ) (rows : Dict Event)
      → All P rows
      → All (λ row. (is_due now row.1 ≡ true) × P row) (due_rows now rows)
  unfolding due_rows
  due_rows-All now [] hs = tt
  due_rows-All now (row ∷ rows) hs = elim (Bool-cases (is_due now row.1)) [
    | inl due ↦ rw due (
        insert_due-All (λ r. (is_due now r.1 ≡ true) × P r) row (due_rows now rows) (due, hs.0)
          (due_rows-All now rows hs.1))
    | inr other ↦ rw other (due_rows-All now rows hs.1)
  ]

insert_due-length :
    (row : String × Event) (rows : Dict Event) → length (insert_due row rows) ≡ suc (length rows)
unfolding insert_due
insert_due-length row [] = refl
insert_due-length row (next ∷ rows) = ground (arith, insert_due-length row rows)

due_rows-length : (now : ℕ) (rows : Dict Event) → length (due_rows now rows) ≡ count_due now rows
unfolding due_rows count_due
due_rows-length now [] = refl
due_rows-length now (row ∷ rows) =
    ground (arith, due_rows-length now rows, insert_due-length row (due_rows now rows))

every_member :
    {A : Type 0} (xs full : List A) → ((x : A) → Mem x xs → Mem x full) → All (λ x. Mem x full) xs
every_member [] full f = tt
every_member (x ∷ xs) full f =
    (f x mem-cons_self, every_member xs full λ y m. f y (mem-cons_of_mem x m))

length-take :
    {A : Type 0} (n : ℕ) (xs : List A)
    → length (take n xs) ≡ (if leb n (length xs) then n else length xs)
length-take zero xs = ground arith
length-take (suc n) [] = ground arith
length-take (suc n) (x ∷ xs) = ground (arith, length-take n xs)

value_of : {A : Type 0} (x : Option A) → has_value x ≡ true → (a : A) × (x ≡ some a)
value_of none h = absurd cc
value_of (some a) h = (a, refl)

stored_events-ok :
    (rows : Dict Event)
    → All (λ row. has_value row.1.body ≡ true) rows
    → (events : List StoredEvent) × (stored_events rows ≡ ok events)
unfolding stored_events
stored_events-ok [] hs = ([], refl)
stored_events-ok (row ∷ rows) hs =
    let (events, is) = stored_events-ok rows hs.1 in
    let (body, has) = value_of row.1.body hs.0 in
    (stored_event row.0 row.1 body ∷ events, rw (has, is) refl)

-- A row that `due_events` may return: it is in the table, and it is due.
abbrev pub IsDueIn : Dict Event → ℕ → String × Event → Type 0
IsDueIn table now row = Mem row table × (is_due now row.1 ≡ true)

has_body :
    (now : ℕ) (e : Event) → event_fits e ≡ true → is_due now e ≡ true → has_value e.body ≡ true
unfolding event_fits is_due
has_body now e fits due = ground arith

module _ (now : ℕ) (table : Dict Event) where
  chosen :
      (rows : Dict Event)
      → All (λ row. (is_due now row.1 ≡ true) × (Mem row table × (event_fits row.1 ≡ true))) rows
      → All (IsDueIn table now) rows × All (λ row. has_value row.1.body ≡ true) rows
  chosen [] hs = (tt, tt)
  chosen (row ∷ rows) h =
      let (most, bodies) = chosen rows h.1 in
      (((h.0.1.0, h.0.0), most), (has_body now row.1 h.0.1.1 h.0.0, bodies))

  both :
      (rows : Dict Event)
      → All (λ row. Mem row table) rows
      → All (λ row. event_fits row.1 ≡ true) rows
      → All (λ row. Mem row table × (event_fits row.1 ≡ true)) rows
  both [] hs ks = tt
  both (row ∷ rows) hs ks = ((hs.0, ks.0), both rows hs.1 ks.1)

-- With every event within the constraint, the call returns the events of as many due rows as there
-- are, up to the limit and 25.
pub due_events-fitting :
    (profile : Profile) (now : ℕ) (limit : ℤ) (db : Database) {row : Meta}
    → verify_account profile db.row ≡ ok row
    → All (λ r. event_fits r.1 ≡ true) db.events
    → (rows : Dict Event) × (events : List StoredEvent) × (due_events profile now limit db
        ≡ ok events)
      × (stored_events rows ≡ ok events)
      × All (IsDueIn db.events now) rows
      × (length rows ≡ (
          if leb (bounded limit) (count_due now db.events)
          then bounded limit
          else count_due now db.events))
unfolding due_events
due_events-fitting profile now limit db verified fits =
    let rows = take (bounded limit) (due_rows now db.events) in
    let all =
      due_rows-All (λ r. Mem r db.events × (event_fits r.1 ≡ true)) now db.events
        (both now db.events db.events (every_member db.events db.events (λ x m. m)) fits) in
    let (inside, bodies) =
      chosen now db.events rows (All-take _ (bounded limit) (due_rows now db.events) all) in
    let (events, is) = stored_events-ok rows bodies in
    (
      rows,
      events,
      rw verified is,
      is,
      inside,
      rw (length-take (bounded limit) (due_rows now db.events), due_rows-length now db.events) refl,
    )
