-- ===== src/Journal/Memory/Settle.antt =====
-- `settle_v2`: what a settlement has gone through, and what it writes.
use text.Mathlib.TextPositions.{eq_refl}
use things3_orchestrator.Prelude.{
  nat_eq, if◌then◌else◌, Bool-cases, length, ok, >>=-eq-ok, Result-cases, raise_if, raise_if-ok,
  lookup, lookup-insert, ℕ, String, ◌≡◌, refl, ◌⊎◌, inl, inr, Bool, true, false, not, ◌&&◌, ◌||◌,
  Option, none, some, List, arith,
}
use things3_orchestrator.Json.{Fields, get}
use things3_orchestrator.Journal.Types.{
  V2State, V2Operation, Moment, Journal, bad_manifest, bad_sequences, Digests,
}
use things3_orchestrator.Journal.Checks.{
  is_pending, is_apply_state, shows_effect, is_not_applied, dispatch_allows_settlement, contiguous,
  write_count, v2_manifest_is_valid, receipts_fit, validate_operation_receipts, state_number,
}
use things3_orchestrator.Journal.Memory.{operation_for_mutation, settled, settle_current, settle_v2}

-- An outcome that a dispatched operation may settle with.
abbrev pub AfterDispatch : V2State → Bool → Type 0
AfterDispatch target definitive =
    (target ≡ V2State.applied)
    ⊎ ((target ≡ V2State.partial) ⊎ ((target ≡ V2State.not_applied) × (definitive ≡ true)))

after_dispatch :
    (target : V2State) (definitive : Bool)
    → (shows_effect target || (is_not_applied target && definitive)) ≡ true
    → AfterDispatch target definitive
after_dispatch V2State.applied d h = inl refl
after_dispatch V2State.partial d h = inr (inl refl)
after_dispatch V2State.not_applied d h = inr (inr (refl, h))
after_dispatch _ d h = absurd (cc)

allowed_cases :
    (row : V2Operation) (target : V2State) (definitive : Bool)
    → dispatch_allows_settlement row target definitive ≡ true
    → ((row.dispatch_started ≡ false) × (definitive ≡ false))
      ⊎ ((row.dispatch_started ≡ true) × AfterDispatch target definitive)
unfolding dispatch_allows_settlement
allowed_cases row target definitive h = elim (Bool-cases row.dispatch_started) [
  | inl sent ↦ inr (sent, after_dispatch target definitive (ground arith))
  | inr unsent ↦ inl (unsent, ground arith)
]

pub row_settled :
    (target a : V2State) → is_apply_state target ≡ true → a ≡ target → is_pending a ≡ false
row_settled target a h e = ground arith

module _ (digests : Digests) where
  -- What a settlement that was made has gone through.
  pub record Settles (id : String) (expected target : V2State) (response : Fields)
      (rows : List Fields) (definitive : Bool) (now : Moment) (j j' : Journal) : Type 0 where
    pub current : V2Operation
    pub normalized : List Fields
    pub stored : lookup id j.operations ≡ some current
    pub was_pending : is_pending current.state ≡ true
    pub target_fits : is_apply_state target ≡ true
    pub allowed : dispatch_allows_settlement current target definitive ≡ true
    pub rows_fit : validate_operation_receipts digests current rows ≡ ok normalized
    pub result : j' ≡ settled digests id current target response normalized now j

  -- What the validation of receipt rows has found.
  record Receipted (current : V2Operation) (rows normalized : List Fields) : Type 0 where
    pub same_rows : normalized ≡ rows
    pub manifest_fits : v2_manifest_is_valid digests current ≡ true
    pub in_order : contiguous 1 rows ≡ true
    pub one_each : write_count (get "writes" current.manifest) ≡ some (length rows)

  counted :
      (n : Option ℕ) (rows : List Fields) {normalized : List Fields}
      → receipts_fit digests n rows ≡ ok normalized
      → (normalized ≡ rows) × (n ≡ some (length rows))
  unfolding receipts_fit
  counted none rows h = absurd cc
  counted (some n) rows h = (ground arith, ground arith)

  validated :
      (current : V2Operation) (rows : List Fields) {normalized : List Fields}
      → validate_operation_receipts digests current rows ≡ ok normalized
      → Receipted current rows normalized
  unfolding validate_operation_receipts
  validated current rows h =
      let (_, valid, h1) =
        >>=-eq-ok (raise_if (not (v2_manifest_is_valid digests current)) bad_manifest) _ h in
      let (_, ordered, h2) = >>=-eq-ok (raise_if (not (contiguous 1 rows)) bad_sequences) _ h1 in
      let (same, each) = counted (write_count (get "writes" current.manifest)) rows h2 in
      record {
        same_rows = same;
        manifest_fits = raise_if-ok _ _ valid;
        in_order = raise_if-ok _ _ ordered;
        one_each = each;
      }

  pub same_state :
      (a b : V2State)
      → nat_eq (state_number a) (state_number b) ≡ true
      → is_pending b ≡ true
      → is_pending a ≡ true
  same_state a b h p = ground arith

  settle_current-Settles :
      (id : String) (o : Option V2Operation) (expected target : V2State) (response : Fields)
      (rows : List Fields) (definitive : Bool) (now : Moment) (j : Journal) {j' : Journal}
      → is_pending expected ≡ true
      → is_apply_state target ≡ true
      → ((current : V2Operation) → o ≡ some current → lookup id j.operations ≡ some current)
      → settle_current digests id o expected target response rows definitive now j ≡ ok (true, j')
      → Settles id expected target response rows definitive now j j'
  unfolding settle_current
  settle_current-Settles id none expected target response rows definitive now j p a stored h =
      absurd (ground arith)
  settle_current-Settles id (some current) expected target response rows definitive now j p a stored
        h =
      elim (Result-cases (validate_operation_receipts digests current rows)) [
        | inl (normalized, valid) ↦ record {
          current = current;
          normalized = normalized;
          stored = stored current refl;
          was_pending = same_state current.state expected (ground arith) p;
          target_fits = a;
          allowed = ground arith;
          rows_fit = valid;
          result = ground (arith, valid);
        }
        | inr (e, invalid) ↦ absurd (ground (arith, invalid))
      ]

  -- A settlement that was made passed the tests of `settle_v2` on its arguments.
  settle_v2-settle_current :
      (id : String) (expected target : V2State) (response : Fields) (rows : List Fields)
      (definitive : Bool) (now : Moment) (j : Journal) {j' : Journal}
      → settle_v2 digests id expected target response rows definitive now j ≡ ok (true, j')
      → (is_pending expected ≡ true)
        × (is_apply_state target ≡ true)
        × (settle_current digests id
              (operation_for_mutation digests id j)
              expected
              target
              response
              rows
              definitive
              now
              j
            ≡ ok (true, j'))
  unfolding settle_v2
  settle_v2-settle_current id expected target response rows definitive now j {j'} h =
      tested (not (is_pending expected) || not (is_apply_state target)) refl h
    where
      tested :
          (b : Bool)
          → (not (is_pending expected) || not (is_apply_state target)) ≡ b
          → (if b
              then ok (false, j)
              else settle_current digests id
                  (operation_for_mutation digests id j)
                  expected
                  target
                  response
                  rows
                  definitive
                  now
                  j)
            ≡ ok (true, j')
          → (is_pending expected ≡ true)
            × (is_apply_state target ≡ true)
            × (settle_current digests id
                  (operation_for_mutation digests id j)
                  expected
                  target
                  response
                  rows
                  definitive
                  now
                  j
                ≡ ok (true, j'))
      tested true e h = absurd (ground arith)
      tested false e h = (ground arith, ground arith, h)

  pub mutable_is_stored :
      (id : String) (j : Journal) (current : V2Operation)
      → operation_for_mutation digests id j ≡ some current
      → lookup id j.operations ≡ some current
  unfolding operation_for_mutation
  mutable_is_stored id j current h = ground arith

  pub settle-Settles :
      (id : String) (expected target : V2State) (response : Fields) (rows : List Fields)
      (definitive : Bool) (now : Moment) (j : Journal) {j' : Journal}
      → settle_v2 digests id expected target response rows definitive now j ≡ ok (true, j')
      → Settles id expected target response rows definitive now j j'
  settle-Settles id expected target response rows definitive now j h =
      let (p, a, e) =
        settle_v2-settle_current id expected target response rows definitive now j h in
      settle_current-Settles id (operation_for_mutation digests id j) expected target response rows
        definitive now j p a (mutable_is_stored id j) e

  -- An operation settles only while it is pending, with a valid manifest and one receipt row for
  -- each write, numbered from 1. Then its row has the target state, the response and the hash of
  -- the rows, and the rows are stored. Before dispatch it settles by no definitive rejection. After
  -- dispatch it settles only as applied or partial, or as not applied by a definitive rejection.
  pub settle_fence :
      (id : String) (expected target : V2State) (response : Fields) (rows : List Fields)
      (definitive : Bool) (now : Moment) (j : Journal) {j' : Journal}
      → settle_v2 digests id expected target response rows definitive now j ≡ ok (true, j')
      → (current : V2Operation) × (lookup id j.operations ≡ some current)
        × (current.state ≡ V2State.pending)
        × (v2_manifest_is_valid digests current ≡ true)
        × (contiguous 1 rows ≡ true)
        × (write_count (get "writes" current.manifest) ≡ some (length rows))
        × (lookup id j'.receipts ≡ some rows)
        × (lookup id j'.operations
            ≡ some (record current {
              state = target;
              response = some response;
              receipt_hash = some (digests.receipt_hash rows);
            }))
        × (((current.dispatch_started ≡ false) × (definitive ≡ false))
            ⊎ ((current.dispatch_started ≡ true) × AfterDispatch target definitive))
  settle_fence id expected target response rows definitive now j h =
      let s = settle-Settles id expected target response rows definitive now j h in
      let v = validated s.current rows s.rows_fit in
      (
        s.current,
        s.stored,
        pending_state s.current.state s.was_pending,
        v.manifest_fits,
        v.in_order,
        v.one_each,
        rw (s.result, lookup-insert, eq_refl, v.same_rows) refl,
        rw (s.result, lookup-insert, eq_refl, v.same_rows) refl,
        allowed_cases s.current target definitive s.allowed,
      )
    where
      pending_state : (a : V2State) → is_pending a ≡ true → a ≡ V2State.pending
      pending_state a h = ground arith
