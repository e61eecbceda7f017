-- ===== src/Journal/Cutover/Fenced.antt =====
-- The fence of `create_v2` over all methods of `MemoryJournal`: the pending operations of an account.
use things3_orchestrator.Journal.Cutover.Legacy.{
  Report, cut_records, retire_each, cut_over, cutover_v1,
}
use native.Mathlib.Nat.{le_refl, le_trans}
use things3_orchestrator.Json.{Fields}
use things3_orchestrator.Journal.Memory.{CreateResult, create_v2, mark_v2_dispatched, settle_v2}
use things3_orchestrator.Prelude.{
  Bool-cases, ok, >>=-eq-ok, Dict, total, total-erase, total-insert_le, ℕ, ◌≤◌, String, ◌≡◌, inl,
  inr, Bool, List, [], ◌∷◌, arith,
}
use things3_orchestrator.Journal.Types.{
  V2State, IntentState, V2Operation, Moment, Journal, new_journal, Digests,
}
use things3_orchestrator.Journal.Cutover.{
  retire_awaiting_owner, store_retired, prune_kept, prune_one, prune_each, all_mutable, prune_v2,
  annotate_v1_pending, resolve_v1_pending,
}
use things3_orchestrator.Journal.Memory.Fence.{
  fence_weight, pending_count, create-count, mark-count, settle-count,
}

module _ (digests : Digests) (account : String) where
  abbrev weight : V2Operation → ℕ
  weight = fence_weight digests account

  store_retired-count :
      (operation : V2Operation) (now : Moment) (j : Journal)
      → pending_count digests account (store_retired operation now j)
        ≤ pending_count digests account j
  unfolding store_retired
  store_retired-count operation now j = omega (
    arith,
    total-insert_le weight operation.operation_id (retire_awaiting_owner operation) j.operations,
    retired-weight operation,
  )
    where
      retired-weight : (row : V2Operation) → weight (retire_awaiting_owner row) ≡ 0
      retired-weight row = ground arith

  prune_kept-count :
      (id : String) (operation : V2Operation) (now : Moment) (days : ℕ) (j : Journal)
      → pending_count digests account (prune_kept digests id operation now days j).1
        ≤ pending_count digests account j
  unfolding prune_kept
  prune_kept-count id operation now days j = ground (arith, total-erase weight id j.operations)

  prune_one-count :
      (id : String) (operation : V2Operation) (clock now : Moment) (days : ℕ) (j : Journal)
      → pending_count digests account (prune_one digests id operation clock now days j).1
        ≤ pending_count digests account j
  unfolding prune_one
  prune_one-count id operation clock now days j = ground (
    arith,
    store_retired-count operation clock j,
    prune_kept-count id operation now days j,
    prune_kept-count id (retire_awaiting_owner operation) now days
        (store_retired operation clock j),
  )

  prune_each-count :
      (d : Dict V2Operation) (clock now : Moment) (days : ℕ) (j : Journal)
      → pending_count digests account (prune_each digests d clock now days j).1
        ≤ pending_count digests account j
  unfolding prune_each
  prune_each-count [] clock now days j = le_refl _
  prune_each-count (entry ∷ d) clock now days j =
      le_trans
        (prune_each-count d clock now days (prune_one digests entry.0 entry.1 clock now days j).1)
        (prune_one-count entry.0 entry.1 clock now days j)

  prune-count :
      (clock now : Moment) (days : ℕ) (j : Journal) {n : ℕ} {j' : Journal}
      → prune_v2 digests clock now days j ≡ ok (n, j')
      → pending_count digests account j' ≤ pending_count digests account j
  unfolding prune_v2
  prune-count clock now days j h = ground (arith, prune_each-count j.operations clock now days j)

retire_each-count :
    (digests : Digests) (account : String) (d : Dict V2Operation) (clock : Moment) (j : Journal)
    → pending_count digests account (retire_each d clock j) ≤ pending_count digests account j
unfolding retire_each
retire_each-count digests account [] clock j = le_refl _
retire_each-count digests account (entry ∷ d) clock j = ground (
  arith,
  retire_each-count digests account d clock j,
  retire_each-count digests account d clock (store_retired entry.1 clock j),
  store_retired-count digests account entry.1 clock j,
)

cut_over-count :
    (digests : Digests) (account : String) (clock : Moment) (j : Journal) {report : Report}
    {j' : Journal}
    → cut_over clock j ≡ ok (report, j')
    → pending_count digests account j' ≤ pending_count digests account j
unfolding cut_over
cut_over-count digests account clock j {report = report} {j' = j'} h =
    let (rows, _, is) = >>=-eq-ok (cut_records j.records) _ h in
    let same : j'.operations ≡ (retire_each j.operations clock j).operations = ground arith in
    rw same (retire_each-count digests account j.operations clock j)

cutover-count :
    (digests : Digests) (account : String) (clock : Moment) (j : Journal) {report : Report}
    {j' : Journal}
    → cutover_v1 digests clock j ≡ ok (report, j')
    → pending_count digests account j' ≤ pending_count digests account j
unfolding cutover_v1
cutover-count digests account clock j {report = report} {j' = j'} h =
    elim (Bool-cases (all_mutable digests j.operations j)) [
      | inl mutable ↦
          cut_over-count digests account clock j {report = report} {j' = j'} (ground arith)
      | inr other ↦ absurd (ground arith)
    ]

annotate-operations :
    (id : String) (result : Fields) (j : Journal)
    → (annotate_v1_pending id result j).1.operations ≡ j.operations
unfolding annotate_v1_pending
annotate-operations id result j = ground arith

resolve-operations :
    (digests : Digests) (id fingerprint digest : String) (target : IntentState) (result : Fields)
    (j : Journal)
    → (resolve_v1_pending digests id fingerprint digest target result j).1.operations ≡ j.operations
unfolding resolve_v1_pending
resolve-operations digests id fingerprint digest target result j = ground arith

-- One call of a method that returned.
pub data JournalStep (digests : Digests) (j : Journal) : Journal → Type 0 where
  creates :
      (operation : V2Operation) (now : Moment) {result : CreateResult} {j' : Journal}
      → create_v2 digests operation now j ≡ ok (result, j')
      → JournalStep digests j j'
  dispatches :
      (id : String) {j' : Journal}
      → (mark_v2_dispatched digests id j).1 ≡ j'
      → JournalStep digests j j'
  settles :
      (id : String) (expected target : V2State) (response : Fields) (rows : List Fields)
      (definitive : Bool) (now : Moment) {done : Bool} {j' : Journal}
      → settle_v2 digests id expected target response rows definitive now j ≡ ok (done, j')
      → JournalStep digests j j'
  prunes :
      (clock now : Moment) (days : ℕ) {n : ℕ} {j' : Journal}
      → prune_v2 digests clock now days j ≡ ok (n, j')
      → JournalStep digests j j'
  cuts_over :
      (clock : Moment) {report : Report} {j' : Journal}
      → cutover_v1 digests clock j ≡ ok (report, j')
      → JournalStep digests j j'
  annotates :
      (id : String) (result : Fields) {j' : Journal}
      → (annotate_v1_pending id result j).1 ≡ j'
      → JournalStep digests j j'
  resolves :
      (id fingerprint digest : String) (target : IntentState) (result : Fields) {j' : Journal}
      → (resolve_v1_pending digests id fingerprint digest target result j).1 ≡ j'
      → JournalStep digests j j'

pub data JournalReach (digests : Digests) : Journal → Type 0 where
  start : JournalReach digests new_journal
  next :
      {j j' : Journal} → JournalReach digests j → JournalStep digests j j' → JournalReach digests j'

step-count :
    (digests : Digests) (account : String) {j j' : Journal}
    → JournalStep digests j j'
    → pending_count digests account j ≤ 1
    → pending_count digests account j' ≤ 1
step-count digests account {j = j} (creates operation now e) h =
    create-count digests account operation now j h e
step-count digests account {j = j} (dispatches id e) h =
    rw (← e) (le_trans (mark-count digests account id j) h)
step-count digests account {j = j} (settles id expected target response rows definitive now e) h =
    le_trans (settle-count digests account id expected target response rows definitive now j e) h
step-count digests account {j = j} (prunes clock now days e) h =
    le_trans (prune-count digests account clock now days j e) h
step-count digests account {j = j} (cuts_over clock e) h =
    le_trans (cutover-count digests account clock j e) h
step-count digests account {j = j} (annotates id result e) h =
    rw (← e, annotate-operations id result j) h
step-count digests account {j = j} (resolves id fingerprint digest target result e) h =
    rw (← e, resolve-operations digests id fingerprint digest target result j) h

-- In every journal that the methods reach from an empty one, each account has at most one pending
-- operation.
pub one_pending_operation :
    (digests : Digests) (account : String) {j : Journal}
    → JournalReach digests j
    → pending_count digests account j ≤ 1
one_pending_operation digests account start = unfold total in omega arith
one_pending_operation digests account (next r s) =
    step-count digests account s (one_pending_operation digests account r)
