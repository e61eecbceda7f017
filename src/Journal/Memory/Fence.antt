-- ===== src/Journal/Memory/Fence.antt =====
-- The fence of `create_v2` over creation, dispatch and settlement, by counting pending operations.
use things3_orchestrator.Journal.Memory.Creation.{create-Made}
use mathlib.Core.Path.{subst}
use native.Mathlib.Nat.{le_refl}
use things3_orchestrator.Json.{Fields}
use things3_orchestrator.Prelude.{
  if◌then◌else◌, Bool-cases, Option-cases, List-cases, ok, Result-cases, Dict, lookup, insert,
  dict_values, total, total-insert_old, total-insert_le, ℕ, ◌≤◌, String, eq_iff, ◌≡◌, refl, sym, ap,
  ◌∙◌, ◌≢◌, inl, inr, Bool, true, false, not, ◌||◌, Option, none, some, List, [], ◌∷◌, ◌++◌, arith,
}
use things3_orchestrator.Journal.Types.{V2State, V2Operation, Moment, Journal, Digests}
use things3_orchestrator.Journal.Checks.{
  is_pending, is_apply_state, same_account_id, validate_operation_receipts,
}
use things3_orchestrator.Journal.Memory.{
  insert_sorted, sorted_set, CreateResult, fences, pending_operations, blocking_v2_operations,
  create_fresh, create_after, create_v2, operation_for_mutation, mark_current, mark_v2_dispatched,
  settled, settle_current, settle_v2,
}

module _ (digests : Digests) (account : String) where
  -- 1 for a pending operation of the account
  abbrev pub fence_weight : V2Operation → ℕ
  fence_weight row = if fences digests account row then 1 else 0

  -- the number of pending operations of the account
  abbrev pub pending_count : Journal → ℕ
  pending_count j = total fence_weight j.operations

  pending_operations-nil :
      (d : Dict V2Operation)
      → pending_operations digests account (dict_values d) ≡ []
      → total fence_weight d ≡ 0
  unfolding pending_operations total
  pending_operations-nil [] h = refl
  pending_operations-nil (entry ∷ d) h = ground (arith, pending_operations-nil d)

insert_sorted-ne-nil : (s : String) (ts : List String) → insert_sorted s ts ≢ []
unfolding insert_sorted
insert_sorted-ne-nil s [] h = cc
insert_sorted-ne-nil s (t ∷ ts) h = ground arith

sorted_set-nil : (ss : List String) → sorted_set ss ≡ [] → ss ≡ []
unfolding sorted_set
sorted_set-nil [] h = refl
sorted_set-nil (s ∷ ss) h = absurd (insert_sorted-ne-nil s (sorted_set ss) h)

append-nil-left : (xs ys : List String) → (xs ++ ys) ≡ [] → xs ≡ []
append-nil-left [] ys h = refl
append-nil-left (x ∷ xs) ys h = cc

module _ (digests : Digests) where
  unblocked_count :
      (account : String) (j : Journal)
      → blocking_v2_operations digests account j ≡ []
      → pending_count digests account j ≡ 0
  unfolding blocking_v2_operations
  unblocked_count account j h =
      pending_operations-nil digests account j.operations (append-nil-left _ _ (sorted_set-nil _ h))

  -- Two accounts that the journal takes for one have the same count.
  same_account_count :
      (a b : String) (d : Dict V2Operation)
      → same_account_id digests a b ≡ true
      → total (fence_weight digests a) d ≡ total (fence_weight digests b) d
  unfolding same_account_id total
  same_account_count a b [] h = refl
  same_account_count a b (entry ∷ d) h =
      ground
        (arith, same_account_count a b d h, eq_iff (digests.account_key a) (digests.account_key b))

  mutable_stored :
      (id : String) (j : Journal) {current : V2Operation}
      → operation_for_mutation digests id j ≡ some current
      → lookup id j.operations ≡ some current
  unfolding operation_for_mutation
  mutable_stored id j h = ground arith

  -- A write that makes no row pending adds no pending operation.
  count-insert :
      (account id : String) (old row : V2Operation) (d : Dict V2Operation)
      → lookup id d ≡ some old
      → fence_weight digests account row ≤ fence_weight digests account old
      → total (fence_weight digests account) (insert id row d)
        ≤ total (fence_weight digests account) d
  count-insert account id old row d found less =
      omega (arith, total-insert_old (fence_weight digests account) id row old d found)

  module _ (account : String) where
    create_fresh-count :
        (operation : V2Operation) (now : Moment) (j : Journal)
        → is_pending operation.state ≡ true
        → pending_count digests account j ≤ 1
        → pending_count digests account
            (create_fresh digests operation now
              (blocking_v2_operations digests operation.account_id j)
              j).1
          ≤ 1
    unfolding create_fresh
    create_fresh-count operation now j p h =
        elim (List-cases (blocking_v2_operations digests operation.account_id j)) [
          | inl free ↦
              rw free (elim (Bool-cases (same_account_id digests operation.account_id account)) [
                | inl same ↦ omega (
                  arith,
                  total-insert_le (fence_weight digests account) operation.operation_id operation
                      j.operations,
                  sym (same_account_count operation.account_id account j.operations same)
                      ∙ unblocked_count operation.account_id j free,
                  weight-le operation,
                )
                | inr other ↦ omega (
                  arith,
                  total-insert_le (fence_weight digests account) operation.operation_id operation
                      j.operations,
                  weight-other operation other,
                )
              ])
          | inr (x, xs, held) ↦ rw held h
        ]
      where
        weight-le : (row : V2Operation) → fence_weight digests account row ≤ 1
        weight-le row = ground arith

        weight-other :
            (row : V2Operation)
            → same_account_id digests row.account_id account ≡ false
            → fence_weight digests account row ≡ 0
        weight-other row other = ground arith

    pub create-count :
        (operation : V2Operation) (now : Moment) (j : Journal) {result : CreateResult}
        {j' : Journal}
        → pending_count digests account j ≤ 1
        → create_v2 digests operation now j ≡ ok (result, j')
        → pending_count digests account j' ≤ 1
    unfolding create_after
    create-count operation now j h made =
        let c = create-Made digests operation now j made in
        elim (Option-cases c.found) [
          | inl fresh ↦
              subst (λ (out : CreateResult × Journal). pending_count digests account out.1 ≤ 1)
                (sym (ap (λ o. create_after digests operation now o j) fresh) ∙ c.result_is)
                (create_fresh-count operation now j c.starts_pending h)
          | inr (old, known) ↦
              subst (λ (out : CreateResult × Journal). pending_count digests account out.1 ≤ 1)
                (sym (ap (λ o. create_after digests operation now o j) known) ∙ c.result_is) h
        ]

    mark_current-count :
        (id : String) (current : V2Operation) (j : Journal)
        → lookup id j.operations ≡ some current
        → pending_count digests account (mark_current digests id (some current) j).1
          ≤ pending_count digests account j
    unfolding mark_current
    mark_current-count id current j found =
        let marked = record current { dispatch_started = true } in
        ground (arith, count-insert account id current marked j.operations found (omega arith))

    mark_any-count :
        (id : String) (o : Option V2Operation) (j : Journal)
        → ((current : V2Operation) → o ≡ some current → lookup id j.operations ≡ some current)
        → pending_count digests account (mark_current digests id o j).1
          ≤ pending_count digests account j
    unfolding mark_current
    mark_any-count id none j stored = le_refl _
    mark_any-count id (some current) j stored =
        mark_current-count id current j (stored current refl)

    pub mark-count :
        (id : String) (j : Journal)
        → pending_count digests account (mark_v2_dispatched digests id j).1
          ≤ pending_count digests account j
    unfolding mark_v2_dispatched
    mark-count id j =
        mark_any-count id (operation_for_mutation digests id j) j
          (λ current e. mutable_stored id j e)

    settled-count :
        (id : String) (current : V2Operation) (target : V2State) (response : Fields)
        (rows : List Fields) (now : Moment) (j : Journal)
        → is_apply_state target ≡ true
        → lookup id j.operations ≡ some current
        → pending_count digests account (settled digests id current target response rows now j)
          ≤ pending_count digests account j
    settled-count id current target response rows now j apply found =
        count-insert account id current _ j.operations found (ground arith)

    settle_any-count :
        (id : String) (o : Option V2Operation) (expected target : V2State) (response : Fields)
        (rows : List Fields) (definitive : Bool) (now : Moment) (j : Journal) {done : Bool}
        {j' : Journal}
        → is_apply_state target ≡ true
        → ((current : V2Operation) → o ≡ some current → lookup id j.operations ≡ some current)
        → settle_current digests id o expected target response rows definitive now j ≡ ok (done, j')
        → pending_count digests account j' ≤ pending_count digests account j
    unfolding settle_current
    settle_any-count id none expected target response rows definitive now j apply stored h =
        ground arith
    settle_any-count id (some current) expected target response rows definitive now j apply stored
          h =
        elim (Result-cases (validate_operation_receipts digests current rows)) [
          | inl (normalized, valid) ↦ ground (
            arith,
            settled-count id current target response normalized now j apply (stored current refl),
          )
          | inr (e, invalid) ↦ ground arith
        ]

    pub settle-count :
        (id : String) (expected target : V2State) (response : Fields) (rows : List Fields)
        (definitive : Bool) (now : Moment) (j : Journal) {done : Bool} {j' : Journal}
        → settle_v2 digests id expected target response rows definitive now j ≡ ok (done, j')
        → pending_count digests account j' ≤ pending_count digests account j
    unfolding settle_v2
    settle-count id expected target response rows definitive now j {done} {j'} h =
        settle_test (not (is_pending expected) || not (is_apply_state target)) refl h
      where
        settle_test :
            (b : Bool)
            → (not (is_pending expected) || not (is_apply_state target)) ≡ b
            → (if b
                then ok (false, j)
                else settle_current digests id
                    (operation_for_mutation digests id j)
                    expected
                    target
                    response
                    rows
                    definitive
                    now
                    j)
              ≡ ok (done, j')
            → pending_count digests account j' ≤ pending_count digests account j
        settle_test true e h = ground arith
        settle_test false e h =
            settle_any-count id (operation_for_mutation digests id j) expected target response rows
              definitive now j (ground arith) (λ current e. mutable_stored id j e) h
