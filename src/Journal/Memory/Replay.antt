-- ===== src/Journal/Memory/Replay.antt =====
-- `create_v2` on requests that are sent again.
use things3_orchestrator.Journal.Memory.Creation.{create-Made}
use things3_orchestrator.Prelude.{
  ok, String, ◌≡◌, refl, ap, ◌∙◌, ◌⊎◌, inl, inr, Option, none, some, List, [], ◌∷◌, arith,
}
use things3_orchestrator.Journal.Types.{V2Operation, Moment, Journal, Digests}
use things3_orchestrator.Journal.Checks.{resolve_candidates}
use things3_orchestrator.Journal.Memory.{
  CreateOutcome, CreateResult, candidates, get_v2_request, blocking_v2_operations, added,
  create_fresh, create_after, create_v2,
}

module _ (digests : Digests) where
  resolve_none : (rows : List V2Operation) → resolve_candidates rows ≡ ok none → rows ≡ []
  unfolding resolve_candidates
  resolve_none [] h = refl
  resolve_none (row ∷ rows) h = ground arith

  create_fresh-created :
      (operation : V2Operation) (now : Moment) (blockers : List String) (j : Journal)
      {result : CreateResult} {j' : Journal}
      → create_fresh digests operation now blockers j ≡ (result, j')
      → result.outcome ≡ CreateOutcome.created
      → (blockers ≡ []) × (result.stored ≡ some operation) × (j' ≡ added digests operation now j)
  unfolding create_fresh
  create_fresh-created operation now [] j h made = ground arith
  create_fresh-created operation now (b ∷ bs) j h made = absurd (ground arith)

  create_after-created :
      (operation : V2Operation) (now : Moment) (found : Option V2Operation) (j : Journal)
      {result : CreateResult} {j' : Journal}
      → create_after digests operation now found j ≡ (result, j')
      → result.outcome ≡ CreateOutcome.created
      → (found ≡ none)
        × (blocking_v2_operations digests operation.account_id j ≡ [])
        × (result.stored ≡ some operation)
        × (j' ≡ added digests operation now j)
  unfolding create_after
  create_after-created operation now none j h made =
      let (free, stored, is) = create_fresh-created operation now _ j h made in
      (refl, free, stored, is)
  create_after-created operation now (some row) j h made = absurd (ground arith)

  -- What a call that created has found before, and has written.
  pub created_fresh :
      (operation : V2Operation) (now : Moment) (j : Journal) {result : CreateResult} {j' : Journal}
      → create_v2 digests operation now j ≡ ok (result, j')
      → result.outcome ≡ CreateOutcome.created
      → (candidates digests operation.account_id operation.api_version operation.request_id j ≡ [])
        × (blocking_v2_operations digests operation.account_id j ≡ [])
        × (j' ≡ added digests operation now j)
  unfolding get_v2_request
  created_fresh operation now j h made =
      let m = create-Made digests operation now j h in
      let (fresh, free, stored, is) =
        create_after-created operation now m.found j m.result_is made in
      (resolve_none _ (m.found_is ∙ ap ok fresh), free, is)

  create_fresh-cases :
      (operation : V2Operation) (now : Moment) (blockers : List String) (j : Journal)
      {result : CreateResult} {j' : Journal}
      → create_fresh digests operation now blockers j ≡ (result, j')
      → (result.outcome ≡ CreateOutcome.created) ⊎ (j' ≡ j)
  unfolding create_fresh
  create_fresh-cases operation now [] j h = inl (ground arith)
  create_fresh-cases operation now (b ∷ bs) j h = inr (ground arith)

  create_after-cases :
      (operation : V2Operation) (now : Moment) (found : Option V2Operation) (j : Journal)
      {result : CreateResult} {j' : Journal}
      → create_after digests operation now found j ≡ (result, j')
      → (result.outcome ≡ CreateOutcome.created) ⊎ (j' ≡ j)
  unfolding create_after
  create_after-cases operation now none j h = create_fresh-cases operation now _ j h
  create_after-cases operation now (some row) j h = inr (ground arith)

  -- A call that returns either created the operation, of a request with no candidate, for an
  -- account with nothing pending, and then wrote its row and its time alone, or it left the journal
  -- as it was.
  pub create_or_same :
      (operation : V2Operation) (now : Moment) (j : Journal) {result : CreateResult} {j' : Journal}
      → create_v2 digests operation now j ≡ ok (result, j')
      → ((result.outcome ≡ CreateOutcome.created)
          × (candidates digests operation.account_id operation.api_version operation.request_id j
              ≡ [])
          × (blocking_v2_operations digests operation.account_id j ≡ [])
          × (j' ≡ added digests operation now j))
        ⊎ (j' ≡ j)
  create_or_same operation now j h =
      let m = create-Made digests operation now j h in
      elim (create_after-cases operation now m.found j m.result_is) [
        | inl made ↦
            (let (fresh, free, is) = created_fresh operation now j h made in
              inl (made, fresh, free, is))
        | inr same ↦ inr same
      ]
