-- ===== src/Journal/Checks.antt =====
-- The pure tests of journal.py: accounts, manifests, receipts, and when an operation may settle.
use things3_orchestrator.Prelude.{
  nat_eq, if◌then◌else◌, bool_eq, length, pos, err, ok, ◌>>◌, raise_if, ℕ, ◌+◌, String, ◌==◌, Bool,
  true, false, not, ◌&&◌, ◌||◌, Option, none, some, List, [], ◌∷◌,
}
use things3_orchestrator.Json.{
  JsonValue, list, dict, cons, Fields, get, values, equals_int, equals_text, equals_text_or_none,
  equal,
}
use things3_orchestrator.Journal.Types.{
  V2State, IntentState, V2Operation, ambiguous, bad_manifest, bad_sequences, bad_receipt_count,
  Outcome, Digests,
}

abbrev pub is_pending : V2State → Bool
is_pending V2State.pending = true
is_pending _ = false

abbrev pub is_awaiting_owner : V2State → Bool
is_awaiting_owner V2State.awaiting_owner = true
is_awaiting_owner _ = false

abbrev pub intent_is_pending : IntentState → Bool
intent_is_pending IntentState.pending = true
intent_is_pending _ = false

-- `state in {"applied", "unchanged", "not_applied", "partial"}`
abbrev pub is_apply_state : V2State → Bool
is_apply_state V2State.applied = true
is_apply_state V2State.unchanged = true
is_apply_state V2State.not_applied = true
is_apply_state V2State.partial = true
is_apply_state _ = false

-- `state in {"applied", "partial"}`
abbrev pub shows_effect : V2State → Bool
shows_effect V2State.applied = true
shows_effect V2State.partial = true
shows_effect _ = false

abbrev pub is_not_applied : V2State → Bool
is_not_applied V2State.not_applied = true
is_not_applied _ = false

unfoldable pub dispatch_allows_settlement : V2Operation → V2State → Bool → Bool
dispatch_allows_settlement operation state definitive_rejection =
    if definitive_rejection && not operation.dispatch_started
    then false
    else not operation.dispatch_started
      || (shows_effect state || (is_not_applied state && definitive_rejection))

-- `[row.get("sequence") for row in rows] == list(range(start, …))`
unfoldable pub contiguous : ℕ → List Fields → Bool
contiguous start [] = true
contiguous start (row ∷ rows) =
    equals_int (get "sequence" row) (pos start) && contiguous (start + 1) rows

-- the number of writes that a manifest lists, if it lists any
unfoldable pub write_count : JsonValue → Option ℕ
write_count (list (cons w ws)) = some (length (values (cons w ws)))
write_count _ = none

module _ (digests : Digests) where
  open digests use {account_key, manifest_hash}

  unfoldable pub same_account_id : String → String → Bool
  same_account_id left right = account_key left == account_key right

  unfoldable pub v2_manifest_is_valid : V2Operation → Bool
  v2_manifest_is_valid operation =
      let manifest = operation.manifest in
      if not (operation.api_version == "2")
      then false
      else equals_text (get "version" manifest) "v1"
        && (equals_text (get "schema_version" manifest) "v2.0"
            && (equals_text (get "account_id" manifest) operation.account_id
                && (equals_text (get "api_version" manifest) operation.api_version
                    && (equals_text (get "request_hash" manifest) operation.request_hash
                        && (equals_text (get "tool" manifest) operation.tool
                            && (equals_text (get "safety_policy_digest" manifest)
                                  operation.safety_policy_digest
                                && (equals_text_or_none (get "expires_at" manifest)
                                      operation.expires_at
                                    && (manifest_hash manifest == operation.manifest_hash))))))))

  unfoldable pub receipts_fit : Option ℕ → List Fields → Outcome (List Fields)
  receipts_fit none rows = err bad_receipt_count
  receipts_fit (some n) rows = if nat_eq (length rows) n then ok rows else err bad_receipt_count

  -- `_validate_v2_operation_receipts`, which also copies the rows
  unfoldable pub validate_operation_receipts : V2Operation → List Fields → Outcome (List Fields)
  unfolding receipts_fit v2_manifest_is_valid
  validate_operation_receipts operation rows = do
    raise_if (not (v2_manifest_is_valid operation)) bad_manifest
    raise_if (not (contiguous 1 rows)) bad_sequences
    receipts_fit (write_count (get "writes" operation.manifest)) rows

abbrev same_text_or_none : Option String → Option String → Bool
same_text_or_none none none = true
same_text_or_none (some a) (some b) = a == b
same_text_or_none _ _ = false

abbrev same_response : Option Fields → Option Fields → Bool
same_response none none = true
same_response (some a) (some b) = equal (dict a) (dict b)
same_response _ _ = false

abbrev pub state_number : V2State → ℕ
state_number V2State.awaiting_owner = 0
state_number V2State.pending = 1
state_number V2State.applied = 2
state_number V2State.unchanged = 3
state_number V2State.not_applied = 4
state_number V2State.partial = 5
state_number V2State.partial_resolved = 6
state_number V2State.stale = 7
state_number V2State.declined = 8
state_number V2State.rejected = 9

-- `==` of two operations, field by field
unfoldable pub same_operation : V2Operation → V2Operation → Bool
same_operation a b =
    a.account_id == b.account_id
    && (a.api_version == b.api_version
        && (a.request_id == b.request_id
            && (a.request_hash == b.request_hash
                && (a.operation_id == b.operation_id
                    && (a.tool == b.tool
                        && (nat_eq (state_number a.state) (state_number b.state)
                            && (equal (dict a.manifest) (dict b.manifest)
                                && (a.manifest_hash == b.manifest_hash
                                    && (a.safety_policy_digest == b.safety_policy_digest
                                        && (same_text_or_none a.expires_at b.expires_at
                                            && (same_response a.response b.response
                                                && (same_text_or_none a.authorization
                                                      b.authorization
                                                    && (same_text_or_none a.receipt_hash
                                                          b.receipt_hash
                                                        && bool_eq a.dispatch_started
                                                            b.dispatch_started)))))))))))))

unfoldable pub all_same : V2Operation → List V2Operation → Bool
unfolding same_operation
all_same first [] = true
all_same first (next ∷ rest) = same_operation next first && all_same first rest

unfoldable pub resolve_candidates : List V2Operation → Outcome (Option V2Operation)
unfolding all_same
resolve_candidates [] = ok none
resolve_candidates (first ∷ rest) = if all_same first rest then ok (some first) else err ambiguous
