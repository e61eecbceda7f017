-- ===== src/Library/WellFormed/Batch.antt =====
-- `MemoryLibrary.apply` on well-formed libraries.
use things3_orchestrator.Prelude.{
  ok, >>=-eq-ok, ok_inj, Result-cases, raise_if, ℕ, String, ◌≡◌, inl, inr, not, List, [], ◌∷◌,
}
use things3_orchestrator.Json.{JsonValue}
use things3_orchestrator.Library.Types.{
  Action, create, edit, lifecycle, tag, checklist, recurrence, Write, heading_elsewhere, Library,
}
use things3_orchestrator.Library.Ids.{compile_mutation}
use things3_orchestrator.Library.Handler.{Applied, new_handler, heading_fits}
use things3_orchestrator.Library.Apply.{
  with_aliases, dispatch, apply_write, apply_each, finished, apply,
}
use things3_orchestrator.Library.WellFormed.{IsWellFormed, resolve_instance_types-IsWellFormed}
use things3_orchestrator.Library.WellFormed.Edits.{edit_item-IsWellFormed}
use things3_orchestrator.Library.WellFormed.Handlers.{
  create_item-IsWellFormed, lifecycle_item-IsWellFormed,
}
use things3_orchestrator.Library.WellFormed.Labels.{
  tag_item-IsWellFormed, recurrence_item-IsWellFormed,
}
use things3_orchestrator.Library.WellFormed.Rows.{checklist_item-IsWellFormed}

module _ (py_str : JsonValue → String) (casefold strip : String → String) where
  dispatch-IsWellFormed :
      (action : Action) (w : Write) (now : ℕ) (a b : Applied)
      → IsWellFormed a.library
      → dispatch py_str casefold strip action w now a ≡ ok b
      → IsWellFormed b.library
  unfolding dispatch
  dispatch-IsWellFormed (create is_heading) w now a b =
      create_item-IsWellFormed py_str w is_heading now a b
  dispatch-IsWellFormed (edit action) w now a b = edit_item-IsWellFormed action w now a b
  dispatch-IsWellFormed (lifecycle action) w now a b = lifecycle_item-IsWellFormed action w now a b
  dispatch-IsWellFormed (tag action) w now a b = tag_item-IsWellFormed casefold strip action w a b
  dispatch-IsWellFormed checklist w now a b = checklist_item-IsWellFormed w a b
  dispatch-IsWellFormed (recurrence action) w now a b =
      recurrence_item-IsWellFormed py_str action w a b

  apply_write-IsWellFormed :
      (w : Write) (now : ℕ) (a b : Applied)
      → IsWellFormed a.library
      → apply_write py_str casefold strip w now a ≡ ok b
      → IsWellFormed b.library
  unfolding apply_write
  apply_write-IsWellFormed w now a b good e =
      let aimed = with_aliases a.tag_aliases w in
      let (action, _, e1) = >>=-eq-ok (compile_mutation w.action) _ e in
      let (_, _, e2) =
        >>=-eq-ok (raise_if (not (heading_fits aimed a.library)) heading_elsewhere) _ e1 in
      dispatch-IsWellFormed action aimed now a b good e2

  apply_each-IsWellFormed :
      (writes : List (Write × ℕ)) (a b : Applied)
      → IsWellFormed a.library
      → apply_each py_str casefold strip writes a ≡ ok b
      → IsWellFormed b.library
  unfolding apply_each
  apply_each-IsWellFormed [] a b good e = rw (← ok_inj e) good
  apply_each-IsWellFormed (timed ∷ rest) a b good e =
      let (next, first, e1) = >>=-eq-ok (apply_write py_str casefold strip timed.0 timed.1 a) _ e in
      apply_each-IsWellFormed rest next b
        (apply_write-IsWellFormed timed.0 timed.1 a next good first) e1

  -- Whatever writes are applied, and whether the batch returns or raises: every record stands under
  -- its own uuid and keys stay unique, no item is in two of Inbox, a Project and an area, what is in
  -- Inbox is neither in Someday nor on for tonight, and every checklist row is marked done just when
  -- its status says so.
  pub apply-IsWellFormed :
      (writes : List (Write × ℕ)) (l : Library)
      → IsWellFormed l
      → IsWellFormed (apply py_str casefold strip writes l).1
  unfolding apply finished
  apply-IsWellFormed writes l good =
      elim (Result-cases (apply_each py_str casefold strip writes (new_handler l))) [
        | inl (a, returned) ↦
            rw (returned, apply)
              (resolve_instance_types-IsWellFormed a.library
                (apply_each-IsWellFormed writes (new_handler l) a good returned))
        | inr (e, raised) ↦ rw (raised, apply) good
      ]
