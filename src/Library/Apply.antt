-- ===== src/Library/Apply.antt =====
-- `MemoryLibrary.apply`: the dispatch of each write to its handler, in order, and the end of a batch.
use things3_orchestrator.Prelude.{
  if◌then◌else◌, contains, Result, err, ok, ◌>>=◌, ◌>>◌, raise_if, Dict, ℕ, String, not, List, [],
  ◌∷◌,
}
use things3_orchestrator.Json.{JsonValue}
use things3_orchestrator.Library.Types.{
  Action, create, edit, lifecycle, tag, checklist, recurrence, Write, Error, heading_elsewhere,
  Library,
}
use things3_orchestrator.Library.Ids.{compile_mutation}
use things3_orchestrator.Library.Queries.{resolve_instance_types}
use things3_orchestrator.Library.Handler.{Applied, new_handler, heading_fits}
use things3_orchestrator.Library.Handler.Create.{create_item}
use things3_orchestrator.Library.Handler.Edit.{edit_item}
use things3_orchestrator.Library.Handler.Lifecycle.{lifecycle_item}
use things3_orchestrator.Library.Handler.Tag.{aliased, tag_item}
use things3_orchestrator.Library.Handler.Checklist.{checklist_item}
use things3_orchestrator.Library.Handler.Recurrence.{recurrence_item}
use mathlib.Core.Option

-- `self.verified` without repeats, in the order of first appearance
unfoldable pub distinct_from : List String → List String → List String
distinct_from seen [] = []
distinct_from seen (text ∷ texts) =
    let old = contains text seen in
    let rest = distinct_from (if old then seen else text ∷ seen) texts in
    if old then rest else text ∷ rest

pub record ApplyResult : Type 0 where
  pub verified : List String
  pub created : Dict String

-- the write with the tags that its batch made
unfoldable pub with_aliases : Dict String → Write → Write
unfolding aliased
with_aliases aliases w = record w { tag_uuids = Option.map (aliased aliases) w.tag_uuids }

module _ (py_str : JsonValue → String) (casefold strip : String → String) where
  -- `mutation.dispatch(self)`
  unfoldable pub dispatch : Action → Write → ℕ → Applied → Result Error Applied
  unfolding create_item edit_item lifecycle_item tag_item checklist_item recurrence_item
  dispatch (create is_heading) w now a = create_item py_str w is_heading now a
  dispatch (edit action) w now a = edit_item action w now a
  dispatch (lifecycle action) w now a = lifecycle_item action w now a
  dispatch (tag action) w now a = tag_item casefold strip action w a
  dispatch checklist w now a = checklist_item w a
  dispatch (recurrence action) w now a = recurrence_item py_str action w a

  -- the handler's `apply`
  unfoldable pub apply_write : Write → ℕ → Applied → Result Error Applied
  unfolding compile_mutation heading_fits with_aliases
  apply_write w now a = do
    action ← compile_mutation w.action
    let aliased_write = with_aliases a.tag_aliases w
    raise_if (not (heading_fits aliased_write a.library)) heading_elsewhere
    dispatch action aliased_write now a

  -- the writes in order, each with the moment at which it is applied
  unfoldable pub apply_each : List (Write × ℕ) → Applied → Result Error Applied
  unfolding apply_write
  apply_each [] a = ok a
  apply_each (timed ∷ rest) a = do next ← apply_write timed.0 timed.1 a; apply_each rest next

  -- `finish` and `result`
  unfoldable pub finished : Applied → Library × ApplyResult
  unfolding resolve_instance_types distinct_from
  finished a = (
    resolve_instance_types a.library,
    record { verified = distinct_from [] a.verified; created = a.created },
  )

  -- `apply`: what it returns or raises, and the library that it leaves
  unfoldable pub apply : List (Write × ℕ) → Library → Result Error ApplyResult × Library
  unfolding apply_each finished
  apply writes l = elim (apply_each writes (new_handler l)) [
    | err e ↦ (err e, l)
    | ok a ↦ let (next, result) = finished a in (ok result, next)
  ]
