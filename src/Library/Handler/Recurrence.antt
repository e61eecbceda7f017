-- ===== src/Library/Handler/Recurrence.antt =====
-- The `recurrence` of `_MemoryApplyHandler`.
use things3_orchestrator.Prelude.{
  if◌then◌else◌, eq_ℤ, Result, err, ok, ◌>>=◌, ◌>>◌, raise_if, lookup, String, Bool, true, false,
  not, ◌&&◌, ◌||◌, Option, none, some,
}
use things3_orchestrator.Json.{JsonValue}
use things3_orchestrator.Library.Types.{
  Kind, Record, RepeatAction, Write, Error, no_exact_template, no_next_count, bad_template,
}
use things3_orchestrator.Library.Queries.{is_template, is_none, add_ℕ}
use things3_orchestrator.Recurrence.Fold.{fold_rule, fold_paused, fold_links}
use things3_orchestrator.Recurrence.Transition.{validate_interval_template}
use things3_orchestrator.Library.Handler.{Applied, verify, save}
use things3_orchestrator.Library.Handler.Create.{rule_value, pause_value, text_items, given_links}

kind_text : Kind → String
kind_text Kind.task = "task"
kind_text Kind.project = "project"
kind_text Kind.area = "area"

-- the guards before the item is looked at
unfoldable pub repeat_asks : Write → Bool
repeat_asks w =
    not (is_none w.recurrence_rule) || w.clear_recurrence_rule || not (is_none w.recurrence_paused)

unfoldable pub next_count_fits : Write → Record → Bool
next_count_fits w item = elim w.recurrence_instance_count [
  | none ↦ false
  | some count ↦
      is_template item.recurrence.role && eq_ℤ count (add_ℕ item.recurrence_instance_count 1)
]

unfoldable pub repeat_allowed : RepeatAction → Write → Option Record → Result Error (Unit {0})
unfolding repeat_asks next_count_fits
repeat_allowed RepeatAction.repeat w found =
    raise_if (is_none found || not (repeat_asks w)) no_exact_template
repeat_allowed RepeatAction.repeat_next w none = err no_next_count
repeat_allowed RepeatAction.repeat_next w (some item) =
    raise_if (not (next_count_fits w item)) no_next_count
repeat_allowed _ w found = ok tt

unfoldable pub checked_template : Record → Result Error (Unit {0})
unfolding kind_text validate_interval_template
checked_template item = elim (validate_interval_template (kind_text item.kind) item.recurrence) [
  | err e ↦ err (bad_template e)
  | ok rule ↦ ok tt
]

unfoldable pub changed_rule : Write → Record → Record
changed_rule w item =
    if is_none w.recurrence_rule && not w.clear_recurrence_rule
    then item
    else record item { recurrence = fold_rule (rule_value w.recurrence_rule) item.recurrence }

unfoldable pub counted : Write → Record → Record
counted w item = elim w.recurrence_instance_count [
  | none ↦ item
  | some count ↦ record item {
    recurrence_instance_count = count;
    recurrence_instance_count_known = true;
  }
]

unfoldable pub paused : Write → Record → Record
paused w item = if is_none w.recurrence_paused then item else record item {
  recurrence = fold_paused (pause_value w.recurrence_paused) item.recurrence;
  recurrence_paused_known = true;
}

module _ (py_str : JsonValue → String) where
  unfoldable pub repeat_record : RepeatAction → Write → Record → Result Error Record
  unfolding checked_template changed_rule counted fold_links
  repeat_record RepeatAction.repeat w item = do checked_template item; ok (changed_rule w item)
  repeat_record RepeatAction.repeat_link w item = ok (record item {
    recurrence = fold_links py_str (text_items (given_links w.recurrence_links)) item.recurrence;
  })
  repeat_record RepeatAction.repeat_next w item = ok (counted w item)
  repeat_record RepeatAction.repeat_progress w item = ok (record item {
    recurrence_completed_on = w.recurrence_completed_on;
    recurrence_next_on = w.recurrence_next_on;
  })

  unfoldable pub repeat_found :
      RepeatAction → Write → Option Record → Applied → Result Error Applied
  unfolding repeat_record paused
  repeat_found action w none a = ok a
  repeat_found action w (some item) a = do
    changed ← repeat_record action w item
    ok (verify changed.title (save w.uuid (paused w changed) a))

  -- `recurrence`
  unfoldable pub recurrence_item : RepeatAction → Write → Applied → Result Error Applied
  unfolding repeat_allowed repeat_found
  recurrence_item action w a = do
    let found = lookup w.uuid a.library.records
    repeat_allowed action w found
    repeat_found action w found a
