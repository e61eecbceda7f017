-- ===== src/Recurrence/Tests.antt =====
-- recurrence.py on concrete rules.
use things3_orchestrator.Prelude.{
  pos, negsuc, ok, ℕ, ◌≡◌, refl, true, false, none, some, List, [], ◌∷◌, map, arith,
}
use things3_orchestrator.Json.{
  bool, int, str, list, dict, nil, cons, Fields, empty, field, get, has_key, put, items,
}
use things3_orchestrator.Calendar.{weekday, month, day}
use things3_orchestrator.Recurrence.Types.{
  RepeatUnit, RepeatMode, RepeatType, Role, RecurrenceState, no_recurrence, unit_of_code,
  unit_of_name, mode_of_name, type_of_mode,
}
use things3_orchestrator.Recurrence.Rule.{
  repeat_unit, interval_of_value, repeat_interval, repeat_anchor, anchor_offsets,
}
use things3_orchestrator.Recurrence.Offsets.{
  codes_of, distinct, validate_weekday_codes, validate_offsets, offsets_for_unit,
}
use things3_orchestrator.Recurrence.NewRule.{RuleRequest, built_rule, new_rule}
use things3_orchestrator.Recurrence.Fold.{fold_rule, fold_payloads, rule_weekday_codes}
use things3_orchestrator.Recurrence.Transition.{
  Change, validate_interval_template, require, check_change, check_edit, new_offsets, changed_rule,
  edit_rule, transition,
}
use things3_orchestrator.Recurrence.Offsets.Default.{anchor_offsets_valid}
use things3_orchestrator.Recurrence.Transition.Effect.{
  Edited, transition-Edited, transition_keeps_opaque,
}
use things3_orchestrator.Recurrence.NewRule.RoundTrip.{
  new_rule_reads_back, new_rule_anchor, new_rule_weekdays,
}
use things3_orchestrator.Recurrence.Fold.Coherent.{IsCoherent, fold_payloads-IsCoherent}

abbrev daily_rule : Fields
daily_rule = field "fu" (int (pos 16)) (
    field "fa" (int (pos 1))
      (field "of" (list nil) (field "sr" (int (pos 1700000000)) (field "x" (str "kept") empty))))

abbrev daily : RecurrenceState
daily = record no_recurrence {
  role = Role.template;
  repeat_type = RepeatType.fixed;
  rule = some daily_rule;
}

abbrev to_weeks : Change
to_weeks = record {
  mode = none;
  unit = some "week";
  interval = some (int (pos 2));
  weekday_codes = none;
  offsets = none;
  until = none;
  until_set = false;
  remove = false;
}

-- 2023-11-14 was a Tuesday
abbrev biweekly : RecurrenceState
biweekly = record daily {
  rule = some (
      field "fu" (int (pos 256)) (
        field "fa" (int (pos 2)) (
          field "of" (list (cons (dict (field "wd" (int (pos 2)) empty)) nil)) (
            field "sr" (int (pos 1700000000))
              (field "x" (str "kept") (field "ts" (int (pos 0)) empty))))));
}

daily_to_biweekly : transition "task" to_weeks daily ≡ ok biweekly
unfolding transition require edit_rule validate_interval_template check_change check_edit
    new_offsets changed_rule unit_of_name mode_of_name validate_weekday_codes interval_of_value
    repeat_unit repeat_interval unit_of_code offsets_for_unit get put has_key items weekday month
    day
daily_to_biweekly = refl

transition-Edited_example : Edited "task" to_weeks daily biweekly
transition-Edited_example = transition-Edited "task" to_weeks daily refl daily_to_biweekly

transition_keeps_opaque_example :
    (rule : Fields) × (rule' : Fields) × (daily.rule ≡ some rule)
    × (biweekly.rule ≡ some rule')
    × (get "x" rule' ≡ get "x" rule)
transition_keeps_opaque_example =
    transition_keeps_opaque "task" to_weeks daily "x" (refl, refl, refl, refl, refl, refl, refl)
      refl daily_to_biweekly

-- Tuesdays and Fridays every second week, from 2023-11-14
abbrev request : RuleRequest
request = record {
  mode = RepeatMode.fixed;
  unit = RepeatUnit.week;
  interval = pos 2;
  anchor = 738838;
  weekday_codes = some (pos 2 ∷ pos 5 ∷ []);
  offsets = none;
  until = none;
}

request_builds : new_rule request ≡ ok (built_rule request)
unfolding new_rule codes_of distinct
request_builds = refl

new_rule_reads_back_example :
    (n : ℕ) × (request.interval ≡ pos n)
    × (repeat_interval (some (built_rule request)) ≡ some n)
    × (repeat_unit (some (built_rule request)) ≡ some request.unit)
    × ((fold_rule (dict (built_rule request)) no_recurrence).repeat_type
        ≡ type_of_mode request.mode)
    × ((fold_rule (dict (built_rule request)) no_recurrence).rule ≡ some (built_rule request))
new_rule_reads_back_example = new_rule_reads_back request no_recurrence request_builds

new_rule_anchor_example : repeat_anchor (built_rule request) ≡ ok 738838
new_rule_anchor_example = new_rule_anchor request (omega arith) (omega arith) request_builds

new_rule_weekdays_example :
    map pos (rule_weekday_codes (some (built_rule request))) ≡ pos 2 ∷ pos 5 ∷ []
new_rule_weekdays_example =
    new_rule_weekdays request (pos 2) (pos 5 ∷ []) refl refl refl request_builds

abbrev last_friday : Fields
last_friday = field "wd" (int (pos 5)) (field "wdo" (int (negsuc 0)) empty)

anchor_offsets_valid_example :
    (offsets : List Fields) × (anchor_offsets RepeatUnit.year 738838 ≡ map dict offsets)
    × (validate_offsets RepeatUnit.year offsets ≡ ok tt)
anchor_offsets_valid_example = anchor_offsets_valid RepeatUnit.year 738838 (λ e. cc)

abbrev payloads : List Fields
payloads =
    field "rr" (dict daily_rule) empty
    ∷ field "rt" (list (cons (str "T1") nil)) (field "icp" (bool true) empty)
    ∷ []

fold_payloads-IsCoherent_example : IsCoherent (fold_payloads (λ v. "?") payloads no_recurrence)
fold_payloads-IsCoherent_example = fold_payloads-IsCoherent (λ v. "?") payloads
