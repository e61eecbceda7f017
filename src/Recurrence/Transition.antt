-- ===== src/Recurrence/Transition.antt =====
-- `RecurrenceState.transition` and `validate_interval_template`.
pub mod Inversion
pub mod Keys
pub mod Effect
use things3_orchestrator.Prelude.{
  ltb, if◌then◌else◌, ℤ, pos, ok, err, ◌>>=◌, ◌>>◌, raise_if, ℕ, String, ◌==◌, Bool, true, false,
  not, ◌&&◌, ◌||◌, Option, none, some, List, [], map,
}
use things3_orchestrator.Json.{JsonValue, bool, int, float, list, dict, Fields, get, put, items}
use things3_orchestrator.Calendar.{Date}
use things3_orchestrator.Recurrence.Types.{
  RepeatUnit, RepeatMode, RepeatType, Role, RecurrenceState, no_recurrence, Error, not_a_template,
  remove_with_changes, nothing_to_change, bad_interval, bad_mode, bad_unit, two_representations,
  unsupported_mode, unsupported_unit, unsupported_interval, selected_dates_need_fixed,
  end_needs_fixed, end_before_start, weekdays_need_week, Checked, unit_code, unit_of_name,
  mode_code, mode_of_name, type_of_mode, mode_of_type, is_fixed, unit_eq,
}
use things3_orchestrator.Recurrence.Rule.{
  never, repeat_unit, interval_of_value, repeat_interval, repeat_anchor,
}
use things3_orchestrator.Recurrence.Offsets.{
  validate_weekday_codes, validate_offsets, offsets_for_unit,
}
use things3_orchestrator.Recurrence.NewRule.{is_given, end_stamp, start_shift}

-- The keyword arguments of `transition`, before any of them is checked.
pub record Change : Type 0 where
  pub mode : Option String
  pub unit : Option String
  pub interval : Option JsonValue
  pub weekday_codes : Option (List JsonValue)
  pub offsets : Option (List Fields)
  pub until : Option Date
  pub until_set : Bool
  pub remove : Bool

-- The same once the mode, the unit and the interval are checked.
pub record Edit : Type 0 where
  pub mode : Option RepeatMode
  pub unit : Option RepeatUnit
  pub interval : Option ℕ
  pub weekday_codes : Option (List JsonValue)
  pub offsets : Option (List Fields)
  pub until : Option Date
  pub until_set : Bool

template_rule : Role → RepeatType → Option Fields → List String → Checked Fields
template_rule Role.template RepeatType.fixed (some rule) [] = ok rule
template_rule Role.template RepeatType.after_completion (some rule) [] = ok rule
template_rule _ _ _ _ = err not_a_template

-- The rule that the validated template has.
unfoldable pub validate_interval_template : String → RecurrenceState → Checked Fields
unfolding template_rule
validate_interval_template kind s = do
  raise_if (not (kind == "task" || kind == "project")) not_a_template
  template_rule s.role s.repeat_type s.rule s.links

abbrev pub changes_rule : Change → Bool
changes_rule c =
    is_given c.mode
    || is_given c.unit
    || is_given c.interval
    || is_given c.weekday_codes
    || is_given c.offsets

-- an argument that may be left out, checked by `test`
unfoldable pub checked : {A B : Type 0} → (A → Option B) → Error → Option A → Checked (Option B)
checked test e none = ok none
checked test e (some a) = elim (test a) [ none ↦ err e | some b ↦ ok (some b) ]

unfoldable pub require : {A : Type 0} → Option A → Error → Checked A
require none e = err e
require (some a) e = ok a

unfoldable pub check_change : Change → Checked Edit
unfolding checked
check_change c = do
  interval ← checked interval_of_value bad_interval c.interval
  mode ← checked mode_of_name bad_mode c.mode
  unit ← checked unit_of_name bad_unit c.unit
  validate_weekday_codes c.weekday_codes
  raise_if (is_given c.offsets && is_given c.weekday_codes) two_representations
  ok (record {
    mode = mode;
    unit = unit;
    interval = interval;
    weekday_codes = c.weekday_codes;
    offsets = c.offsets;
    until = c.until;
    until_set = c.until_set;
  })

abbrev pub or_else {ℓ} : {A : Type ℓ} → Option A → A → A
or_else none a = a
or_else (some b) a = b

check_end : Fields → Bool → Option Date → Checked (Unit {0})
check_end rule true (some until) = do
  anchor ← repeat_anchor rule
  raise_if (ltb until anchor) end_before_start
check_end rule _ _ = ok tt

check_offsets : RepeatUnit → Option (List Fields) → Checked (Unit {0})
check_offsets unit none = ok tt
check_offsets unit (some offsets) = validate_offsets unit offsets

-- the tests on the combination of the arguments with the target mode and unit
unfoldable pub check_edit : Fields → RepeatMode → RepeatUnit → Edit → Checked (Unit {0})
unfolding check_end check_offsets
check_edit rule target_mode target_unit e = do
  raise_if (not (is_fixed target_mode) && (is_given e.weekday_codes || is_given e.offsets))
      selected_dates_need_fixed
  raise_if (not (is_fixed target_mode) && (e.until_set && is_given e.until)) end_needs_fixed
  check_end rule e.until_set e.until
  check_offsets target_unit e.offsets
  raise_if (is_given e.weekday_codes && not (unit_eq target_unit RepeatUnit.week))
      weekdays_need_week

abbrev pub put_given : {A : Type 0} → (A → JsonValue) → String → Option A → Fields → Fields
put_given f k none d = d
put_given f k (some a) d = put k (f a) d

abbrev pub unit_changes : Option RepeatUnit → RepeatUnit → Bool
unit_changes none current = false
unit_changes (some unit) current = not (unit_eq unit current)

rebuilt_offsets : Fields → RepeatUnit → Edit → Checked (List JsonValue)
rebuilt_offsets rule unit e = elim e.offsets [
  | none ↦ offsets_for_unit rule unit e.weekday_codes
  | some offsets ↦ ok (map dict offsets)
]

-- The new value of "of", if the edit replaces it.
unfoldable pub new_offsets :
    Fields
    → RepeatMode
    → RepeatUnit
    → RepeatMode
    → RepeatUnit
    → Edit
    → Checked (Option (List JsonValue))
unfolding rebuilt_offsets
new_offsets rule mode unit target_mode target_unit e =
    if not (is_fixed target_mode) && (is_fixed mode || unit_changes e.unit unit)
    then ok (some [])
    else if is_fixed target_mode
        && (not (is_fixed mode)
            || (unit_changes e.unit unit || (is_given e.weekday_codes || is_given e.offsets)))
    then (do offsets ← rebuilt_offsets rule target_unit e; ok (some offsets))
    else ok none

-- `isinstance(value, (int, float))`
is_number : JsonValue → Bool
is_number (int n) = true
is_number (bool b) = true
is_number (float x) = true
is_number _ = false

put_shift : Bool → Fields → RepeatUnit → Fields → Fields
unfolding is_number
put_shift changes rule unit d =
    if changes && is_number (get "sr" rule) then put "ts" (int (start_shift unit)) d else d

put_end : ℤ → Fields → Fields
put_end stamp d = put "rc" (int (pos 0)) (put "ed" (int stamp) d)

ends_never : Option RepeatMode → Bool
ends_never (some RepeatMode.after_completion) = true
ends_never _ = false

-- The edits of the copied rule, in the order of the source.
unfoldable pub changed_rule :
    Fields → RepeatUnit → RepeatUnit → Option (List JsonValue) → Edit → Fields
unfolding put_shift put_end ends_never
changed_rule rule unit target_unit offsets e =
    let d1 = put_given (λ m. int (pos (mode_code m))) "tp" e.mode rule in
    let d2 = put_given (λ u. int (pos (unit_code u))) "fu" e.unit d1 in
    let d3 = put_given (λ n. int (pos n)) "fa" e.interval d2 in
    let d4 = put_given (λ vs. list (items vs)) "of" offsets d3 in
    let d5 = put_shift (unit_changes e.unit unit) rule target_unit d4 in
    let d6 = if ends_never e.mode then put_end never d5 else d5 in
    if e.until_set then put_end (end_stamp e.until) d6 else d6

unfoldable pub edit_rule :
    RecurrenceState → Fields → RepeatMode → RepeatUnit → Edit → Checked RecurrenceState
edit_rule s rule mode unit e = do
  let target_mode = or_else e.mode mode
  let target_unit = or_else e.unit unit
  check_edit rule target_mode target_unit e
  offsets ← new_offsets rule mode unit target_mode target_unit e
  ok (record s {
    repeat_type = type_of_mode target_mode;
    rule = some (changed_rule rule unit target_unit offsets e);
  })

unfoldable pub transition : String → Change → RecurrenceState → Checked RecurrenceState
unfolding edit_rule
transition kind c s = do
  rule ← validate_interval_template kind s
  raise_if (c.remove && changes_rule c) remove_with_changes
  raise_if (not c.remove && (not (changes_rule c) && not c.until_set)) nothing_to_change
  e ← check_change c
  mode ← require (mode_of_type s.repeat_type) unsupported_mode
  unit ← require (repeat_unit (some rule)) unsupported_unit
  _ ← require (repeat_interval (some rule)) unsupported_interval
  if c.remove then ok no_recurrence else edit_rule s rule mode unit e
