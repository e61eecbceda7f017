-- ===== src/Recurrence/Types.antt =====
-- The data of recurrence.py: literals, `RecurrenceState`, and what its functions raise.
use things3_orchestrator.Prelude.{
  if◌then◌else◌, ℤ, pos, eq_ℤ, Result, ℕ, String, ◌==◌, Bool, true, false, Option, some, List, [],
}
use things3_orchestrator.Json.{Fields}

pub data RepeatUnit : Type 0 where
  day week month year : RepeatUnit

pub data RepeatMode : Type 0 where
  fixed after_completion : RepeatMode

pub data RepeatType : Type 0 where
  none fixed after_completion unknown : RepeatType

pub data Role : Type 0 where
  none template instanced : Role

pub record RecurrenceState : Type 0 where
  pub role : Role
  pub repeat_type : RepeatType
  pub template_uuid : Option String
  pub rule : Option Fields
  pub links : List String
  pub paused : Bool

-- `RecurrenceState()`
abbrev pub no_recurrence : RecurrenceState
no_recurrence = record {
  role = Role.none;
  repeat_type = RepeatType.none;
  template_uuid = Option.none;
  rule = Option.none;
  links = [];
  paused = false;
}

-- One constructor for each message of a `ValueError`; `anchor_unavailable` is the subclass
-- `RecurrenceReadError`, and `unhashable` the `TypeError` of `value in {…}`.
pub data Error : Type 0 where
  not_a_template remove_with_changes nothing_to_change bad_interval bad_mode bad_unit : Error
  bad_weekdays two_representations unsupported_mode unsupported_unit unsupported_interval : Error
  selected_dates_need_fixed end_needs_fixed end_before_start weekdays_need_week : Error
  no_offsets daily_offsets weekly_offset_shape monthly_names_month yearly_needs_month : Error
  day_or_weekday day_out_of_range weekday_out_of_range bad_ordinal : Error
  anchor_unavailable unhashable : Error

abbrev pub Checked : Type 0 → Type 0
Checked A = Result Error A

-- `_UNITS`, `_UNIT_CODES`
abbrev pub unit_code : RepeatUnit → ℕ
unit_code RepeatUnit.year = 4
unit_code RepeatUnit.month = 8
unit_code RepeatUnit.day = 16
unit_code RepeatUnit.week = 256

unfoldable pub unit_of_code : ℤ → Option RepeatUnit
unit_of_code n =
    if eq_ℤ n (pos 4)
    then some RepeatUnit.year
    else if eq_ℤ n (pos 8)
    then some RepeatUnit.month
    else if eq_ℤ n (pos 16)
    then some RepeatUnit.day
    else if eq_ℤ n (pos 256)
    then some RepeatUnit.week
    else Option.none

-- the key of `_UNIT_CODES` that a text is
unfoldable pub unit_of_name : String → Option RepeatUnit
unit_of_name s =
    if s == "year"
    then some RepeatUnit.year
    else if s == "month"
    then some RepeatUnit.month
    else if s == "day"
    then some RepeatUnit.day
    else if s == "week"
    then some RepeatUnit.week
    else Option.none

-- `_MODE_CODES`
abbrev pub mode_code : RepeatMode → ℕ
mode_code RepeatMode.fixed = 0
mode_code RepeatMode.after_completion = 1

unfoldable pub mode_of_name : String → Option RepeatMode
mode_of_name s =
    if s == "fixed"
    then some RepeatMode.fixed
    else if s == "after_completion"
    then some RepeatMode.after_completion
    else Option.none

abbrev pub type_of_mode : RepeatMode → RepeatType
type_of_mode RepeatMode.fixed = RepeatType.fixed
type_of_mode RepeatMode.after_completion = RepeatType.after_completion

-- `repeat_type in _MODE_CODES`, with the mode that it then is
abbrev pub mode_of_type : RepeatType → Option RepeatMode
mode_of_type RepeatType.fixed = some RepeatMode.fixed
mode_of_type RepeatType.after_completion = some RepeatMode.after_completion
mode_of_type _ = Option.none

abbrev pub is_fixed : RepeatMode → Bool
is_fixed RepeatMode.fixed = true
is_fixed RepeatMode.after_completion = false

abbrev pub unit_eq : RepeatUnit → RepeatUnit → Bool
unit_eq RepeatUnit.day RepeatUnit.day = true
unit_eq RepeatUnit.week RepeatUnit.week = true
unit_eq RepeatUnit.month RepeatUnit.month = true
unit_eq RepeatUnit.year RepeatUnit.year = true
unit_eq _ _ = false
