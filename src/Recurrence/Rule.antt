-- ===== src/Recurrence/Rule.antt =====
-- `repeat_unit`, `repeat_interval`, `_repeat_anchor` and the selected dates that a rule implies.
use things3_orchestrator.Prelude.{
  leb, if◌then◌else◌, ℤ, pos, err, ok, ℕ, ◌+◌, ◌-◌, ◌*◌, ◌/◌, ◌%◌, ◌&&◌, Option, none, some, List,
  [], ◌∷◌, map,
}
use things3_orchestrator.Json.{
  finite, float_unit, JsonValue, int, float, dict, Fields, empty, field, get,
}
use things3_orchestrator.Calendar.{Date, epoch, max_ordinal, seconds_per_day, weekday, month, day}
use things3_orchestrator.Recurrence.Types.{RepeatUnit, anchor_unavailable, Checked, unit_of_code}

abbrev pub max_interval : ℕ
max_interval = 366

-- `_NEVER`
abbrev pub never : ℤ
never = pos 64092211200

-- a bool is an int to `isinstance`, and is no key of `_UNITS`
unit_of_value : JsonValue → Option RepeatUnit
unit_of_value (int n) = unit_of_code n
unit_of_value _ = none

unfoldable pub repeat_unit : Option Fields → Option RepeatUnit
unfolding unit_of_value
repeat_unit none = none
repeat_unit (some rule) = unit_of_value (get "fu" rule)

-- an int from 1 to `_MAX_INTERVAL` that is no bool
unfoldable pub interval_of_value : JsonValue → Option ℕ
interval_of_value (int (pos n)) = if leb 1 n && leb n max_interval then some n else none
interval_of_value _ = none

unfoldable pub repeat_interval : Option Fields → Option ℕ
unfolding interval_of_value
repeat_interval none = none
repeat_interval (some rule) = interval_of_value (get "fa" rule)

-- `datetime.fromtimestamp(raw, timezone.utc).date()` at whole days after the epoch; past year 9999
-- it raises
unfoldable pub date_after_epoch : ℕ → Checked Date
date_after_epoch days =
    if leb (epoch + days) max_ordinal then ok (epoch + days) else err anchor_unavailable

-- A float is rounded to the nearest microsecond: `raw` is n / float_unit seconds, so the day is the
-- floor of (2000000 * raw + 1) / (2000000 * 86400).
unfoldable pub float_day : ℕ → ℕ
unfolding float_unit
float_day n = (2000000 * n + float_unit) / (2000000 * seconds_per_day * float_unit)

unfoldable pub anchor_of_value : JsonValue → Checked Date
unfolding date_after_epoch float_day
anchor_of_value (int (pos n)) =
    if leb n 0 then err anchor_unavailable else date_after_epoch (n / seconds_per_day)
anchor_of_value (float (finite (pos n))) =
    if leb n 0 then err anchor_unavailable else date_after_epoch (float_day n)
anchor_of_value _ = err anchor_unavailable

unfoldable pub repeat_anchor : Fields → Checked Date
unfolding anchor_of_value
repeat_anchor rule = anchor_of_value (get "sr" rule)

-- `{"wd": code}`
unfoldable pub weekday_offset : ℤ → JsonValue
weekday_offset code = dict (field "wd" (int code) empty)

unfoldable pub weekday_offsets : List ℤ → List JsonValue
unfolding weekday_offset
weekday_offsets codes = map weekday_offset codes

-- The single selected date of a weekly, monthly or yearly rule that begins at the anchor.
unfoldable pub anchor_offsets : RepeatUnit → Date → List JsonValue
unfolding weekday_offset
anchor_offsets RepeatUnit.week anchor = weekday_offset (pos ((weekday anchor + 1) % 7)) ∷ []
anchor_offsets RepeatUnit.month anchor = dict (field "dy" (int (pos (day anchor - 1))) empty) ∷ []
anchor_offsets RepeatUnit.year anchor =
    dict (field "dy" (int (pos (day anchor - 1))) (field "mo" (int (pos (month anchor - 1))) empty))
    ∷ []
anchor_offsets RepeatUnit.day anchor = []
