-- ===== src/Cloud/Values.antt =====
-- How cloud.py reads the values of a payload. Python's `str` of a value and `int` of a text are
-- parameters.
use things3_orchestrator.Library.Types.{Library}
use things3_orchestrator.Library.Types as Writes
use things3_orchestrator.Prelude.{
  leb, if◌then◌else◌, ℤ, pos, negsuc, sub_ℕ, Result, err, ok, ℕ, ◌+◌, ◌-◌, ◌*◌, ◌/◌, ◌≤◌, ◌<◌,
  String, ◌≡◌, refl, ◌∙◌, Bool, Option, none, some, List, [], ◌∷◌, arith,
}
use things3_orchestrator.Json.{
  finite, float_unit, JsonValue, null, bool, int, float, str, list, cons, Fields, get, has_key,
  values,
}
use things3_orchestrator.Calendar.{Date, epoch, max_ordinal, seconds_per_day, timestamp}
use things3_orchestrator.Recurrence.Rule.{date_after_epoch, anchor_of_value}
use mathlib.Core.Path.{ap}

-- What a fold or a plan raises: `int(…)` of a value that is no number, the errors of `CloudError` by
-- their messages, and those of library.py.
pub data Error : Type 0 where
  bad_number unsupported_entity no_tag_title unplanned_tag project_to_inbox foreign_heading : Error
  row_without_task no_repeat_template no_progress no_next_copy repeated_uuid : Error
  conflicting_kinds conflicting_delete late_create duplicate_create : Error
  bad_write : Writes.Error → Error

abbrev pub Folded : Type 0 → Type 0
Folded A = Result Error A

abbrev pub not_null : JsonValue → Option JsonValue
not_null null = none
not_null v = some v

-- `payload[key]` if the key is there and its value is not `None`
unfoldable pub given : String → Fields → Option JsonValue
given key payload = not_null (get key payload)

-- `payload.get(key)` if the key is there
unfoldable pub present : String → Fields → Option JsonValue
present key payload = if has_key key payload then some (get key payload) else none

-- `isinstance(value, bool)`, with its value
unfoldable pub bool_of : JsonValue → Option Bool
bool_of (bool b) = some b
bool_of _ = none

-- `isinstance(value, list)`, with its values
unfoldable pub list_of : JsonValue → Option (List JsonValue)
list_of (list vs) = some (values vs)
list_of _ = none

-- a whole number of float units, rounded toward zero
truncated : ℤ → ℤ
truncated (pos n) = pos (n / float_unit)
truncated (negsuc n) = sub_ℕ 0 ((n + 1) / float_unit)

module _ (int_of_text : String → Option ℤ) where
  -- `int(value)`
  unfoldable pub as_int : JsonValue → Folded ℤ
  unfolding truncated
  as_int (int n) = ok n
  as_int (bool b) = ok (if b then pos 1 else pos 0)
  as_int (float (finite n)) = ok (truncated n)
  as_int (str s) = elim (int_of_text s) [ none ↦ err bad_number | some n ↦ ok n ]
  as_int _ = err bad_number

module _ (py_str : JsonValue → String) where
  -- `str(value)`
  unfoldable pub as_text : JsonValue → String
  as_text (str s) = s
  as_text v = py_str v

  -- `[str(value) for value in values]`
  unfoldable pub as_texts : List JsonValue → List String
  unfolding as_text
  as_texts [] = []
  as_texts (v ∷ vs) = as_text v ∷ as_texts vs

  -- `str(value[0])` where the value is a list that is not empty
  unfoldable pub first_text : JsonValue → Option String
  unfolding as_text
  first_text (list (cons v vs)) = some (as_text v)
  first_text _ = none

-- `from_ts` of library.py
unfoldable pub from_ts : JsonValue → Option Date
unfolding anchor_of_value
from_ts v = elim (anchor_of_value v) [ err e ↦ none | ok d ↦ some d ]

-- `_native_count`
unfoldable pub native_count : JsonValue → Option ℤ
native_count (int (pos n)) = if leb n 9223372036854775807 then some (pos n) else none
native_count _ = none

stamp_after : (d : Date) → epoch < d → timestamp d ≡ pos ((d - epoch) * seconds_per_day)
unfolding timestamp
stamp_after d after = ground arith

day_of_stamp : (k : ℕ) → k * seconds_per_day / seconds_per_day ≡ k
day_of_stamp k = omega arith

anchor_day :
    (n k : ℕ)
    → n / seconds_per_day ≡ k
    → 0 < n
    → epoch + k ≤ max_ordinal
    → anchor_of_value (int (pos n)) ≡ ok (epoch + k)
unfolding anchor_of_value date_after_epoch
anchor_day n k e positive bound = rw (← e) (ground arith)

from_ts_ok : (v : JsonValue) (d : Date) → anchor_of_value v ≡ ok d → from_ts v ≡ some d
unfolding from_ts
from_ts_ok v d e = rw (e, from_ts) refl

-- The time stamp of a day after the epoch, up to the last date of the calendar, is read back as that
-- day.
pub from_ts-timestamp :
    (d : Date) → epoch < d → d ≤ max_ordinal → from_ts (int (timestamp d)) ≡ some d
from_ts-timestamp d after before =
    let k = d - epoch in
    let read = anchor_day (k * seconds_per_day) k (day_of_stamp k) (omega arith) (omega arith) in
    let is : epoch + k ≡ d = omega arith in
    rw (stamp_after d after)
      (from_ts_ok (int (pos (k * seconds_per_day))) (epoch + k) read ∙ ap some is)
