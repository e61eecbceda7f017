-- ===== src/Cloud/Reminder.antt =====
-- `_native_datetime`, `_native_reminder`, and `remind_from_offset` and `offset_from_remind` of
-- library.py. A moment is a number of microseconds after the epoch.
use things3_orchestrator.Prelude.{
  ltb, leb, nat_eq, if◌then◌else◌, pos, is_colon, partition_colon, read_digits, digits, ℕ, ◌+◌, ◌-◌,
  ◌*◌, ◌/◌, ◌%◌, String, ◌≡◌, refl, ◌&&◌, Option, none, some,
}
use things3_orchestrator.Json.{finite, float_unit, JsonValue, int, float}
use things3_orchestrator.Calendar.{epoch, max_ordinal, seconds_per_day}
use Prim.Native.String.{◌++◌}

-- the nearest microsecond, the even one of two, of a number of float units
micros : ℕ → ℕ
unfolding float_unit
micros n =
    let whole = n * 1000000 / float_unit in
    let rest = 2 * (n * 1000000 % float_unit) in
    if ltb rest float_unit
    then whole
    else if ltb float_unit rest
    then whole + 1
    else whole + whole % 2

-- a moment up to the end of year 9999
moment : ℕ → Option ℕ
moment n = if ltb n ((max_ordinal + 1 - epoch) * seconds_per_day * 1000000) then some n else none

-- `_native_datetime`
unfoldable pub native_datetime : JsonValue → Option ℕ
unfolding micros moment
native_datetime (int (pos n)) = if leb n 0 then none else moment (n * 1000000)
native_datetime (float (finite (pos n))) = if leb n 0 then none else moment (micros n)
native_datetime _ = none

digit : ℕ → String
digit n =
    if nat_eq n 0
    then "0"
    else if nat_eq n 1
    then "1"
    else if nat_eq n 2
    then "2"
    else if nat_eq n 3
    then "3"
    else if nat_eq n 4
    then "4"
    else if nat_eq n 5
    then "5"
    else if nat_eq n 6
    then "6"
    else if nat_eq n 7
    then "7"
    else if nat_eq n 8
    then "8"
    else "9"

-- `f"{n:02d}"` below 100
two_digits : ℕ → String
unfolding digit
two_digits n = digit (n / 10) ++ digit (n % 10)

-- `remind_from_offset` below a day
unfoldable pub remind_from_offset : ℕ → String
unfolding two_digits
remind_from_offset seconds =
    two_digits (seconds / 3600) ++ (":" ++ two_digits (seconds % 3600 / 60))

-- `_native_reminder`
unfoldable pub native_reminder : JsonValue → Option String
unfolding remind_from_offset
native_reminder (int (pos n)) =
    if ltb n 86400 && nat_eq (n % 60) 0 then some (remind_from_offset n) else none
native_reminder _ = none

add_minutes : Option ℕ → Option ℕ → Option ℕ
add_minutes (some h) (some m) = some (h * 3600 + m * 60)
add_minutes _ _ = none

-- `offset_from_remind`; `none` where it raises
unfoldable pub offset_from_remind : String → Option ℕ
unfolding digits add_minutes partition_colon
offset_from_remind value =
    let parts = partition_colon value in add_minutes (digits parts.0) (digits parts.1)

half_past_nine : offset_from_remind "09:30" ≡ some 34200
unfolding offset_from_remind digits add_minutes partition_colon read_digits is_colon
half_past_nine = refl

nine_thirty : native_reminder (int (pos 34200)) ≡ some "09:30"
unfolding native_reminder remind_from_offset two_digits digit
nine_thirty = refl
