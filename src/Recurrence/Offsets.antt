-- ===== src/Recurrence/Offsets.antt =====
-- `_validate_weekday_codes`, `_validate_offsets` and `_offsets_for_unit`. Values that a caller hands
-- over are dynamic, so the type tests of the source are made.
pub mod Accepts
pub mod Default
use things3_orchestrator.Calendar.{weekday, month, day}
use things3_orchestrator.Prelude.{
  leb, nat_eq, if◌then◌else◌, bool_eq, pos, negsuc, ok, err, ◌>>=◌, ◌>>◌, raise_if, ℕ, Bool, true,
  false, not, ◌&&◌, ◌||◌, Option, none, some, List, [], ◌∷◌, map,
}
use things3_orchestrator.Json.{
  JsonValue, null, int, list, dict, Fields, empty, field, get, has_key, equals_int,
}
use things3_orchestrator.Recurrence.Types.{
  RepeatUnit, bad_weekdays, weekdays_need_week, no_offsets, daily_offsets, weekly_offset_shape,
  monthly_names_month, yearly_needs_month, day_or_weekday, day_out_of_range, weekday_out_of_range,
  bad_ordinal, unhashable, Checked, unit_eq,
}
use things3_orchestrator.Recurrence.Rule.{repeat_anchor, anchor_offsets}

unfoldable pub is_none : JsonValue → Bool
is_none null = true
is_none _ = false

-- `isinstance(value, int) and not isinstance(value, bool)`
unfoldable pub is_int : JsonValue → Bool
is_int (int n) = true
is_int _ = false

-- such an int, from -1 or 0 up to `top`
unfoldable pub int_upto : ℕ → JsonValue → Bool
int_upto top (int (pos n)) = leb n top
int_upto top _ = false

unfoldable pub int_from_minus_one : ℕ → JsonValue → Bool
int_from_minus_one top (int (negsuc n)) = leb n 0
int_from_minus_one top v = int_upto top v

-- a weekday code: an int from 0 through 6 that is no bool
unfoldable pub code_of : JsonValue → Option ℕ
code_of (int (pos n)) = if leb n 6 then some n else none
code_of _ = none

unfoldable pub codes_of : List JsonValue → Option (List ℕ)
unfolding code_of
codes_of [] = some []
codes_of (v ∷ vs) = elim (code_of v) [
  | none ↦ none
  | some n ↦ elim (codes_of vs) [ none ↦ none | some ns ↦ some (n ∷ ns) ]
]

unfoldable pub occurs : ℕ → List ℕ → Bool
occurs n [] = false
occurs n (m ∷ ms) = nat_eq n m || occurs n ms

-- `len(codes) == len(set(codes))`
unfoldable pub distinct : List ℕ → Bool
unfolding occurs
distinct [] = true
distinct (n ∷ ns) = not (occurs n ns) && distinct ns

distinct_codes : Option (List ℕ) → Checked (Unit {0})
unfolding distinct
distinct_codes none = err bad_weekdays
distinct_codes (some ns) = raise_if (not (distinct ns)) bad_weekdays

unfoldable pub validate_weekday_codes : Option (List JsonValue) → Checked (Unit {0})
unfolding distinct_codes codes_of
validate_weekday_codes none = ok tt
validate_weekday_codes (some []) = err bad_weekdays
validate_weekday_codes (some codes) = distinct_codes (codes_of codes)

-- `ordinal not in {-1, 1, 2, 3, 4, 5}`, which hashes its left side
unfoldable pub check_ordinal : JsonValue → Checked (Unit {0})
unfolding equals_int
check_ordinal (list _) = err unhashable
check_ordinal (dict _) = err unhashable
check_ordinal v =
    raise_if
      (not (
        equals_int v (negsuc 0)
        || equals_int v (pos 1)
        || equals_int v (pos 2)
        || equals_int v (pos 3)
        || equals_int v (pos 4)
        || equals_int v (pos 5)))
      bad_ordinal

abbrev pub monthly_or_yearly : RepeatUnit → Bool
monthly_or_yearly RepeatUnit.month = true
monthly_or_yearly RepeatUnit.year = true
monthly_or_yearly _ = false

unfoldable pub check_offset :
    RepeatUnit → JsonValue → JsonValue → JsonValue → JsonValue → Checked (Unit {0})
check_offset unit month day weekday ordinal = do
  raise_if
      (unit_eq unit RepeatUnit.week
        && (not (is_int weekday)
            || not (is_none month)
            || not (is_none day)
            || not (is_none ordinal)))
      weekly_offset_shape
  raise_if (unit_eq unit RepeatUnit.month && not (is_none month)) monthly_names_month
  raise_if (unit_eq unit RepeatUnit.year && not (int_upto 11 month)) yearly_needs_month
  raise_if (bool_eq (is_none day) (is_none weekday)) day_or_weekday
  raise_if (not (is_none day) && not (int_from_minus_one 30 day)) day_out_of_range
  raise_if (not (is_none weekday) && not (int_upto 6 weekday)) weekday_out_of_range
  if monthly_or_yearly unit && not (is_none weekday) then check_ordinal ordinal else ok tt

-- one round of the loop of `_validate_offsets`
unfoldable pub validate_offset : RepeatUnit → Fields → Checked (Unit {0})
unfolding check_offset
validate_offset unit offset =
    check_offset unit (get "mo" offset) (get "dy" offset) (get "wd" offset) (get "wdo" offset)

unfoldable pub validate_each : RepeatUnit → List Fields → Checked (Unit {0})
unfolding validate_offset
validate_each unit [] = ok tt
validate_each unit (offset ∷ rest) = validate_offset unit offset >> validate_each unit rest

unfoldable pub validate_offsets : RepeatUnit → List Fields → Checked (Unit {0})
unfolding validate_each
validate_offsets unit [] = err no_offsets
validate_offsets RepeatUnit.day (offset ∷ rest) = err daily_offsets
validate_offsets unit (offset ∷ rest) = validate_each unit (offset ∷ rest)

-- `{"wd": code}` for each code that a caller gave
abbrev pub given_weekdays : List JsonValue → List JsonValue
given_weekdays codes = map (λ code. dict (field "wd" code empty)) codes

require_anchor : Fields → List JsonValue → Checked (List JsonValue)
require_anchor rule codes = do _ ← repeat_anchor rule; ok (given_weekdays codes)

-- With no "sr" the anchor is read all the same where a unit needs it, and that raises.
unfoldable pub offsets_for_unit :
    Fields → RepeatUnit → Option (List JsonValue) → Checked (List JsonValue)
unfolding validate_weekday_codes anchor_offsets repeat_anchor require_anchor
offsets_for_unit rule unit none =
    if has_key "sr" rule
    then (do anchor ← repeat_anchor rule; ok (anchor_offsets unit anchor))
    else if unit_eq unit RepeatUnit.day
    then ok []
    else do anchor ← repeat_anchor rule; ok (anchor_offsets unit anchor)
offsets_for_unit rule unit (some codes) = do
  validate_weekday_codes (some codes)
  raise_if (not (unit_eq unit RepeatUnit.week)) weekdays_need_week
  if has_key "sr" rule then require_anchor rule codes else ok (given_weekdays codes)
