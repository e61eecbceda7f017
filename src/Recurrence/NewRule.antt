-- ===== src/Recurrence/NewRule.antt =====
-- `new_rule`: the whole Cloud rule of a new repeat template. Its arguments have the types of the
-- source's signature, so no type test is made.
pub mod RoundTrip
use things3_orchestrator.Prelude.{
  ltb, ℤ, pos, negsuc, leb_ℤ, ok, err, ◌>>◌, raise_if, ℕ, Bool, true, false, not, ◌&&◌, Option,
  none, some, List, [], ◌∷◌, map,
}
use things3_orchestrator.Json.{JsonValue, int, list, dict, Fields, empty, field, items}
use things3_orchestrator.Calendar.{Date, timestamp}
use things3_orchestrator.Recurrence.Types.{
  RepeatUnit, RepeatMode, bad_interval, bad_weekdays, two_representations, end_needs_fixed,
  end_before_start, weekdays_need_week, Checked, unit_code, mode_code, is_fixed, unit_eq,
}
use things3_orchestrator.Recurrence.Rule.{max_interval, never, weekday_offsets, anchor_offsets}
use things3_orchestrator.Recurrence.Offsets.{codes_of, distinct}

pub record RuleRequest : Type 0 where
  pub mode : RepeatMode
  pub unit : RepeatUnit
  pub interval : ℤ
  pub anchor : Date
  pub weekday_codes : Option (List ℤ)
  pub offsets : Option (List Fields)
  pub until : Option Date

-- `list(weekday_codes or [])`
abbrev pub codes_or_none : Option (List ℤ) → List ℤ
codes_or_none none = []
codes_or_none (some codes) = codes

abbrev pub is_empty : {A : Type 0} → List A → Bool
is_empty [] = true
is_empty (x ∷ xs) = false

abbrev pub is_given : {A : Type 0} → Option A → Bool
is_given none = false
is_given (some x) = true

abbrev pub ends_before : Option Date → Date → Bool
ends_before none anchor = false
ends_before (some until) anchor = ltb until anchor

check_codes : Option (List ℕ) → Checked (Unit {0})
check_codes none = err bad_weekdays
check_codes (some ns) = raise_if (not (distinct ns)) bad_weekdays

unfoldable pub selected_offsets :
    RepeatMode → RepeatUnit → Date → List ℤ → Option (List Fields) → List JsonValue
unfolding weekday_offsets anchor_offsets
selected_offsets RepeatMode.after_completion unit anchor codes offsets = []
selected_offsets RepeatMode.fixed unit anchor codes (some offsets) = map dict offsets
selected_offsets RepeatMode.fixed RepeatUnit.week anchor (code ∷ codes) none =
    weekday_offsets (code ∷ codes)
selected_offsets RepeatMode.fixed unit anchor codes none = anchor_offsets unit anchor

-- `_day_timestamp(until) if until is not None else _NEVER`
abbrev pub end_stamp : Option Date → ℤ
end_stamp none = never
end_stamp (some until) = timestamp until

-- -7 for a yearly rule
abbrev pub start_shift : RepeatUnit → ℤ
start_shift RepeatUnit.year = negsuc 6
start_shift _ = pos 0

unfoldable pub built_rule : RuleRequest → Fields
unfolding selected_offsets
built_rule r =
    let stamp = timestamp r.anchor in
    let selected =
      selected_offsets r.mode r.unit r.anchor (codes_or_none r.weekday_codes) r.offsets in
    field "tp" (int (pos (mode_code r.mode))) (
      field "fu" (int (pos (unit_code r.unit))) (
        field "fa" (int r.interval) (
          field "of" (list (items selected)) (
            field "sr" (int stamp) (
              field "ia" (int stamp) (
                field "ed" (int (end_stamp r.until)) (
                  field "rc" (int (pos 0))
                    (field "ts" (int (start_shift r.unit)) (field "rrv" (int (pos 4)) empty)))))))))

unfoldable pub new_rule : RuleRequest → Checked Fields
unfolding check_codes
new_rule r = do
  let codes = codes_or_none r.weekday_codes
  raise_if (not (leb_ℤ (pos 1) r.interval && leb_ℤ r.interval (pos max_interval))) bad_interval
  raise_if (ends_before r.until r.anchor) end_before_start
  raise_if (not (is_fixed r.mode) && is_given r.until) end_needs_fixed
  raise_if (not (is_empty codes) && not (unit_eq r.unit RepeatUnit.week)) weekdays_need_week
  check_codes (codes_of (map int codes))
  raise_if (is_given r.offsets && is_given r.weekday_codes) two_representations
  ok (built_rule r)
