-- ===== src/Recurrence/Offsets/Default.antt =====
-- `_offsets_for_unit` on an anchor, against `_validate_offsets`.
use things3_orchestrator.Prelude.{
  pos, ok, ◌+◌, ◌-◌, ◌%◌, ◌≡◌, refl, ◌≢◌, inl, List, [], ◌∷◌, map, arith,
}
use things3_orchestrator.Json.{int, dict, Fields, empty, field, get}
use things3_orchestrator.Calendar.{Date, weekday, month, day, month_and_day_bounds}
use things3_orchestrator.Recurrence.Types.{RepeatUnit}
use things3_orchestrator.Recurrence.Rule.{anchor_offsets}
use things3_orchestrator.Recurrence.Offsets.{validate_offsets}
use things3_orchestrator.Recurrence.Offsets.Accepts.{validate_offsets_iff}

-- For a weekly, monthly or yearly rule the dates taken from the anchor are dicts that pass the
-- validation of selected dates for that unit.
pub anchor_offsets_valid :
    (unit : RepeatUnit) (anchor : Date)
    → unit ≢ RepeatUnit.day
    → (offsets : List Fields) × (anchor_offsets unit anchor ≡ map dict offsets)
      × (validate_offsets unit offsets ≡ ok tt)
unfolding anchor_offsets get
anchor_offsets_valid RepeatUnit.day anchor h = absurd (h refl)
anchor_offsets_valid RepeatUnit.week anchor h = (
  field "wd" (int (pos ((weekday anchor + 1) % 7))) empty ∷ [],
  refl,
  (validate_offsets_iff RepeatUnit.week _).1
      ((λ e. cc), (λ e. cc), ((omega arith, refl, refl, refl), tt)),
)
anchor_offsets_valid RepeatUnit.month anchor h = (
  field "dy" (int (pos (day anchor - 1))) empty ∷ [],
  refl,
  (validate_offsets_iff RepeatUnit.month _).1
      ((λ e. cc), (λ e. cc), ((refl, inl (omega (arith, month_and_day_bounds anchor), refl)), tt)),
)
anchor_offsets_valid RepeatUnit.year anchor h = (
  field "dy" (int (pos (day anchor - 1))) (field "mo" (int (pos (month anchor - 1))) empty) ∷ [],
  refl,
  (validate_offsets_iff RepeatUnit.year _).1 (
    (λ e. cc),
    (λ e. cc),
    (
      (
        omega (arith, month_and_day_bounds anchor),
        inl (omega (arith, month_and_day_bounds anchor), refl),
      ),
      tt,
    ),
  ),
)
