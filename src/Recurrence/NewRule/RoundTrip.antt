-- ===== src/Recurrence/NewRule/RoundTrip.antt =====
-- What is read back from a rule that `new_rule` built.
use things3_orchestrator.Recurrence.Offsets.{codes_of}
use mathlib.Core.Path.{subst}
use things3_orchestrator.Prelude.{
  Option-cases, ℤ, pos, negsuc, leb_ℤ, ok, ℕ, ◌-◌, ◌*◌, ◌≤◌, ◌<◌, ◌≡◌, refl, sym, inl, inr, true,
  ◌&&◌, none, some, List, [], ◌∷◌, map, arith,
}
use things3_orchestrator.Json.{int, dict, Fields, empty, field, get, has_key, items}
use things3_orchestrator.Calendar.{Date, epoch, max_ordinal, seconds_per_day, timestamp}
use things3_orchestrator.Recurrence.Types.{
  RepeatUnit, RepeatMode, RecurrenceState, unit_code, unit_of_code, mode_code, type_of_mode,
}
use things3_orchestrator.Recurrence.Rule.{
  max_interval, repeat_unit, interval_of_value, repeat_interval, repeat_anchor, weekday_offsets,
}
use things3_orchestrator.Recurrence.Fold.{
  type_of_code, fold_rule, selected_codes, rule_weekday_codes,
}
use things3_orchestrator.Recurrence.NewRule.{RuleRequest, codes_or_none, built_rule, new_rule}

unit_read : (u : RepeatUnit) → unit_of_code (pos (unit_code u)) ≡ some u
unfolding unit_of_code
unit_read RepeatUnit.day = refl
unit_read RepeatUnit.week = refl
unit_read RepeatUnit.month = refl
unit_read RepeatUnit.year = refl

mode_read : (m : RepeatMode) → type_of_code (int (pos (mode_code m))) ≡ type_of_mode m
unfolding type_of_code
mode_read RepeatMode.fixed = refl
mode_read RepeatMode.after_completion = refl

-- A built rule came from an interval in range and is the rule of the request.
record Built (r : RuleRequest) (rule : Fields) : Type 0 where
  interval : ℕ
  positive : 1 ≤ interval
  bounded : interval ≤ max_interval
  interval_is : r.interval ≡ pos interval
  rule_is : rule ≡ built_rule r

in_range :
    (i : ℤ)
    → (leb_ℤ (pos 1) i && leb_ℤ i (pos max_interval)) ≡ true
    → (n : ℕ) × (i ≡ pos n) × (1 ≤ n) × (n ≤ max_interval)
in_range (pos n) h = (n, refl, ground arith, ground arith)
in_range (negsuc n) h = absurd (ground arith)

new_rule-Built : (r : RuleRequest) {rule : Fields} → new_rule r ≡ ok rule → Built r rule
unfolding new_rule
new_rule-Built r h =
    let (n, is, low, high) = in_range r.interval (ground arith) in
    record {
      interval = n;
      positive = low;
      bounded = high;
      interval_is = is;
      rule_is = ground arith;
    }

interval_read : (n : ℕ) → 1 ≤ n → n ≤ max_interval → interval_of_value (int (pos n)) ≡ some n
unfolding interval_of_value
interval_read n low high = ground arith

anchor_read :
    (d : Date)
    → epoch < d
    → d ≤ max_ordinal
    → repeat_anchor (field "sr" (int (timestamp d)) empty) ≡ ok d
unfolding repeat_anchor timestamp get
anchor_read d late early =
    let on_time : timestamp d ≡ pos ((d - epoch) * seconds_per_day) = ground arith in
    rw on_time (ground arith)

-- What can be read from a template that folds the rule.
abbrev ReadsBack : RuleRequest → RecurrenceState → Fields → Type 0
ReadsBack r s rule =
    (n : ℕ) × (r.interval ≡ pos n)
    × (repeat_interval (some rule) ≡ some n)
    × (repeat_unit (some rule) ≡ some r.unit)
    × ((fold_rule (dict rule) s).repeat_type ≡ type_of_mode r.mode)
    × ((fold_rule (dict rule) s).rule ≡ some rule)

built-ReadsBack :
    (r : RuleRequest) (s : RecurrenceState) {n : ℕ}
    → r.interval ≡ pos n
    → 1 ≤ n
    → n ≤ max_interval
    → ReadsBack r s (built_rule r)
unfolding built_rule repeat_interval repeat_unit fold_rule get has_key
built-ReadsBack r s {n} is low high =
    (n, is, (rw is (interval_read n low high)), unit_read r.unit, mode_read r.mode, refl)

-- The interval and the unit read from a new rule are those asked for, and a state that folds the
-- rule has the mode asked for and stores the rule.
pub new_rule_reads_back :
    (r : RuleRequest) (s : RecurrenceState) {rule : Fields}
    → new_rule r ≡ ok rule
    → (n : ℕ) × (r.interval ≡ pos n)
      × (repeat_interval (some rule) ≡ some n)
      × (repeat_unit (some rule) ≡ some r.unit)
      × ((fold_rule (dict rule) s).repeat_type ≡ type_of_mode r.mode)
      × ((fold_rule (dict rule) s).rule ≡ some rule)
new_rule_reads_back r s h =
    let b = new_rule-Built r h in
    subst (ReadsBack r s) (sym b.rule_is) (built-ReadsBack r s b.interval_is b.positive b.bounded)

-- The anchor read from a new rule is the date that was given, for a date after 1970-01-01.
pub new_rule_anchor :
    (r : RuleRequest) {rule : Fields}
    → epoch < r.anchor
    → r.anchor ≤ max_ordinal
    → new_rule r ≡ ok rule
    → repeat_anchor rule ≡ ok r.anchor
unfolding built_rule repeat_anchor get
new_rule_anchor r late early h =
    subst (λ d. repeat_anchor d ≡ ok r.anchor) (sym (new_rule-Built r h).rule_is)
      (anchor_read r.anchor late early)

-- The weekday codes of a weekly fixed request, read back through `weekday_codes`.
selected_weekdays :
    (codes : List ℤ) {ns : List ℕ}
    → codes_of (map int codes) ≡ some ns
    → selected_codes (items (weekday_offsets codes)) ≡ some ns
unfolding codes_of weekday_offsets items rule_weekday_codes get
selected_weekdays [] h = h
selected_weekdays (pos n ∷ cs) {ns} h = elim (Option-cases (codes_of (map int cs))) [
  | inl bad ↦ ground arith
  | inr (ms, e) ↦ ground (arith, selected_weekdays cs e)
]
selected_weekdays (negsuc n ∷ cs) h = cc

codes_of_ints :
    (codes : List ℤ) {ns : List ℕ} → codes_of (map int codes) ≡ some ns → map pos ns ≡ codes
unfolding codes_of
codes_of_ints [] h = ground arith
codes_of_ints (pos n ∷ cs) {ns} h = elim (Option-cases (codes_of (map int cs))) [
  | inl bad ↦ absurd (ground arith)
  | inr (ms, e) ↦ ground (arith, codes_of_ints cs e)
]
codes_of_ints (negsuc n ∷ cs) h = cc

checked_codes :
    (r : RuleRequest) {rule : Fields}
    → new_rule r ≡ ok rule
    → (ns : List ℕ) × (codes_of (map int (codes_or_none r.weekday_codes)) ≡ some ns)
unfolding new_rule
checked_codes r h = elim (Option-cases (codes_of (map int (codes_or_none r.weekday_codes)))) [
  | inl bad ↦ absurd (ground arith)
  | inr found ↦ found
]

built_weekdays :
    (r : RuleRequest) (c : ℤ) (cs : List ℤ) {ns : List ℕ}
    → r.mode ≡ RepeatMode.fixed
    → r.unit ≡ RepeatUnit.week
    → r.offsets ≡ none
    → r.weekday_codes ≡ some (c ∷ cs)
    → selected_codes (items (weekday_offsets (c ∷ cs))) ≡ some ns
    → rule_weekday_codes (some (built_rule r)) ≡ ns
unfolding rule_weekday_codes built_rule get repeat_unit unit_of_code
built_weekdays r c cs m u o w h = ground arith

one_representation :
    (r : RuleRequest) {rule : Fields} (c : ℤ) (cs : List ℤ)
    → r.weekday_codes ≡ some (c ∷ cs)
    → new_rule r ≡ ok rule
    → r.offsets ≡ none
unfolding new_rule
one_representation r c cs given h = ground arith

-- The weekday codes read from a new fixed weekly rule are the codes that were given, in order.
pub new_rule_weekdays :
    (r : RuleRequest) (c : ℤ) (cs : List ℤ) {rule : Fields}
    → r.mode ≡ RepeatMode.fixed
    → r.unit ≡ RepeatUnit.week
    → r.weekday_codes ≡ some (c ∷ cs)
    → new_rule r ≡ ok rule
    → map pos (rule_weekday_codes (some rule)) ≡ c ∷ cs
new_rule_weekdays r c cs m u w h =
    let (ns, found) = checked_codes r h in
    let e = subst (λ o. codes_of (map int (codes_or_none o)) ≡ some ns) w found in
    rw
      (
        (new_rule-Built r h).rule_is,
        built_weekdays r c cs m u (one_representation r c cs w h) w (selected_weekdays (c ∷ cs) e),
      )
      (codes_of_ints (c ∷ cs) e)
