-- ===== src/Recurrence/Transition/Effect.antt =====
-- What an edit by `transition` changes of a template, and what it leaves alone.
use things3_orchestrator.Recurrence.Transition.Inversion.{Applied, transition-Applied}
use things3_orchestrator.Recurrence.Transition.Keys.{
  IsOpaque, get-changed_rule_opaque, unit-changed_rule, interval-changed_rule,
}
use things3_orchestrator.Prelude.{
  pos, negsuc, ok, ℕ, String, ◌==◌, ◌≡◌, refl, true, false, ◌||◌, Option, none, some, [], arith,
}
use things3_orchestrator.Json.{JsonValue, int, Fields, get}
use things3_orchestrator.Recurrence.Types.{
  RepeatUnit, RepeatMode, Role, RecurrenceState, Error, bad_interval, bad_mode, bad_unit,
  unit_of_name, mode_of_name, type_of_mode, mode_of_type,
}
use things3_orchestrator.Recurrence.Rule.{repeat_unit, interval_of_value, repeat_interval}
use things3_orchestrator.Recurrence.Transition.{
  Change, Edit, validate_interval_template, checked, check_change, or_else, changed_rule,
  transition,
}

-- `new` is what an optional argument asks for, or the old value where it is left out.
abbrev pub Takes : {A B : Type 0} → (A → Option B) → Option A → B → B → Type 0
Takes test none old new = new ≡ old
Takes test (some a) old new = test a ≡ some new

-- A template by its rule, the rule's mode, unit and interval.
pub record Reads (kind : String) (s : RecurrenceState) (rule : Fields) (mode : RepeatMode)
    (unit : RepeatUnit) (interval : ℕ) : Type 0 where
  pub valid : validate_interval_template kind s ≡ ok rule
  pub stored : s.rule ≡ some rule
  pub mode_is : mode_of_type s.repeat_type ≡ some mode
  pub unit_is : repeat_unit (some rule) ≡ some unit
  pub interval_is : repeat_interval (some rule) ≡ some interval

-- The template before and after an edit: each of the three takes the value asked for, and the
-- other fields of the state are those of before.
pub record Edited (kind : String) (c : Change) (s s' : RecurrenceState) : Type 0 where
  pub rule : Fields
  pub rule' : Fields
  pub mode : RepeatMode
  pub mode' : RepeatMode
  pub unit : RepeatUnit
  pub unit' : RepeatUnit
  pub interval : ℕ
  pub interval' : ℕ
  pub before : Reads kind s rule mode unit interval
  pub after : Reads kind s' rule' mode' unit' interval'
  pub mode_taken : Takes mode_of_name c.mode mode mode'
  pub unit_taken : Takes unit_of_name c.unit unit unit'
  pub interval_taken : Takes interval_of_value c.interval interval interval'
  pub same_links : s'.links ≡ s.links
  pub same_paused : s'.paused ≡ s.paused
  pub same_template : s'.template_uuid ≡ s.template_uuid

checked-Takes :
    {A B : Type 0} (test : A → Option B) (e : Error) (o : Option A) (o' : Option B) (old : B)
    → checked test e o ≡ ok o'
    → Takes test o old (or_else o' old)
unfolding checked
checked-Takes test e none o' old h = ground arith
checked-Takes test e (some a) o' old h = ground arith

interval_fits :
    (v : JsonValue) (n : ℕ)
    → interval_of_value v ≡ some n
    → interval_of_value (int (pos n)) ≡ some n
unfolding interval_of_value
interval_fits (int (pos m)) n h = ground arith
interval_fits (int (negsuc m)) n h = ground arith
interval_fits v n h = ground arith

abbrev IntervalOr : Option JsonValue → ℕ → Option ℕ → Type 0
IntervalOr o n o' = interval_of_value (int (pos (or_else o' n))) ≡ some (or_else o' n)

IntervalOr-fits :
    (o : Option JsonValue) (o' : Option ℕ) (v : JsonValue) (n : ℕ)
    → checked interval_of_value bad_interval o ≡ ok o'
    → interval_of_value v ≡ some n
    → IntervalOr o n o'
unfolding checked
IntervalOr-fits none o' v n h old = ground (arith, interval_fits v n old)
IntervalOr-fits (some w) none v n h old = ground (arith, interval_fits v n old)
IntervalOr-fits (some w) (some k) v n h old = interval_fits w k (ground arith)

-- The rule that a validated state stores.
valid-stored :
    (kind : String) (s : RecurrenceState) {rule : Fields}
    → validate_interval_template kind s ≡ ok rule
    → (s.rule ≡ some rule)
      × (s.links ≡ [])
      × (s.role ≡ Role.template)
      × ((kind == "task" || kind == "project") ≡ true)
unfolding validate_interval_template
valid-stored kind s h = ground arith

record ChangeChecked (c : Change) (e : Edit) : Type 0 where
  interval_is : checked interval_of_value bad_interval c.interval ≡ ok e.interval
  mode_is : checked mode_of_name bad_mode c.mode ≡ ok e.mode
  unit_is : checked unit_of_name bad_unit c.unit ≡ ok e.unit

check_change_inv : (c : Change) (e : Edit) → check_change c ≡ ok e → ChangeChecked c e
unfolding check_change
check_change_inv c e h = ground arith

edited_valid :
    (kind : String) (s : RecurrenceState) (m : RepeatMode) (rule : Fields)
    → (kind == "task" || kind == "project") ≡ true
    → s.role ≡ Role.template
    → s.links ≡ []
    → validate_interval_template kind (record s { repeat_type = type_of_mode m; rule = some rule })
      ≡ ok rule
unfolding validate_interval_template
edited_valid kind s RepeatMode.fixed rule hk hr hl = ground arith
edited_valid kind s RepeatMode.after_completion rule hk hr hl = ground arith

mode_of_type_of_mode : (m : RepeatMode) → mode_of_type (type_of_mode m) ≡ some m
mode_of_type_of_mode RepeatMode.fixed = refl
mode_of_type_of_mode RepeatMode.after_completion = refl

module _ (kind : String) (c : Change) (s : RecurrenceState) where
  Applied-Edited : {s' : RecurrenceState} → Applied kind c s s' → Edited kind c s s'
  Applied-Edited {s'} a =
      let ch = check_change_inv c a.edit a.edit_is in
      let (stored, links, role, known) = valid-stored kind s a.valid in
      let rule' = changed_rule a.rule a.unit (or_else a.edit.unit a.unit) a.offsets a.edit in
      let mode' = or_else a.edit.mode a.mode in
      record {
        rule = a.rule;
        rule' = rule';
        mode = a.mode;
        mode' = mode';
        unit = a.unit;
        unit' = or_else a.edit.unit a.unit;
        interval = a.interval;
        interval' = or_else a.edit.interval a.interval;
        before = record {
          valid = a.valid;
          stored = stored;
          mode_is = a.mode_is;
          unit_is = a.unit_is;
          interval_is = a.interval_is;
        };
        after = record {
          valid = rw a.result (edited_valid kind s mode' rule' known role links);
          stored = rw a.result;
          mode_is = rw a.result (mode_of_type_of_mode mode');
          unit_is =
              unit-changed_rule a.rule a.unit (or_else a.edit.unit a.unit) a.offsets a.edit
                a.unit_is;
          interval_is =
              interval-changed_rule a.rule a.unit (or_else a.edit.unit a.unit) a.offsets a.edit
                a.interval a.interval_is
                (IntervalOr-fits c.interval a.edit.interval (get "fa" a.rule) a.interval
                  ch.interval_is (unfold repeat_interval in a.interval_is));
        };
        mode_taken = checked-Takes mode_of_name bad_mode c.mode a.edit.mode a.mode ch.mode_is;
        unit_taken = checked-Takes unit_of_name bad_unit c.unit a.edit.unit a.unit ch.unit_is;
        interval_taken =
            checked-Takes interval_of_value bad_interval c.interval a.edit.interval a.interval
              ch.interval_is;
        same_links = rw a.result;
        same_paused = rw a.result;
        same_template = rw a.result;
      }

  -- An edit that is accepted leaves a valid template, whose mode, unit and interval are those asked
  -- for, or those of before where the argument is left out; links, pause and template id stay.
  pub transition-Edited :
      {s' : RecurrenceState} → c.remove ≡ false → transition kind c s ≡ ok s' → Edited kind c s s'
  transition-Edited keep h = Applied-Edited (transition-Applied kind c s keep h)

  -- An edit that is accepted leaves every key of the rule other than "tp", "fu", "fa", "of", "ts",
  -- "ed" and "rc" as it was.
  pub transition_keeps_opaque :
      (k : String) {s' : RecurrenceState}
      → IsOpaque k
      → c.remove ≡ false
      → transition kind c s ≡ ok s'
      → (rule : Fields) × (rule' : Fields) × (s.rule ≡ some rule)
        × (s'.rule ≡ some rule')
        × (get k rule' ≡ get k rule)
  transition_keeps_opaque k hk keep h =
      let a = transition-Applied kind c s keep h in
      let target = or_else a.edit.unit a.unit in
      (
        a.rule,
        changed_rule a.rule a.unit target a.offsets a.edit,
        (valid-stored kind s a.valid).0,
        rw a.result,
        get-changed_rule_opaque a.rule a.unit target a.offsets a.edit k hk,
      )
