-- ===== src/Recurrence/Transition/Inversion.antt =====
-- What a call of `transition` that returned has gone through.
use things3_orchestrator.Prelude.{
  if◌then◌else◌, ok, >>=-eq-ok, raise_if, ℕ, String, ◌≡◌, Bool, false, not, ◌&&◌, Option, some,
  List, arith,
}
use things3_orchestrator.Json.{JsonValue, Fields}
use things3_orchestrator.Recurrence.Types.{
  RepeatUnit, RepeatMode, RecurrenceState, Error, remove_with_changes, nothing_to_change,
  unsupported_mode, unsupported_unit, unsupported_interval, type_of_mode, mode_of_type,
}
use things3_orchestrator.Recurrence.Rule.{repeat_unit, repeat_interval}
use things3_orchestrator.Recurrence.Transition.{
  Change, Edit, validate_interval_template, changes_rule, require, check_change, or_else,
  check_edit, new_offsets, changed_rule, edit_rule, transition,
}

-- The steps of an edit, with what each of them gave.
pub record Applied (kind : String) (c : Change) (s s' : RecurrenceState) : Type 0 where
  pub rule : Fields
  pub mode : RepeatMode
  pub unit : RepeatUnit
  pub interval : ℕ
  pub edit : Edit
  pub offsets : Option (List JsonValue)
  pub valid : validate_interval_template kind s ≡ ok rule
  pub edit_is : check_change c ≡ ok edit
  pub mode_is : mode_of_type s.repeat_type ≡ some mode
  pub unit_is : repeat_unit (some rule) ≡ some unit
  pub interval_is : repeat_interval (some rule) ≡ some interval
  pub edit_fits : check_edit rule (or_else edit.mode mode) (or_else edit.unit unit) edit ≡ ok tt
  pub offsets_are :
      new_offsets rule mode unit (or_else edit.mode mode) (or_else edit.unit unit) edit ≡ ok offsets
  pub result : s' ≡ record s {
    repeat_type = type_of_mode (or_else edit.mode mode);
    rule = some (changed_rule rule unit (or_else edit.unit unit) offsets edit);
  }

require-eq-ok : {A : Type 0} (o : Option A) (e : Error) {a : A} → require o e ≡ ok a → o ≡ some a
unfolding require
require-eq-ok o e h = ground arith

if_false : {A : Type 0} (b : Bool) (x y : A) {r : A} → b ≡ false → (if b then x else y) ≡ r → y ≡ r
if_false b x y keep h = ground arith

-- The second half of the call, once the arguments are read.
edit-Applied :
    (kind : String) (c : Change) (s : RecurrenceState) {s' : RecurrenceState} (rule : Fields)
    (mode : RepeatMode) (unit : RepeatUnit) (interval : ℕ) (edit : Edit)
    → validate_interval_template kind s ≡ ok rule
    → check_change c ≡ ok edit
    → mode_of_type s.repeat_type ≡ some mode
    → repeat_unit (some rule) ≡ some unit
    → repeat_interval (some rule) ≡ some interval
    → edit_rule s rule mode unit edit ≡ ok s'
    → Applied kind c s s'
unfolding edit_rule
edit-Applied kind c s rule mode unit interval edit valid edit_is mode_is unit_is interval_is h =
    let (done, edit_fits, h1) =
      >>=-eq-ok (check_edit rule (or_else edit.mode mode) (or_else edit.unit unit) edit) _ h in
    let (offsets, offsets_are, h2) =
      >>=-eq-ok (new_offsets rule mode unit (or_else edit.mode mode) (or_else edit.unit unit) edit)
        _ h1 in
    record {
      rule = rule;
      mode = mode;
      unit = unit;
      interval = interval;
      edit = edit;
      offsets = offsets;
      valid = valid;
      edit_is = edit_is;
      mode_is = mode_is;
      unit_is = unit_is;
      interval_is = interval_is;
      edit_fits = edit_fits;
      offsets_are = offsets_are;
      result = cc h2;
    }

pub transition-Applied :
    (kind : String) (c : Change) (s : RecurrenceState) {s' : RecurrenceState}
    → c.remove ≡ false
    → transition kind c s ≡ ok s'
    → Applied kind c s s'
unfolding transition
transition-Applied kind c s keep h =
    let (rule, valid, h1) = >>=-eq-ok (validate_interval_template kind s) _ h in
    let (_, _, h2) = >>=-eq-ok (raise_if (c.remove && changes_rule c) remove_with_changes) _ h1 in
    let (_, _, h3) =
      >>=-eq-ok
        (raise_if (not c.remove && (not (changes_rule c) && not c.until_set)) nothing_to_change) _
        h2 in
    let (edit, edit_is, h4) = >>=-eq-ok (check_change c) _ h3 in
    let (mode, mode_is, h5) =
      >>=-eq-ok (require (mode_of_type s.repeat_type) unsupported_mode) _ h4 in
    let (unit, unit_is, h6) = >>=-eq-ok (require (repeat_unit (some rule)) unsupported_unit) _ h5 in
    let (interval, interval_is, h7) =
      >>=-eq-ok (require (repeat_interval (some rule)) unsupported_interval) _ h6 in
    edit-Applied kind c s rule mode unit interval edit valid edit_is (require-eq-ok _ _ mode_is)
      (require-eq-ok _ _ unit_is) (require-eq-ok _ _ interval_is) (if_false c.remove _ _ keep h7)
