-- ===== src/Recurrence/Transition/Keys.antt =====
-- The keys of the rule that an edit writes, one lemma for each stage of `changed_rule`.
use things3_orchestrator.Recurrence.NewRule.{end_stamp, start_shift}
use things3_orchestrator.Prelude.{
  if◌then◌else◌, ℤ, pos, ℕ, String, ◌==◌, ◌≡◌, refl, ◌∙◌, Bool, true, false, Option, none, some,
  List, arith,
}
use things3_orchestrator.Json.{JsonValue, int, list, Fields, get, put, items, get-put}
use things3_orchestrator.Recurrence.Types.{
  RepeatUnit, RepeatMode, unit_code, unit_of_code, mode_code,
}
use things3_orchestrator.Recurrence.Rule.{never, repeat_unit, interval_of_value, repeat_interval}
use things3_orchestrator.Recurrence.Transition.{
  Edit, or_else, put_given, unit_changes, put_shift, put_end, ends_never, changed_rule,
}

-- none of the keys that `transition` may write
abbrev pub IsOpaque : String → Type 0
IsOpaque k =
    (("tp" == k) ≡ false)
    × (("fu" == k) ≡ false)
    × (("fa" == k) ≡ false)
    × (("of" == k) ≡ false)
    × (("ts" == k) ≡ false)
    × (("ed" == k) ≡ false)
    × (("rc" == k) ≡ false)

get-put_ne :
    (k j : String) (v : JsonValue) (d : Fields) → (k == j) ≡ false → get j (put k v d) ≡ get j d
get-put_ne k j v d h = get-put k j v d ∙ (rw h)

get-put_given_ne :
    {A : Type 0} (f : A → JsonValue) (k j : String) (o : Option A) (d : Fields)
    → (k == j) ≡ false
    → get j (put_given f k o d) ≡ get j d
get-put_given_ne f k j none d h = refl
get-put_given_ne f k j (some a) d h = get-put_ne k j (f a) d h

get-put_shift_ne :
    (j : String) (b : Bool) (rule : Fields) (unit : RepeatUnit) (d : Fields)
    → ("ts" == j) ≡ false
    → get j (put_shift b rule unit d) ≡ get j d
unfolding put_shift
get-put_shift_ne j b rule unit d h = ground (arith, get-put_ne "ts" j (int (start_shift unit)) d h)

get-put_end_ne :
    (j : String) (b : Bool) (stamp : ℤ) (d : Fields)
    → ("ed" == j) ≡ false
    → ("rc" == j) ≡ false
    → get j (if b then put_end stamp d else d) ≡ get j d
unfolding put_end
get-put_end_ne j false stamp d h k = refl
get-put_end_ne j true stamp d h k =
    get-put_ne "rc" j (int (pos 0)) (put "ed" (int stamp) d) k ∙ get-put_ne "ed" j (int stamp) d h

unit_of_unit_code : (u : RepeatUnit) → unit_of_code (pos (unit_code u)) ≡ some u
unfolding unit_of_code
unit_of_unit_code RepeatUnit.day = refl
unit_of_unit_code RepeatUnit.week = refl
unit_of_unit_code RepeatUnit.month = refl
unit_of_unit_code RepeatUnit.year = refl

unit_after :
    (o : Option RepeatUnit) (m : Option RepeatMode) (rule : Fields) (unit : RepeatUnit)
    → repeat_unit (some rule) ≡ some unit
    → repeat_unit (
        some (
          put_given
            (λ (u : RepeatUnit). int (pos (unit_code u)))
            "fu"
            o
            (put_given (λ (m : RepeatMode). int (pos (mode_code m))) "tp" m rule)))
      ≡ some (or_else o unit)
unfolding repeat_unit
unit_after none m rule unit h =
    rw (get-put_given_ne (λ (m : RepeatMode). int (pos (mode_code m))) "tp" "fu" m rule refl) h
unit_after (some u) m rule unit h = rw get-put (unit_of_unit_code u)

interval_after :
    (o : Option ℕ) (d : Fields) (n : ℕ)
    → interval_of_value (int (pos (or_else o n))) ≡ some (or_else o n)
    → repeat_interval (some d) ≡ some n
    → repeat_interval (some (put_given (λ (n : ℕ). int (pos n)) "fa" o d)) ≡ some (or_else o n)
unfolding repeat_interval
interval_after none d n fits h = h
interval_after (some k) d n fits h = rw get-put fits

module _ (rule : Fields) (unit target : RepeatUnit) (offsets : Option (List JsonValue))
    (e : Edit) where
  abbrev typed : Fields
  typed = put_given (λ (m : RepeatMode). int (pos (mode_code m))) "tp" e.mode rule

  abbrev united : Fields
  united = put_given (λ (u : RepeatUnit). int (pos (unit_code u))) "fu" e.unit typed

  abbrev spaced : Fields
  spaced = put_given (λ (n : ℕ). int (pos n)) "fa" e.interval united

  abbrev dated : Fields
  dated = put_given (λ (vs : List JsonValue). list (items vs)) "of" offsets spaced

  -- The last three stages write "ts", "ed" and "rc" alone.
  get-tail :
      (k : String)
      → ("ts" == k) ≡ false
      → ("ed" == k) ≡ false
      → ("rc" == k) ≡ false
      → get k (changed_rule rule unit target offsets e) ≡ get k dated
  unfolding changed_rule
  get-tail k ts ed rc =
      let shifted = put_shift (unit_changes e.unit unit) rule target dated in
      get-put_end_ne k e.until_set (end_stamp e.until)
        (if ends_never e.mode then put_end never shifted else shifted) ed rc
      ∙ get-put_end_ne k (ends_never e.mode) never shifted ed rc
      ∙ get-put_shift_ne k (unit_changes e.unit unit) rule target dated ts

  pub get-changed_rule_opaque :
      (k : String) → IsOpaque k → get k (changed_rule rule unit target offsets e) ≡ get k rule
  get-changed_rule_opaque k (tp, fu, fa, of, ts, ed, rc) =
      get-tail k ts ed rc
      ∙ get-put_given_ne _ "of" k offsets spaced of
      ∙ get-put_given_ne _ "fa" k e.interval united fa
      ∙ get-put_given_ne _ "fu" k e.unit typed fu
      ∙ get-put_given_ne _ "tp" k e.mode rule tp

  pub get-changed_rule-tp : get "tp" (changed_rule rule unit target offsets e) ≡ get "tp" typed
  get-changed_rule-tp =
      get-tail "tp" refl refl refl
      ∙ get-put_given_ne _ "of" "tp" offsets spaced refl
      ∙ get-put_given_ne _ "fa" "tp" e.interval united refl
      ∙ get-put_given_ne _ "fu" "tp" e.unit typed refl

  get-changed_rule-fu : get "fu" (changed_rule rule unit target offsets e) ≡ get "fu" united
  get-changed_rule-fu =
      get-tail "fu" refl refl refl
      ∙ get-put_given_ne _ "of" "fu" offsets spaced refl
      ∙ get-put_given_ne _ "fa" "fu" e.interval united refl

  get-changed_rule-fa : get "fa" (changed_rule rule unit target offsets e) ≡ get "fa" spaced
  get-changed_rule-fa =
      get-tail "fa" refl refl refl ∙ get-put_given_ne _ "of" "fa" offsets spaced refl

  pub get-changed_rule-of : get "of" (changed_rule rule unit target offsets e) ≡ get "of" dated
  get-changed_rule-of = get-tail "of" refl refl refl

  -- Where the edit names a unit the rule has that unit, and else the one that it had.
  pub unit-changed_rule :
      repeat_unit (some rule) ≡ some unit
      → repeat_unit (some (changed_rule rule unit target offsets e)) ≡ some (or_else e.unit unit)
  unfolding repeat_unit
  unit-changed_rule h = rw get-changed_rule-fu (unit_after e.unit e.mode rule unit h)

  pub interval-changed_rule :
      (n : ℕ)
      → repeat_interval (some rule) ≡ some n
      → interval_of_value (int (pos (or_else e.interval n))) ≡ some (or_else e.interval n)
      → repeat_interval (some (changed_rule rule unit target offsets e))
        ≡ some (or_else e.interval n)
  unfolding repeat_interval
  interval-changed_rule n h fits = rw get-changed_rule-fa (
      interval_after e.interval united n fits (
        rw
          (
            get-put_given_ne (λ (u : RepeatUnit). int (pos (unit_code u))) "fu" "fa" e.unit typed
                refl,
            get-put_given_ne (λ (m : RepeatMode). int (pos (mode_code m))) "tp" "fa" e.mode rule
                refl,
          )
          h))
