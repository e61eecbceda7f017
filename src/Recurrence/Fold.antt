-- ===== src/Recurrence/Fold.antt =====
-- `fold_rule`, `fold_links`, `fold_paused`, `resolve_instance_type` and `weekday_codes` of
-- `RecurrenceState`. Python's `str` at a value that is no text is the parameter `py_str`.
pub mod Coherent
use things3_orchestrator.Prelude.{
  if◌then◌else◌, pos, ℕ, String, Bool, Option, none, some, List, [], ◌∷◌, map,
}
use things3_orchestrator.Json.{
  JsonValue, bool, int, str, list, dict, Items, nil, cons, Fields, get, has_key, values, equals_int,
  truthy,
}
use things3_orchestrator.Recurrence.Types.{
  RepeatUnit, RepeatType, Role, RecurrenceState, no_recurrence,
}
use things3_orchestrator.Recurrence.Rule.{repeat_unit}
use things3_orchestrator.Recurrence.Offsets.{code_of}

abbrev default_type_value : Fields → JsonValue
default_type_value rule = if has_key "tp" rule then get "tp" rule else int (pos 0)

unfoldable pub type_of_code : JsonValue → RepeatType
unfolding equals_int
type_of_code code =
    if equals_int code (pos 0)
    then RepeatType.fixed
    else if equals_int code (pos 1)
    then RepeatType.after_completion
    else RepeatType.unknown

-- `RecurrenceState(links=…, paused=…)`
abbrev pub cleared : List String → Bool → RecurrenceState
cleared links paused = record no_recurrence { links = links; paused = paused }

abbrev drop_rule : Role → RecurrenceState → RecurrenceState
drop_rule Role.template s = cleared s.links s.paused
drop_rule role s = record s { rule = none }

unfoldable pub fold_rule : JsonValue → RecurrenceState → RecurrenceState
unfolding type_of_code
fold_rule (dict rule) s = record s {
  role = Role.template;
  repeat_type = type_of_code (default_type_value rule);
  template_uuid = none;
  rule = some rule;
}
fold_rule value s = drop_rule s.role s

unfoldable pub fold_paused : JsonValue → RecurrenceState → RecurrenceState
unfolding truthy
fold_paused value s = record s { paused = truthy value }

resolved : Option RepeatType → RepeatType
resolved (some RepeatType.fixed) = RepeatType.fixed
resolved (some RepeatType.after_completion) = RepeatType.after_completion
resolved _ = RepeatType.unknown

-- the repeat type of the template, where it was found
unfoldable pub resolve_instance_type : Option RepeatType → RecurrenceState → RecurrenceState
unfolding resolved
resolve_instance_type found s = elim s.role [
  | Role.instanced ↦ record s { repeat_type = resolved found }
  | _ ↦ s
]

module _ (py_str : JsonValue → String) where
  unfoldable pub link_text : JsonValue → String
  link_text (str s) = s
  link_text v = py_str v

  unfoldable pub links_of : JsonValue → List String
  unfolding link_text
  links_of (str s) = s ∷ []
  links_of (list vs) = map link_text (values vs)
  links_of _ = []

  unfoldable pub set_links : List String → RecurrenceState → RecurrenceState
  set_links (link ∷ links) s = record s {
    role = Role.instanced;
    template_uuid = some link;
    rule = none;
    links = link ∷ links;
  }
  set_links [] s = elim s.role [
    | Role.instanced ↦ cleared [] s.paused
    | _ ↦ record s { template_uuid = none; links = [] }
  ]

  unfoldable pub fold_links : JsonValue → RecurrenceState → RecurrenceState
  unfolding links_of set_links
  fold_links value s = set_links (links_of value) s

-- the "icp" property, which counts only if it is a bool
fold_pause_key : JsonValue → RecurrenceState → RecurrenceState
fold_pause_key (bool b) s = fold_paused (bool b) s
fold_pause_key _ s = s

module _ (py_str : JsonValue → String) where
  -- What the fold of a Cloud event into a record does to its recurrence.
  unfoldable pub fold_payload : Fields → RecurrenceState → RecurrenceState
  unfolding fold_rule fold_links fold_pause_key fold_paused
  fold_payload payload s =
      let s1 = if has_key "rr" payload then fold_rule (get "rr" payload) s else s in
      let s2 = if has_key "rt" payload then fold_links py_str (get "rt" payload) s1 else s1 in
      if has_key "icp" payload then fold_pause_key (get "icp" payload) s2 else s2

  unfoldable pub fold_payloads : List Fields → RecurrenceState → RecurrenceState
  fold_payloads [] s = s
  fold_payloads (p ∷ ps) s = fold_payloads ps (fold_payload p s)

-- one value of `offsets` in `weekday_codes`
unfoldable pub selected_code : JsonValue → Option ℕ
unfolding code_of
selected_code (dict offset) = code_of (get "wd" offset)
selected_code _ = none

unfoldable pub selected_codes : Items → Option (List ℕ)
unfolding selected_code
selected_codes nil = some []
selected_codes (cons v vs) = elim (selected_code v) [
  | none ↦ none
  | some n ↦ elim (selected_codes vs) [ none ↦ none | some ns ↦ some (n ∷ ns) ]
]

unfoldable pub selectors : JsonValue → List ℕ
unfolding selected_codes
selectors (list offsets) = elim (selected_codes offsets) [ none ↦ [] | some ns ↦ ns ]
selectors _ = []

unfoldable pub weekly_selectors : Option RepeatUnit → Fields → List ℕ
unfolding selectors
weekly_selectors (some RepeatUnit.week) rule = selectors (get "of" rule)
weekly_selectors _ rule = []

unfoldable pub rule_weekday_codes : Option Fields → List ℕ
unfolding weekly_selectors
rule_weekday_codes none = []
rule_weekday_codes (some rule) = weekly_selectors (repeat_unit (some rule)) rule
