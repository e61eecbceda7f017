-- ===== src/Recurrence/Fold/Coherent.antt =====
-- How the role of a recurrence state goes with its other fields, through the folds.
use things3_orchestrator.Prelude.{
  if◌then◌else◌, String, ◌≡◌, refl, Bool, true, false, Option, none, some, List, [], ◌∷◌, arith,
}
use things3_orchestrator.Json.{JsonValue, bool, dict, Fields, get, has_key}
use things3_orchestrator.Recurrence.Types.{Role, RecurrenceState, no_recurrence}
use things3_orchestrator.Recurrence.Fold.{
  drop_rule, fold_rule, fold_paused, links_of, set_links, fold_links, fold_pause_key, fold_payload,
  fold_payloads,
}

-- What each role says of the template id, the rule and the links.
abbrev pub RoleFits : Role → Option String → Option Fields → List String → Type 0
RoleFits Role.template uuid (some rule) links = uuid ≡ none
RoleFits Role.template uuid none links = ⊥
RoleFits Role.instanced uuid rule [] = ⊥
RoleFits Role.instanced uuid rule (link ∷ links) = (uuid ≡ some link) × (rule ≡ none)
RoleFits Role.none uuid rule links = (uuid ≡ none) × (rule ≡ none)

abbrev pub IsCoherent : RecurrenceState → Type 0
IsCoherent s = RoleFits s.role s.template_uuid s.rule s.links

drop_rule-IsCoherent :
    (role : Role) (s : RecurrenceState)
    → s.role ≡ role
    → IsCoherent s
    → IsCoherent (drop_rule role s)
drop_rule-IsCoherent Role.template s e h = ground arith
drop_rule-IsCoherent Role.instanced s e h = ground arith
drop_rule-IsCoherent Role.none s e h = ground arith

-- `fold_rule` of any value keeps a state coherent.
pub fold_rule-IsCoherent :
    (value : JsonValue) (s : RecurrenceState) → IsCoherent s → IsCoherent (fold_rule value s)
unfolding fold_rule
fold_rule-IsCoherent (dict rule) s h = refl
fold_rule-IsCoherent _ s h = drop_rule-IsCoherent s.role s refl h

if_IsCoherent :
    (b : Bool) (s t : RecurrenceState)
    → IsCoherent s
    → IsCoherent t
    → IsCoherent (if b then s else t)
if_IsCoherent true s t h k = h
if_IsCoherent false s t h k = k

module _ (py_str : JsonValue → String) where
  set_links-IsCoherent :
      (links : List String) (s : RecurrenceState)
      → IsCoherent s
      → IsCoherent (set_links py_str links s)
  unfolding set_links
  set_links-IsCoherent (link ∷ links) s h = (refl, refl)
  set_links-IsCoherent [] s h = ground arith

  -- `fold_links` of any value keeps a state coherent.
  pub fold_links-IsCoherent :
      (value : JsonValue) (s : RecurrenceState)
      → IsCoherent s
      → IsCoherent (fold_links py_str value s)
  unfolding fold_links
  fold_links-IsCoherent value s h = set_links-IsCoherent (links_of py_str value) s h

  fold_pause_key-IsCoherent :
      (value : JsonValue) (s : RecurrenceState) → IsCoherent s → IsCoherent (fold_pause_key value s)
  unfolding fold_pause_key fold_paused
  fold_pause_key-IsCoherent (bool b) s h = h
  fold_pause_key-IsCoherent _ s h = h

  fold_payload-IsCoherent :
      (payload : Fields) (s : RecurrenceState)
      → IsCoherent s
      → IsCoherent (fold_payload py_str payload s)
  unfolding fold_payload
  fold_payload-IsCoherent payload s h =
      let s1 = if has_key "rr" payload then fold_rule (get "rr" payload) s else s in
      let s2 = if has_key "rt" payload then fold_links py_str (get "rt" payload) s1 else s1 in
      let h1 : IsCoherent s1 =
        if_IsCoherent (has_key "rr" payload) _ s (fold_rule-IsCoherent (get "rr" payload) s h) h in
      let h2 : IsCoherent s2 =
        if_IsCoherent (has_key "rt" payload) _ s1 (fold_links-IsCoherent (get "rt" payload) s1 h1)
          h1 in
      if_IsCoherent (has_key "icp" payload) _ s2
        (fold_pause_key-IsCoherent (get "icp" payload) s2 h2) h2

  -- However many payloads are folded into the state of a new record, its role agrees with its
  -- template id, rule and links: a template has a rule and no template id; an instance has no rule
  -- and its template id is its first link; a state with no role has neither.
  pub fold_payloads-IsCoherent :
      (payloads : List Fields) → IsCoherent (fold_payloads py_str payloads no_recurrence)
  unfolding fold_payloads
  fold_payloads-IsCoherent payloads = from payloads no_recurrence (refl, refl)
    where
      from :
          (payloads : List Fields) (s : RecurrenceState)
          → IsCoherent s
          → IsCoherent (fold_payloads py_str payloads s)
      from [] s h = h
      from (p ∷ ps) s h = from ps (fold_payload py_str p s) (fold_payload-IsCoherent p s h)
