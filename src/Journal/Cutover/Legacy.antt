-- ===== src/Journal/Cutover/Legacy.antt =====
-- `cutover_v1`: every old operation that waits for its owner is retired, and every record of version 1
-- is quarantined, kept as unresolved, or reduced to what is safe to keep.
-- An `err` does not tell what the loops had written before it.
use things3_orchestrator.Prelude.{
  if◌then◌else◌, contains, err, ok, ◌>>=◌, Dict, String, Bool, true, false, not, ◌&&◌, Option, none,
  some, List, [], ◌∷◌,
}
use things3_orchestrator.Json.{JsonValue, str, list, dict, Fields, empty, field, get, equals_text}
use things3_orchestrator.Journal.Types.{
  IntentState, V2Operation, IntentRecord, Moment, Journal, ambiguous, unhashable, Outcome, Digests,
}
use things3_orchestrator.Journal.Checks.{is_awaiting_owner}
use things3_orchestrator.Journal.Cutover.{store_retired, all_mutable}
use text.Mathlib.Text.{starts_with}
use Prim.Native.String.{compare}
use Prim.Native.Nat.{Ordering}

-- for `sorted` of a list
unfoldable pub insert_text : String → List String → List String
insert_text s [] = s ∷ []
insert_text s (t ∷ ts) = elim (compare s t) [
  | Ordering.lt ↦ s ∷ t ∷ ts
  | Ordering.eq ↦ s ∷ t ∷ ts
  | Ordering.gt ↦ t ∷ insert_text s ts
]

unfoldable pub sorted : List String → List String
unfolding insert_text
sorted [] = []
sorted (s ∷ ss) = insert_text s (sorted ss)

unfoldable pub intent_text : IntentState → String
intent_text IntentState.prepared = "prepared"
intent_text IntentState.needs_approval = "needs_approval"
intent_text IntentState.pending = "pending"
intent_text IntentState.applied = "applied"
intent_text IntentState.unchanged = "unchanged"
intent_text IntentState.stale = "stale"

abbrev text_field : String → String → Fields → Fields
text_field k s d = field k (str s) d

unfoldable pub quarantined_result : Fields
quarantined_result = text_field "status" "quarantined" (
    text_field "instruction"
      "This v1 operation cannot be approved or replayed after the v2 cutover." empty)

unfoldable pub legacy_tombstone : String → Fields
legacy_tombstone state = text_field "status" "legacy_tombstone" (text_field "state" state empty)

-- `v in {…}`, which raises on a list or a dict, since neither can be hashed
unfoldable pub text_in : List String → JsonValue → Outcome Bool
text_in texts (str s) = ok (contains s texts)
text_in texts (list vs) = err unhashable
text_in texts (dict d) = err unhashable
text_in texts _ = ok false

unfoldable pub is_owner_signature : JsonValue → Bool
is_owner_signature (str s) = starts_with s "ed25519:v1:"
is_owner_signature _ = false

-- `authorization` and the two before it, when an owner resolved the record
unfoldable pub owner_resolved : Fields → Outcome Bool
unfolding text_in is_owner_signature
owner_resolved result = do
  classified ←
      text_in ("applied" ∷ "partial" ∷ "unknown" ∷ "malformed" ∷ []) (get "classification" result)
  resolved ←
      (if classified
        then text_in ("accepted_as_is" ∷ "superseded" ∷ []) (get "resolution" result)
        else ok false)
  ok (resolved && is_owner_signature (get "authorization" result))

unfoldable pub other_result : String → Fields → Fields
unfolding quarantined_result legacy_tombstone
other_result state result =
    let status = get "status" result in
    if equals_text status "reconciled_no_replay"
      && equals_text (get "classification" result) "applied"
    then field "status" status (text_field "classification" "applied" empty)
    else if equals_text status "quarantined"
    then quarantined_result
    else legacy_tombstone state

unfoldable pub terminal_result : String → Option Fields → Outcome Fields
unfolding other_result owner_resolved legacy_tombstone
terminal_result state none = ok (legacy_tombstone state)
terminal_result state (some result) = do
  owned ←
      (if equals_text (get "status" result) "owner_resolved_no_replay"
        then owner_resolved result
        else ok false)
  ok (
      if owned
      then field "status" (get "status" result) (
          field "classification" (get "classification" result) (
            field "resolution" (get "resolution" result)
              (field "authorization" (get "authorization" result) empty)))
      else other_result state result)

pub record Report : Type 0 where
  pub quarantined : List String
  pub unresolved : List String
  pub partial_like : List String
  pub terminal : List String

abbrev pub writes_blocked : Report → Bool
writes_blocked r = elim r.unresolved [ [] ↦ false | ◌∷◌ _ _ ↦ true ]

-- The parts of the loop over the records, by the state of one.
pub data Fate : Type 0 where
  quarantine retain reduce : Fate

unfoldable pub fate_of : IntentState → Fate
fate_of IntentState.prepared = Fate.quarantine
fate_of IntentState.needs_approval = Fate.quarantine
fate_of IntentState.pending = Fate.retain
fate_of _ = Fate.reduce

unfoldable pub cut_record : Fate → IntentRecord → Outcome IntentRecord
unfolding quarantined_result terminal_result intent_text
cut_record Fate.quarantine row =
    ok (record row { state = IntentState.stale; plan = empty; result = some quarantined_result })
cut_record Fate.retain row = ok row
cut_record Fate.reduce row = do
  kept ← terminal_result (intent_text row.state) row.result
  ok (record row { plan = empty; result = some kept })

unfoldable pub cut_records : Dict IntentRecord → Outcome (Dict IntentRecord)
unfolding fate_of cut_record
cut_records [] = ok []
cut_records (entry ∷ rows) = do
  row ← cut_record (fate_of entry.1.state) entry.1
  rest ← cut_records rows
  ok ((entry.0, row) ∷ rest)

abbrev pub is_fate : Fate → Fate → Bool
is_fate Fate.quarantine Fate.quarantine = true
is_fate Fate.retain Fate.retain = true
is_fate Fate.reduce Fate.reduce = true
is_fate _ _ = false

unfoldable pub ids_of : Fate → Dict IntentRecord → List String
unfolding fate_of
ids_of fate [] = []
ids_of fate (entry ∷ rows) =
    let rest = ids_of fate rows in
    if is_fate (fate_of entry.1.state) fate then entry.0 ∷ rest else rest

abbrev is_partial : Option Fields → Bool
is_partial none = false
is_partial (some result) = equals_text (get "status" result) "partial"

unfoldable pub partial_ids : Dict IntentRecord → List String
unfolding fate_of
partial_ids [] = []
partial_ids (entry ∷ rows) =
    let rest = partial_ids rows in
    if is_fate (fate_of entry.1.state) Fate.retain && is_partial entry.1.result
    then entry.0 ∷ rest
    else rest

unfoldable pub report_of : Dict IntentRecord → Report
unfolding ids_of partial_ids sorted
report_of rows = record {
  quarantined = sorted (ids_of Fate.quarantine rows);
  unresolved = sorted (ids_of Fate.retain rows);
  partial_like = sorted (partial_ids rows);
  terminal = sorted (ids_of Fate.reduce rows);
}

-- the loop that retires the operations waiting for their owner; `clock` is `_utc_now()`
unfoldable pub retire_each : Dict V2Operation → Moment → Journal → Journal
retire_each [] clock j = j
retire_each (entry ∷ d) clock j =
    let kept = retire_each d clock j in
    if is_awaiting_owner entry.1.state
    then retire_each d clock (store_retired entry.1 clock j)
    else kept

-- both loops, and the report
unfoldable pub cut_over : Moment → Journal → Outcome (Report × Journal)
unfolding cut_records report_of retire_each
cut_over clock j = do
  rows ← cut_records j.records
  ok (report_of j.records, record (retire_each j.operations clock j) { records = rows })

unfoldable pub cutover_v1 : Digests → Moment → Journal → Outcome (Report × Journal)
unfolding cut_over
cutover_v1 digests clock j =
    if not (all_mutable digests j.operations j) then err ambiguous else cut_over clock j
