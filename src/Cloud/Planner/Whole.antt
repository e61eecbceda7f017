-- ===== src/Cloud/Planner/Whole.antt =====
-- The `"ix"` of what `plan` returns.
use things3_orchestrator.Prelude.{
  Bool-cases, Option-cases, All, ok, >>=-eq-ok, ok_inj, raise_if, Dict, eq_to, lookup, dict_values,
  Every, Every-lookup, Every-insert, ℕ, String, ◌==◌, ◌≡◌, refl, inl, inr, true, not, List, [], ◌∷◌,
  map, arith,
}
use things3_orchestrator.Json.{Float, values}
use things3_orchestrator.Calendar.{Date}
use things3_orchestrator.Library.Types.{Write, Library}
use things3_orchestrator.Cloud.Values.{repeated_uuid}
use things3_orchestrator.Cloud.Envelope.{Envelope, updated}
use things3_orchestrator.Cloud.Plan.{new_plan, batch_of}
use things3_orchestrator.Cloud.Planner.{plan_each, plan}
use things3_orchestrator.Cloud.Planner.Index.{ix_fits-updated}
use things3_orchestrator.Cloud.Planner.Positive.{ix_positive, ix_safe, ix_positive-safe}
use things3_orchestrator.Cloud.Coalesce.{
  overlay, joined, coalesce_one, coalesce, coalesce_envelopes, distinct,
}
use things3_orchestrator.Cloud.Planner.Prepared.{well_named, AllSafe}
use things3_orchestrator.Cloud.Planner.Sent.{each_sent}

overlaid :
    (previous next merged : Envelope)
    → overlay previous next ≡ ok merged
    → ((previous.entity == next.entity) ≡ true)
      × (merged.entity ≡ previous.entity)
      × (merged.payload ≡ updated previous.payload next.payload)
unfolding overlay
overlaid previous next merged is = ground arith

overlay_safe :
    (previous next merged : Envelope)
    → ix_safe previous ≡ true
    → ix_safe next ≡ true
    → overlay previous next ≡ ok merged
    → ix_safe merged ≡ true
unfolding ix_safe
overlay_safe previous next merged h k is =
    let (same, entity, payload) = overlaid previous next merged is in
    let names = eq_to previous.entity next.entity same in
    elim (Bool-cases (previous.entity == "Task7")) [
      | inl item ↦
          let there : (next.entity == "Task7") ≡ true = rw (← names) item in
          let fit = ix_fits-updated previous.payload next.payload (ground arith) (ground arith) in
          rw (entity, payload) (rw (item, fit) refl)
      | inr other ↦ rw (entity, payload) (rw other refl)
    ]

abbrev IsSafe : String → Envelope → Type 0
IsSafe key e = ix_safe e ≡ true

joined_safe :
    (d : Dict Envelope) (next merged : Envelope)
    → Every IsSafe d
    → ix_safe next ≡ true
    → joined (lookup next.uuid d) next ≡ ok merged
    → ix_safe merged ≡ true
unfolding joined
joined_safe d next merged all safe is = elim (Option-cases (lookup next.uuid d)) [
  | inl fresh ↦ let same : next ≡ merged = ground arith in rw (← same) safe
  | inr (previous, found) ↦
      let laid : overlay previous next ≡ ok merged = ground arith in
      overlay_safe previous next merged (Every-lookup IsSafe next.uuid d all found) safe laid
]

coalesce-IsSafe :
    (es : List Envelope) (d out : Dict Envelope)
    → AllSafe es
    → Every IsSafe d
    → coalesce es d ≡ ok out
    → Every IsSafe out
unfolding coalesce coalesce_one
coalesce-IsSafe [] d out safe all is = rw (← ok_inj is) all
coalesce-IsSafe (e ∷ es) d out safe all is =
    let (next, at, rest) = >>=-eq-ok (coalesce_one d e) _ is in
    let (merged, from, last) = >>=-eq-ok (joined (lookup e.uuid d) e) _ at in
    let kept = Every-insert IsSafe e.uuid merged d (joined_safe d e merged all safe.0 from) all in
    coalesce-IsSafe es next out safe.1 (rw (← ok_inj last) kept) rest

values_positive :
    (d : Dict Envelope) → Every IsSafe d → All (λ e. ix_positive e ≡ true) (dict_values d)
values_positive [] all = tt
values_positive (entry ∷ d) all = (ix_positive-safe entry.1 all.0, values_positive d all.1)

-- In what `plan` returns no payload of a task, a Project or a heading has an `"ix"` that is not
-- positive, whatever indices the writes ask for, as long as each write is of the kind of the item that
-- it changes and no area of the library goes by the entity of a task.
pub plan-ix_positive :
    (casefold strip : String → String) (crc32 : String → ℕ) (today : Date) (now : Float)
    (l : Library) (ws : List Write) (es : List Envelope)
    → All (λ w. well_named l (batch_of l ws) w ≡ true) ws
    → plan casefold strip crc32 today now l ws ≡ ok es
    → All (λ e. ix_positive e ≡ true) es
unfolding plan coalesce_envelopes
plan-ix_positive casefold strip crc32 today now l ws es named is =
    let b = batch_of l ws in
    let (p, sent, then_out) =
      >>=-eq-ok (plan_each casefold strip crc32 today now l b ws new_plan) _ is in
    let (out, merged, end) = >>=-eq-ok (coalesce_envelopes p.envelopes) _ then_out in
    let (_, _, last) =
      >>=-eq-ok (raise_if (not (distinct (map (λ e. e.uuid) out))) repeated_uuid) _ end in
    let (d, at, values) = >>=-eq-ok (coalesce p.envelopes []) _ merged in
    let all = each_sent casefold strip crc32 today now l b ws new_plan p named tt sent in
    rw (← ok_inj last)
      (rw (← ok_inj values) (values_positive d (coalesce-IsSafe p.envelopes [] d all tt at)))
