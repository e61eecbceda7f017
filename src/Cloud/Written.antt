-- ===== src/Cloud/Written.antt =====
-- What a created item looks like once its payload has been folded.
pub mod Facts
pub mod Placed
pub mod Created
pub mod View
pub mod Matched
use things3_orchestrator.Recurrence.Fold.{fold_payload}
use things3_orchestrator.Prelude.{
  Bool-cases, Option-cases, ℤ, ℕ, String, ◌≡◌, refl, ◌∙◌, inl, inr, Bool, true, false, not, ◌&&◌,
  Option, none, some, List,
}
use things3_orchestrator.Json.{JsonValue, Fields}
use things3_orchestrator.Calendar.{Date}
use things3_orchestrator.Library.Types.{Kind, Status, Record}
use things3_orchestrator.Library.Queries.{is_template}
use things3_orchestrator.Cloud.Values.{present, native_count}
use things3_orchestrator.Cloud.Fold.{
  update_with, set_repeater, know_paused, set_created, set_completed, count_of, next_on,
  is_instanced, left, bool_at, fold_repeat,
}

-- what the checks of a creation look at, beside the recurrence
abbrev pub Seen : Type 0
Seen =
    (String × String × Status × Kind × Bool × List String × ℤ × ℤ)
    × (Option Date × Option Date × Option String × Bool × Bool)
    × (Bool × Option String × Option String × Option String)

abbrev pub seen : Record → Seen
seen r = (
  (r.title, r.notes, r.status, r.kind, r.heading, r.tag_uuids, r.sort_index, r.today_index),
  (r.start, r.deadline, r.remind, r.tonight, r.someday),
  (r.inbox, r.parent_uuid, r.area_uuid, r.heading_uuid),
)

count_of-seen : (v : JsonValue) (item : Record) → seen (count_of v item) ≡ seen item
unfolding count_of
count_of-seen v item = elim (Option-cases (native_count v)) [
  | inl unknown ↦ rw (unknown, count_of) refl
  | inr (n, known) ↦ rw (known, count_of) refl
]

next_on-seen : (v : JsonValue) (item : Record) → seen (next_on v item) ≡ seen item
unfolding next_on
next_on-seen v item = elim (Bool-cases (is_template item.recurrence.role)) [
  | inl template_role ↦ rw (template_role, next_on) refl
  | inr other ↦ rw (other, next_on) refl
]

left-seen : (first flag : Bool) (item : Record) → seen (left first flag item) ≡ seen item
unfolding left
left-seen first true item = elim (Bool-cases (first && is_instanced item.recurrence.role)) [
  | inl started ↦ rw (started, left) refl
  | inr other ↦ elim (Bool-cases (not item.leavable)) [
    | inl was ↦ rw (other, left, was) refl
    | inr was ↦ rw (other, left, was) refl
  ]
]
left-seen first false item = refl

update-seen :
    {A : Type 0} (step : A → Record → Record)
    → ((a : A) (item : Record) → seen (step a item) ≡ seen item)
    → (o : Option A) (item : Record) → seen (update_with step o item) ≡ seen item
unfolding update_with
update-seen step keep none item = refl
update-seen step keep (some a) item = keep a item

module _ (py_str : JsonValue → String) (int_of_text : String → Option ℤ) (crc32 : String → ℕ) where
  -- Folding the recurrence changes none of these fields.
  pub fold_repeat-seen :
      (first : Bool) (p : Fields) (item : Record)
      → seen (fold_repeat py_str int_of_text crc32 first p item) ≡ seen item
  unfolding fold_repeat
  fold_repeat-seen first p item =
      let a : Record = record item { recurrence = fold_payload py_str p item.recurrence } in
      let b = update_with set_repeater (present "rp" p) a in
      let c = update_with know_paused (bool_at "icp" p) b in
      let d = update_with set_created (present "icsd" p) c in
      let e = update_with count_of (present "icc" p) d in
      let g = update_with set_completed (present "acrd" p) e in
      let h = update_with next_on (present "tir" p) g in
      let s1 = update-seen set_repeater (λ v i. refl) (present "rp" p) a in
      let s2 = update-seen know_paused (λ v i. refl) (bool_at "icp" p) b in
      let s3 = update-seen set_created (λ v i. refl) (present "icsd" p) c in
      let s4 = update-seen count_of count_of-seen (present "icc" p) d in
      let s5 = update-seen set_completed (λ v i. refl) (present "acrd" p) e in
      let s6 = update-seen next_on next_on-seen (present "tir" p) g in
      let s7 = update-seen (left first) (left-seen first) (bool_at "lt" p) h in
      s7 ∙ (s6 ∙ (s5 ∙ (s4 ∙ (s3 ∙ (s2 ∙ s1)))))
