-- ===== src/Cloud/Planner/Positive.antt =====
-- The `"ix"` of the envelopes that a plan makes.
use things3_orchestrator.Recurrence.Transition.{or_else}
use things3_orchestrator.Prelude.{
  if◌then◌else◌, Bool-cases, Option-cases, ℤ, pos, ltb_ℤ, ok, >>=-eq-ok, ok_inj, lookup, ℕ, String,
  ◌==◌, ◌≡◌, refl, inl, inr, Bool, true, false, not, ◌&&◌, ◌||◌, Option, none, some, arith,
}
use things3_orchestrator.Json.{Float, bool, Fields, get, put}
use things3_orchestrator.Calendar.{Date}
use things3_orchestrator.Library.Types.{
  Kind, EditAction, LifecycleAction, TagAction, RepeatAction, Action, create, edit, lifecycle, tag,
  checklist, recurrence, Write, Library,
}
use things3_orchestrator.Library.Queries.{kind_eq, is_none, find_checklist}
use things3_orchestrator.Cloud.Payload.{
  fields_of, offset_of, type_code, item_payload, create_payload,
}
use things3_orchestrator.Cloud.Envelope.{Envelope}
use things3_orchestrator.Cloud.Edited.{edit_payload}
use things3_orchestrator.Cloud.Handler.{
  entity_of, checklist_envelope, lifecycle_envelope, repeat_payload, tag_envelope, envelope_of,
}
use things3_orchestrator.Cloud.Planner.Index.{
  positive_value, ix_fits, ix_fits-get, ix_fits-given, sort_positive,
}
use things3_orchestrator.Cloud.Planner.Edits.{ix_fits-edit_payload}

-- A payload of a task, a Project or a heading has no `"ix"` or a positive one.
abbrev pub is_task_entity : Envelope → Bool
is_task_entity e = e.entity == "Task7"

unfoldable pub ix_positive : Envelope → Bool
unfolding positive_value get
ix_positive e = not (is_task_entity e) || positive_value (get "ix" e.payload)

unfoldable pub ix_safe : Envelope → Bool
unfolding ix_fits
ix_safe e = not (is_task_entity e) || ix_fits e.payload

-- The write sets no index or a positive one, unless its envelope is that of an area.
unfoldable pub ready : Write → Library → Bool
unfolding sort_positive entity_of
ready w l =
    sort_positive w.sort_index || (kind_eq w.kind Kind.area && not (entity_of w l == "Task7"))

-- A creation sets a positive one, unless it makes an area.
unfoldable pub creation_ready : Write → Bool
unfolding sort_positive
creation_ready w =
    kind_eq w.kind Kind.area || (not (is_none w.sort_index) && sort_positive w.sort_index)

unfoldable pub fit_for : Action → Write → Library → Bool
unfolding creation_ready ready
fit_for (create _) w l = creation_ready w
fit_for _ w l = ready w l

pub ix_positive-safe : (e : Envelope) → ix_safe e ≡ true → ix_positive e ≡ true
unfolding ix_positive ix_safe
ix_positive-safe e h = elim (Bool-cases (is_task_entity e)) [
  | inl item ↦ rw item (ix_fits-get e.payload (ground arith))
  | inr other ↦ rw other refl
]

module _ (crc32 : String → ℕ) (strip : String → String) (today : Date) (now : Float) where
  made_safe : (p : Fields) (e : Envelope) → ix_fits p ≡ true → e.payload ≡ p → ix_safe e ≡ true
  unfolding ix_safe
  made_safe p e h is = rw is (rw h (ground arith))

  item_fits :
      (code : ℤ) (w : Write) (offset : Option ℤ) (when : Date) (n : ℤ)
      → w.sort_index ≡ some n
      → ltb_ℤ (pos 0) n ≡ true
      → ix_fits (item_payload crc32 code w offset when now) ≡ true
  unfolding item_payload fields_of ix_fits positive_value
  item_fits code w offset when n known positive = rw known (ground arith)

  create_fits :
      (is_heading : Bool) (w : Write) (p : Fields) (n : ℤ)
      → kind_eq w.kind Kind.area ≡ false
      → w.sort_index ≡ some n
      → ltb_ℤ (pos 0) n ≡ true
      → create_payload crc32 is_heading w today now ≡ ok p
      → ix_fits p ≡ true
  unfolding create_payload
  create_fits is_heading w p n other known positive is =
      let (offset, _, last) =
        >>=-eq-ok
          (offset_of (if is_none w.start || kind_eq w.kind Kind.area then none else w.remind)) _
          is in
      let day = or_else w.owner_today today in
      let made : item_payload crc32 (type_code is_heading w.kind) w offset day now ≡ p =
        ground arith in
      rw (← made) (item_fits (type_code is_heading w.kind) w offset day n known positive)

  create_safe :
      (is_heading : Bool) (w : Write) (l : Library) (e : Envelope)
      → creation_ready w ≡ true
      → envelope_of crc32 strip today now (create is_heading) w l ≡ ok e
      → ix_safe e ≡ true
  unfolding envelope_of ix_safe creation_ready sort_positive
  create_safe is_heading w l e h is =
      let (p, at, last) = >>=-eq-ok (create_payload crc32 is_heading w today now) _ is in
      elim (Bool-cases (kind_eq w.kind Kind.area)) [
        | inl is_area ↦ rw (← ok_inj last) (rw is_area refl)
        | inr other ↦ elim (Option-cases w.sort_index) [
          | inl missing ↦ absurd (ground arith)
          | inr (n, there) ↦
              let fit = create_fits is_heading w p n other there (ground arith) at in
              rw (← ok_inj last) (rw (other, fit) refl)
        ]
      ]

  edit_safe :
      (action : EditAction) (w : Write) (l : Library) (e : Envelope)
      → ready w l ≡ true
      → envelope_of crc32 strip today now (edit action) w l ≡ ok e
      → ix_safe e ≡ true
  unfolding envelope_of ix_safe ready
  edit_safe action w l e h is =
      let (payload, at, last) =
        >>=-eq-ok (edit_payload crc32 action w (lookup w.uuid l.records) today now) _ is in
      elim (Bool-cases (sort_positive w.sort_index)) [
        | inl positive ↦
            made_safe payload e
              (ix_fits-edit_payload crc32 action w (lookup w.uuid l.records) today now payload
                positive at)
              (rw (← ok_inj last) refl)
        | inr negative ↦
            let other : (entity_of w l == "Task7") ≡ false = ground arith in
            rw (← ok_inj last) (rw other refl)
      ]

  lifecycle_safe :
      (action : LifecycleAction) (w : Write) (l : Library)
      → ix_safe (lifecycle_envelope action w l now) ≡ true
  unfolding lifecycle_envelope ix_safe ix_fits
  lifecycle_safe action w l = ground arith

  pub tag_safe :
      (action : TagAction) (w : Write) (e : Envelope)
      → tag_envelope crc32 strip today now action w ≡ ok e
      → ix_safe e ≡ true
  unfolding tag_envelope ix_safe
  tag_safe action w e is = ground arith

  row_entity : (w : Write) (l : Library) → (checklist_envelope w l now).entity ≡ "ChecklistItem3"
  unfolding checklist_envelope
  row_entity w l = elim (Bool-cases w.checklist_remove) [
    | inl removes ↦ rw removes refl
    | inr stays ↦ elim (Bool-cases (is_none (find_checklist w.uuid l))) [
      | inl fresh ↦ rw (stays, fresh) refl
      | inr known ↦ rw (stays, known) refl
    ]
  ]

  pub checklist_safe : (w : Write) (l : Library) → ix_safe (checklist_envelope w l now) ≡ true
  unfolding ix_safe
  checklist_safe w l = rw (row_entity w l) refl

  repeat_fits : (action : RepeatAction) (w : Write) → ix_fits (repeat_payload action w now) ≡ true
  unfolding repeat_payload ix_fits put
  repeat_fits RepeatAction.repeat_link w = ix_fits-given bool "icp" w.recurrence_paused _ refl refl
  repeat_fits RepeatAction.repeat_next w = ix_fits-given bool "icp" w.recurrence_paused _ refl refl
  repeat_fits RepeatAction.repeat_progress w =
      ix_fits-given bool "icp" w.recurrence_paused _ refl refl
  repeat_fits RepeatAction.repeat w =
      ix_fits-given bool "icp" w.recurrence_paused _ (ground arith) refl

  -- the envelope of a write
  pub write_safe :
      (action : Action) (w : Write) (l : Library) (e : Envelope)
      → fit_for action w l ≡ true
      → envelope_of crc32 strip today now action w l ≡ ok e
      → ix_safe e ≡ true
  unfolding envelope_of fit_for
  write_safe (create is_heading) w l e h is = create_safe is_heading w l e h is
  write_safe (edit action) w l e h is = edit_safe action w l e h is
  write_safe (lifecycle action) w l e h is = rw (← ok_inj is) (lifecycle_safe action w l)
  write_safe (tag action) w l e h is = tag_safe action w e is
  write_safe checklist w l e h is = rw (← ok_inj is) (checklist_safe w l)
  write_safe (recurrence action) w l e h is =
      made_safe (repeat_payload action w now) e (repeat_fits action w) (rw (← ok_inj is) refl)
