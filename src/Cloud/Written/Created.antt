-- ===== src/Cloud/Written/Created.antt =====
-- The fold of the payload of a creation.
use things3_orchestrator.Cloud.Written.Placed.{
  both_placed, placed_rest, project_uuid, area_uuid, one_of_them, project_read, area_read,
}
use things3_orchestrator.Cloud.Reminder.{native_reminder}
use things3_orchestrator.Cloud.Written.{seen}
use things3_orchestrator.Cloud.Written.Facts.{
  filled, first_read, tags_read, flag_read, status_read, note_read, title_read,
}
use things3_orchestrator.Prelude.{
  if◌then◌else◌, ℤ, pos, eq_ℤ, ok, ℕ, String, ◌≡◌, refl, ap, ◌∙◌, true, not, ◌&&◌, ◌||◌, Option,
  some, [], map,
}
use things3_orchestrator.Json.{Float, JsonValue, str, Fields, get, has_key, items, values}
use things3_orchestrator.Calendar.{Date}
use things3_orchestrator.Library.Types.{Kind, Status, Record, Write}
use things3_orchestrator.Library.Queries.{kind_eq, is_none, or_else}
use things3_orchestrator.Cloud.Values.{
  given, present, list_of, as_int, as_texts, first_text, from_ts,
}
use things3_orchestrator.Cloud.Fold.{
  update_with, status_of, typed, inbox_from_list_state, listed, noted, begin_on, in_project,
  in_area, int_at, tags_at, fold_head, fold_dates, fold_place, fold_repeat, fold_item,
}
use things3_orchestrator.Cloud.Payload.{
  fields_of, int_value, stamp_value, one_text, status_code, list_state, project_of, area_of,
  item_payload,
}

module _ (py_str : JsonValue → String) (int_of_text : String → Option ℤ) (crc32 : String → ℕ)
    (w : Write) (code : ℤ) (offset : Option ℤ) (today : Date) (now : Float) where
  unfoldable pub payload : Fields
  payload = item_payload crc32 code w offset today now

  -- the item after its title, note, type and state, after its dates, and after its place
  headed : Record → Record
  unfolding payload
  headed item =
      fold_head py_str int_of_text crc32 payload (some code)
        (some (status_code (or_else w.status Status.opened))) item

  dated : Record → Record
  unfolding payload headed
  dated item =
      fold_dates py_str int_of_text crc32 payload (some (if w.tonight then pos 1 else pos 0))
        (some (or_else w.sort_index (pos 0))) (some (or_else w.today_index (pos 0))) (headed item)

  unfoldable pub folded : Record → Record
  unfolding payload dated
  folded item = fold_place py_str int_of_text crc32 payload (some (list_state w today)) (dated item)

  pub folded_item :
      (item : Record)
      → fold_item py_str int_of_text crc32 true payload item
        ≡ ok (fold_repeat py_str int_of_text crc32 true payload (folded item))
  unfolding fold_item int_at given as_int payload item_payload fields_of get folded dated headed
  folded_item item = refl

  into : Option String
  into = first_text py_str (project_of w)

  under : Option String
  under = first_text py_str (area_of w)

  settled : Record → Record
  unfolding into under
  settled item = in_area under (in_project into item)

  folded_form :
      (item : Record)
      → folded item ≡ record (listed (list_state w today) (settled (dated item))) {
        heading_uuid = first_text py_str (one_text w.heading_uuid);
        tag_uuids = as_texts py_str (values (items (map str (or_else w.tag_uuids []))));
      }
  unfolding folded fold_place payload item_payload fields_of get has_key present update_with settled
      into under tags_at list_of
  folded_form item = refl

  dated_form :
      (item : Record)
      → seen (dated item)
        ≡ seen (record (headed item) {
          start = from_ts (stamp_value w.start);
          someday = (dated item).someday;
          deadline = from_ts (stamp_value w.deadline);
          remind = native_reminder (int_value offset);
          tonight = eq_ℤ (if w.tonight then pos 1 else pos 0) (pos 1);
          sort_index = or_else w.sort_index (pos 0);
          today_index = or_else w.today_index (pos 0);
        })
  unfolding dated fold_dates payload item_payload fields_of get has_key present update_with begin_on
  dated_form item = refl

  headed_title : (item : Record) → (headed item).title ≡ or_else w.title item.title
  unfolding headed fold_head payload item_payload fields_of get has_key present given update_with
      noted typed
  headed_title item = title_read py_str w.title item

  headed_notes : (item : Record) → (headed item).notes ≡ or_else w.notes ""
  unfolding headed fold_head payload item_payload fields_of get has_key present given update_with
      noted typed
  headed_notes item = ap (λ t. or_else t "") (note_read crc32 w.notes _)

  headed_form :
      (item : Record)
      → ((headed item).status ≡ status_of (status_code (or_else w.status Status.opened)))
        × ((headed item).kind ≡ (typed code item).kind)
        × ((headed item).heading ≡ eq_ℤ code (pos 2))
  unfolding headed fold_head payload item_payload fields_of get has_key present given update_with
      noted typed
  headed_form item = (refl, refl, refl)

  -- what the fold leaves of the item once its dates are known
  folded_over :
      (item : Record)
      → folded item
        ≡ record (listed (list_state w today) (record (dated item) {
          parent_uuid = (settled (dated item)).parent_uuid;
          area_uuid = (settled (dated item)).area_uuid;
          heading_uuid = (settled (dated item)).heading_uuid;
        })) {
          heading_uuid = first_text py_str (one_text w.heading_uuid);
          tag_uuids = as_texts py_str (values (items (map str (or_else w.tag_uuids []))));
        }
  unfolding settled
  folded_over item =
      folded_form item
      ∙ ap
          (λ r. record (listed (list_state w today) r) {
            heading_uuid = first_text py_str (one_text w.heading_uuid);
            tag_uuids = as_texts py_str (values (items (map str (or_else w.tag_uuids []))));
          })
          (placed_rest into under (dated item))

  one_at_most : filled w.into_uuid ≡ true → is_none into || is_none under ≡ true
  unfolding into under
  one_at_most full = rw (project_read py_str w full, area_read py_str w full) (one_of_them w)

  -- the place of the folded item
  pub folded_place :
      (item : Record)
      → filled w.into_uuid ≡ true
      → filled w.heading_uuid ≡ true
      → ((folded item).parent_uuid ≡ project_uuid w)
        × ((folded item).area_uuid ≡ area_uuid w)
        × ((folded item).heading_uuid ≡ w.heading_uuid)
  unfolding settled listed into under
  folded_place item full full_heading =
      let (p, a) = both_placed into under (dated item) (one_at_most full) in
      (
        ap (λ r. r.parent_uuid) (folded_form item) ∙ p ∙ project_read py_str w full,
        ap (λ r. r.area_uuid) (folded_form item) ∙ a ∙ area_read py_str w full,
        ap (λ r. r.heading_uuid) (folded_form item) ∙ first_read py_str w.heading_uuid full_heading,
      )

  -- its title, note, state and type
  pub folded_kept :
      (item : Record)
      → ((folded item).title ≡ or_else w.title item.title)
        × ((folded item).notes ≡ or_else w.notes "")
        × ((folded item).status ≡ or_else w.status Status.opened)
        × ((folded item).kind ≡ (typed code item).kind)
        × ((folded item).heading ≡ eq_ℤ code (pos 2))
  unfolding listed
  folded_kept item =
      let over = folded_over item in
      let dates = dated_form item in
      let (state, kind, headings) = headed_form item in
      (
        ap (λ r. r.title) over ∙ ap (λ s. s.0.0) dates ∙ headed_title item,
        ap (λ r. r.notes) over ∙ ap (λ s. s.0.1) dates ∙ headed_notes item,
        ap (λ r. r.status) over
            ∙ ap (λ s. s.0.2) dates
            ∙ state
            ∙ status_read (or_else w.status Status.opened),
        ap (λ r. r.kind) over ∙ ap (λ s. s.0.3) dates ∙ kind,
        ap (λ r. r.heading) over ∙ ap (λ s. s.0.4) dates ∙ headings,
      )

  -- its dates and its list
  pub folded_dates :
      (item : Record)
      → ((folded item).start ≡ from_ts (stamp_value w.start))
        × ((folded item).deadline ≡ from_ts (stamp_value w.deadline))
        × ((folded item).remind ≡ native_reminder (int_value offset))
        × ((folded item).tonight ≡ w.tonight)
        × ((folded item).sort_index ≡ or_else w.sort_index (pos 0))
        × ((folded item).today_index ≡ or_else w.today_index (pos 0))
  unfolding listed
  folded_dates item =
      let over = folded_over item in
      let dates = dated_form item in
      (
        ap (λ r. r.start) over ∙ ap (λ s. s.1.0) dates,
        ap (λ r. r.deadline) over ∙ ap (λ s. s.1.1) dates,
        ap (λ r. r.remind) over ∙ ap (λ s. s.1.2) dates,
        ap (λ r. r.tonight) over ∙ ap (λ s. s.1.3) dates ∙ flag_read w.tonight,
        ap (λ r. r.sort_index) over ∙ ap (λ s. s.0.6) dates,
        ap (λ r. r.today_index) over ∙ ap (λ s. s.0.7) dates,
      )

  pub folded_list :
      (item : Record)
      → ((folded item).inbox
          ≡ eq_ℤ (list_state w today) (pos 0)
            && not (kind_eq (typed code item).kind Kind.project)
            && not (eq_ℤ code (pos 2)))
        × ((folded item).someday
            ≡ eq_ℤ (list_state w today) (pos 2) && is_none (from_ts (stamp_value w.start)))
        × ((folded item).tag_uuids ≡ or_else w.tag_uuids [])
  unfolding listed inbox_from_list_state
  folded_list item =
      let over = folded_over item in
      let dates = dated_form item in
      let state = list_state w today in
      let (_, kind, headings) = headed_form item in
      let listed_in : eq_ℤ state (pos 0)
            && not (kind_eq (headed item).kind Kind.project)
            && not (headed item).heading
          ≡ eq_ℤ state (pos 0)
            && not (kind_eq (typed code item).kind Kind.project)
            && not (eq_ℤ code (pos 2)) =
        rw (kind, headings) refl in
      (
        ap (λ r. r.inbox) over
            ∙ ap (λ s. eq_ℤ state (pos 0) && not (kind_eq s.0.3 Kind.project) && not s.0.4) dates
            ∙ listed_in,
        ap (λ r. r.someday) over ∙ ap (λ s. eq_ℤ state (pos 2) && is_none s.1.0) dates,
        ap (λ r. r.tag_uuids) over ∙ tags_read py_str (or_else w.tag_uuids []),
      )
