-- ===== src/Cloud/Written/Matched.antt =====
-- The created item of the fold and the checks of `_MutationVerifier`.
use things3_orchestrator.Prelude.{
  if◌then◌else◌, ℤ, pos, err, ok, ℕ, String, ◌≡◌, refl, ◌∙◌, Bool, true, false, ◌||◌, Option, none,
  some, arith,
}
use things3_orchestrator.Json.{Float, JsonValue, int, Fields}
use things3_orchestrator.Calendar.{Date}
use things3_orchestrator.Library.Types.{Kind, Record, Write}
use things3_orchestrator.Library.Queries.{kind_eq, is_none, same_text, or_else}
use things3_orchestrator.Cloud.Values.{bad_number, Folded}
use things3_orchestrator.Cloud.Reminder.{native_reminder, offset_from_remind}
use things3_orchestrator.Cloud.Fold.{new_item, fold_repeat, fold_item}
use things3_orchestrator.Cloud.Payload.{offset_of, type_code, item_payload, create_payload}
use things3_orchestrator.Cloud.Written.{seen, fold_repeat-seen}
use things3_orchestrator.Cloud.Written.Facts.{stamp_read, remind_reads, remind_read}
use things3_orchestrator.Cloud.Written.Placed.{kind_typed, heading_typed, someday_listed}
use things3_orchestrator.Cloud.Written.Created.{
  payload, folded, folded_item, folded_place, folded_kept, folded_dates, folded_list,
}
use things3_orchestrator.Library.Verify.Actions.{create_matches}
use things3_orchestrator.Library.Verify.Created.{create-coherent}
use things3_orchestrator.Cloud.Written.View.{cloud_asks, asked_parts, view, viewed_matches}

module _ (py_str : JsonValue → String) (int_of_text : String → Option ℤ) (crc32 : String → ℕ)
    (is_heading : Bool) (w : Write) (offset : Option ℤ) (today : Date) (now : Float) where
  made : Record → Record
  made item = folded py_str int_of_text crc32 w (type_code is_heading w.kind) offset today now item

  seen-made :
      (item : Record)
      → cloud_asks is_heading w ≡ true
      → offset_of w.remind ≡ ok offset
      → seen (made item) ≡ view is_heading w today item.title
  unfolding made view
  seen-made item asks at =
      let (a, not_area, simple, inside, starts, ends, reads, full, full_heading) =
        asked_parts is_heading w asks in
      let code = type_code is_heading w.kind in
      let (t, n, s, k, h) = folded_kept py_str int_of_text crc32 w code offset today now item in
      let (b, d, r, l, x, y) = folded_dates py_str int_of_text crc32 w code offset today now item in
      let (i, m, g) = folded_list py_str int_of_text crc32 w code offset today now item in
      let (p, u, e) =
        folded_place py_str int_of_text crc32 w code offset today now item full full_heading in
      let kind = kind_typed is_heading w.kind item not_area simple in
      let heading = heading_typed is_heading w.kind in
      let start = stamp_read w.start starts in
      rw
        (
          t,
          n,
          s,
          k ∙ kind,
          h ∙ heading,
          g,
          x,
          y,
          b ∙ start,
          d ∙ stamp_read w.deadline ends,
          r ∙ remind_read w.remind offset reads at,
          l,
          m,
          i,
          p,
          u,
          e,
          start,
          kind,
          heading,
          someday_listed w today (create-coherent w a),
        )
        refl

offset_asked :
    (is_heading : Bool) (w : Write)
    → cloud_asks is_heading w ≡ true
    → (if is_none w.start || kind_eq w.kind Kind.area then none else w.remind) ≡ w.remind
unfolding cloud_asks
offset_asked is_heading w asks = ground arith

offset_reads : (r : Option String) → remind_reads r ≡ true → (o : Option ℤ) × (offset_of r ≡ ok o)
unfolding remind_reads offset_of
offset_reads none reads = (none, refl)
offset_reads (some r) reads = go (offset_from_remind r) reads
  where
    go :
        (n : Option ℕ)
        → (elim n [ none ↦ false | some m ↦ same_text (native_reminder (int (pos m))) (some r) ])
          ≡ true
        → (o : Option ℤ) × ◌≡◌ {A = Folded (Option ℤ)}
            (elim n [ none ↦ err bad_number | some m ↦ ok (some (pos m)) ])
            (ok o)
    go none is = absurd cc
    go (some m) is = (some (pos m), refl)

-- For a creation that asks for no contradictions, one place, and texts, days and a reminder which a
-- payload can carry, `_create_payload` succeeds, the fold of its payload as the first event of the
-- item succeeds, and the item that results passes every check of the verifier for the creation,
-- whatever the other fields of the payload make of its recurrence.
pub fold_item-create_payload :
    (py_str : JsonValue → String) (int_of_text : String → Option ℤ) (crc32 : String → ℕ)
    (is_heading : Bool) (w : Write) (today : Date) (now : Float) (uuid : String)
    → cloud_asks is_heading w ≡ true
    → (p : Fields) × (item : Record) × (create_payload crc32 is_heading w today now ≡ ok p)
      × (fold_item py_str int_of_text crc32 true p (new_item uuid) ≡ ok item)
      × (create_matches is_heading w item ≡ true)
unfolding create_payload made payload new_item
fold_item-create_payload py_str int_of_text crc32 is_heading w today now uuid asks =
    let (_, not_area, _, _, _, _, reads, _, _) = asked_parts is_heading w asks in
    let (offset, at) = offset_reads w.remind reads in
    let day = or_else w.owner_today today in
    let code = type_code is_heading w.kind in
    let p = item_payload crc32 code w offset day now in
    let item = made py_str int_of_text crc32 is_heading w offset day now (new_item uuid) in
    let final = fold_repeat py_str int_of_text crc32 true p item in
    (
      p,
      final,
      rw (offset_asked is_heading w asks, at, not_area) refl,
      folded_item py_str int_of_text crc32 w code offset day now (new_item uuid),
      viewed_matches is_heading w day "" final asks (
          fold_repeat-seen py_str int_of_text crc32 true p item
          ∙ seen-made py_str int_of_text crc32 is_heading w offset day now (new_item uuid) asks at),
    )
