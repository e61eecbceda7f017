-- ===== src/Cloud/Written/View.antt =====
-- What the fold shows of a created item, and the checks of `_MutationVerifier` on it.
use things3_orchestrator.Prelude.{
  pos, eq_ℤ, String, ◌≡◌, refl, ap, Bool, true, false, not, ◌&&◌, ◌||◌, [], arith,
}
use things3_orchestrator.Calendar.{Date}
use things3_orchestrator.Library.Types.{Kind, Status, Record, Write}
use things3_orchestrator.Library.Queries.{kind_eq, is_kind, is_none, or_else}
use things3_orchestrator.Cloud.Payload.{list_state}
use things3_orchestrator.Cloud.Written.{Seen, seen}
use things3_orchestrator.Cloud.Written.Facts.{day_fits_stamp, remind_reads, filled}
use things3_orchestrator.Cloud.Written.Placed.{project_uuid, area_uuid, anytime_listed, placed_in}
use things3_orchestrator.Library.Verify.{fields_match}
use things3_orchestrator.Library.Verify.Actions.{create_matches}
use things3_orchestrator.Library.Verify.Coherent.{coherent}
use things3_orchestrator.Library.Verify.Created.{
  create_asks, created_schedule, create-coherent, heading_uncleared, kind_same, heading_same,
  created_parts,
}
use things3_orchestrator.Library.Verify.Edited.{text_set, status_set, tags_set, index_set}

-- What a creation in the cloud asks for: an item that is no area, whose texts, days and reminder
-- the payload can carry.
unfoldable pub cloud_asks : Bool → Write → Bool
cloud_asks is_heading w =
    create_asks w
    && not (kind_eq w.kind Kind.area)
    && (not is_heading || (kind_eq w.kind Kind.task && is_kind w.into_kind Kind.project))
    && day_fits_stamp w.start
    && day_fits_stamp w.deadline
    && remind_reads w.remind
    && (is_none w.remind || not (is_none w.start))
    && filled w.into_uuid
    && filled w.heading_uuid

pub asked_parts :
    (is_heading : Bool) (w : Write)
    → cloud_asks is_heading w ≡ true
    → (create_asks w ≡ true)
      × (kind_eq w.kind Kind.area ≡ false)
      × (not is_heading || kind_eq w.kind Kind.task ≡ true)
      × (not is_heading || is_kind w.into_kind Kind.project ≡ true)
      × (day_fits_stamp w.start ≡ true)
      × (day_fits_stamp w.deadline ≡ true)
      × (remind_reads w.remind ≡ true)
      × (filled w.into_uuid ≡ true)
      × (filled w.heading_uuid ≡ true)
unfolding cloud_asks
asked_parts is_heading w asks = ground arith

-- what the fold shows of the item
unfoldable pub view : Bool → Write → Date → String → Seen
view is_heading w today title = (
  (
    or_else w.title title,
    or_else w.notes "",
    or_else w.status Status.opened,
    w.kind,
    is_heading,
    or_else w.tag_uuids [],
    or_else w.sort_index (pos 0),
    or_else w.today_index (pos 0),
  ),
  (w.start, w.deadline, w.remind, w.tonight, w.someday),
  (
    eq_ℤ (list_state w today) (pos 0) && not (kind_eq w.kind Kind.project) && not is_heading,
    project_uuid w,
    area_uuid w,
    w.heading_uuid,
  ),
)

viewed_fields :
    (is_heading : Bool) (w : Write) (today : Date) (title : String) (item : Record)
    → seen item ≡ view is_heading w today title
    → fields_match item w ≡ true
unfolding fields_match view
viewed_fields is_heading w today title item is =
    let t : item.title ≡ or_else w.title title = ap (λ s. s.0.0) is in
    let n : item.notes ≡ or_else w.notes "" = ap (λ s. s.0.1) is in
    let s : item.status ≡ or_else w.status Status.opened = ap (λ s. s.0.2) is in
    let g : item.tag_uuids ≡ or_else w.tag_uuids [] = ap (λ s. s.0.5) is in
    let x : item.sort_index ≡ or_else w.sort_index (pos 0) = ap (λ s. s.0.6) is in
    let y : item.today_index ≡ or_else w.today_index (pos 0) = ap (λ s. s.0.7) is in
    rw
      (
        t,
        n,
        s,
        g,
        x,
        y,
        text_set w.title title,
        text_set w.notes "",
        status_set w.status Status.opened,
        tags_set w.tag_uuids [],
        index_set w.sort_index (pos 0),
        index_set w.today_index (pos 0),
      )
      refl

anytime_out :
    (w : Write) (today : Date) (a b : Bool) (item : Record)
    → coherent w ≡ true
    → item.inbox ≡ eq_ℤ (list_state w today) (pos 0) && a && b
    → not w.anytime || not item.inbox ≡ true
anytime_out w today a b item c is = ground (arith, anytime_listed w today c)

pub viewed_matches :
    (is_heading : Bool) (w : Write) (today : Date) (title : String) (item : Record)
    → cloud_asks is_heading w ≡ true
    → seen item ≡ view is_heading w today title
    → create_matches is_heading w item ≡ true
unfolding view
viewed_matches is_heading w today title item asks is =
    let (a, not_area, simple, inside, starts, ends, reads, full, full_heading) =
      asked_parts is_heading w asks in
    let c = create-coherent w a in
    let i = ap (λ s. s.2.0) is in
    let h = ap (λ s. s.2.3) is in
    let schedule =
      created_schedule w item c (ap (λ s. s.1.1) is) (ap (λ s. s.1.0) is) (ap (λ s. s.1.3) is)
        (ap (λ s. s.1.4) is) (ap (λ s. s.1.2) is)
        (anytime_out w today (not (kind_eq w.kind Kind.project)) (not is_heading) item c i) in
    created_parts is_heading item w (rw (ap (λ s. s.0.3) is) (kind_same w.kind))
      (rw (ap (λ s. s.0.4) is) (heading_same is_heading))
      (viewed_fields is_heading w today title item is) schedule (rw h (heading_uncleared w a))
      (placed_in w is_heading today item a not_area inside i (ap (λ s. s.2.1) is)
        (ap (λ s. s.2.2) is) h)
