-- ===== src/Library/Verify/Edited.antt =====
-- The edits of `_MemoryApplyHandler` against the checks of `_MutationVerifier`.
use things3_orchestrator.Library.Verify.Actions.{edit_matches}
use things3_orchestrator.Library.Verify.Place.{place_schedule, place_placed}
use things3_orchestrator.Library.Verify.Schedule.{schedule_set}
use things3_orchestrator.Prelude.{
  if◌then◌else◌, Bool-cases, ℤ, ok, ok_inj, ℕ, String, eq_iff, ◌≡◌, refl, sym, inl, inr, Bool, true,
  false, not, ◌&&◌, ◌||◌, Option, none, some, List, [], ◌∷◌, arith,
}
use things3_orchestrator.Library.Types.{Kind, Status, Record, EditAction, Write}
use things3_orchestrator.Library.Queries.{kind_eq, is_none, same_text, truthy_text, or_else}
use things3_orchestrator.Library.Handler.Edit.{
  place_item, move_item, set_fields, started, set_start, set_tonight, set_anytime, set_dates,
  set_schedule, moves, update_item, rename_item, edit_record,
}
use things3_orchestrator.Library.Verify.{
  same_texts, text_fits, status_fits, tags_fit, index_fits, placement_matches, fields_match,
  schedule_matches, patch_matches,
}
use things3_orchestrator.Library.Verify.Coherent.{
  IsRescheduled, move_item-IsRescheduled, set_schedule-IsRescheduled, coherent, one_place,
}
use mathlib.Core.Path.{ap, subst}

-- An edit that asks for one place and no contradictions, and sets what its action is about.
unfoldable pub edit_asks : EditAction → Write → Record → Bool
unfolding coherent one_place moves
edit_asks EditAction.update w item =
    coherent w
    && (not (moves w)
        || (one_place w && kind_eq item.kind w.kind && not (kind_eq w.kind Kind.area)))
edit_asks EditAction.move w item =
    coherent w
    && moves w
    && one_place w
    && kind_eq item.kind w.kind
    && not (kind_eq w.kind Kind.area)
edit_asks EditAction.tags w item = not (is_none w.tag_uuids)
edit_asks EditAction.rename_area w item = truthy_text w.title

pub same_texts_refl : (ts : List String) → same_texts ts ts ≡ true
unfolding same_texts
same_texts_refl [] = refl
same_texts_refl (t ∷ ts) = ground (arith, eq_iff t t, same_texts_refl ts)

pub text_set : (given : Option String) (old : String) → text_fits given (or_else given old) ≡ true
text_set none old = refl
text_set (some t) old = ground (arith, eq_iff t t)

pub status_set :
    (given : Option Status) (old : Status) → status_fits given (or_else given old) ≡ true
status_set none old = refl
status_set (some s) old = ground arith

pub tags_set :
    (given : Option (List String)) (old : List String) → tags_fit given (or_else given old) ≡ true
tags_set none old = refl
tags_set (some ts) old = same_texts_refl ts

pub index_set : (given : Option ℤ) (old : ℤ) → index_fits given (or_else given old) ≡ true
index_set none old = refl
index_set (some n) old = ground arith

fields_set : (w : Write) (now : ℕ) (item : Record) → fields_match (set_fields w now item) w ≡ true
unfolding fields_match set_fields
fields_set w now item =
    rw
      (
        text_set w.title item.title,
        text_set w.notes item.notes,
        status_set w.status item.status,
        tags_set w.tag_uuids item.tag_uuids,
        index_set w.sort_index item.sort_index,
        index_set w.today_index item.today_index,
      )
      refl

-- What only reschedules an item leaves the other fields.
fields_kept :
    (w : Write) (item next : Record)
    → IsRescheduled item next
    → fields_match item w ≡ true
    → fields_match next w ≡ true
unfolding fields_match
fields_kept w item next is h = subst (λ r. fields_match r w ≡ true) (sym is) h

all_hold :
    (f s h p a b c d e : Bool)
    → f ≡ true
    → s ≡ true
    → h ≡ true
    → not (a || b || c || d || e) || p ≡ true
    → f && s && h && (not (false || a || b || c || d) || p) ≡ true
all_hold f s h p a b c d e f1 s1 h1 p1 = ground arith

update_parts :
    (w : Write) (next : Record)
    → fields_match next w ≡ true
    → schedule_matches next w ≡ true
    → not w.clear_heading || is_none next.heading_uuid ≡ true
    → not (moves w) || placement_matches next w ≡ true
    → patch_matches false next w ≡ true
unfolding patch_matches moves
update_parts w next f s h p =
    all_hold _ _ _ (placement_matches next w) (not (is_none w.into_uuid))
      (not (is_none w.into_kind)) w.inbox w.anytime (not (is_none w.heading_uuid)) f s h p

heading_kept : (w : Write) (item : Record) → (set_schedule w item).heading_uuid ≡ item.heading_uuid
unfolding set_schedule set_dates set_anytime set_tonight set_start started
heading_kept w item = ground arith

heading_cleared :
    (w : Write) (now : ℕ) (item : Record)
    → not w.clear_heading || is_none (set_schedule w (set_fields w now item)).heading_uuid ≡ true
unfolding set_fields
heading_cleared w now item =
    let is : (set_schedule w (set_fields w now item)).heading_uuid
        ≡ (if w.clear_heading then none else item.heading_uuid) =
      heading_kept w (set_fields w now item) in
    rw is (ground arith)

heading_moved :
    (w : Write) (item next : Record)
    → coherent w ≡ true
    → move_item w item ≡ ok next
    → not w.clear_heading || is_none next.heading_uuid ≡ true
unfolding coherent move_item place_item
heading_moved w item next c moved = ground arith

kind_kept :
    (w : Write) (now : ℕ) (item : Record)
    → (set_schedule w (set_fields w now item)).kind ≡ item.kind
unfolding set_fields
kind_kept w now item = ap (λ r. r.kind) (set_schedule-IsRescheduled w (set_fields w now item))

update-matches :
    (w : Write) (now : ℕ) (item next : Record)
    → edit_asks EditAction.update w item ≡ true
    → update_item w now item ≡ ok next
    → patch_matches false next w ≡ true
unfolding edit_asks update_item
update-matches w now item next asks updated =
    let fields = set_fields w now item in
    let changed = set_schedule w fields in
    let c : coherent w ≡ true = ground arith in
    let f =
      fields_kept w fields changed (set_schedule-IsRescheduled w fields) (fields_set w now item) in
    elim (Bool-cases (moves w)) [
      | inl on ↦
          let moved : move_item w changed ≡ ok next = ground arith in
          let o : one_place w ≡ true = ground arith in
          let same : kind_eq changed.kind w.kind ≡ true =
            rw (kind_kept w now item) (ground arith) in
          let not_area : kind_eq w.kind Kind.area ≡ false = ground arith in
          update_parts w next
            (fields_kept w changed next (move_item-IsRescheduled w changed next moved) f)
            (place_schedule w changed next c o on moved (schedule_set w fields c))
            (heading_moved w changed next c moved)
            (rw (place_placed w changed next c o on same not_area moved) (ground arith))
      | inr off ↦
          let is : changed ≡ next = ground arith in
          rw (← is) (
            update_parts w changed f (schedule_set w fields c) (heading_cleared w now item)
              (rw off refl))
    ]

all_asked :
    (a b c d e : Bool)
    → a && b && c && d && not e ≡ true
    → (a ≡ true) × (b ≡ true) × (c ≡ true) × (d ≡ true) × (e ≡ false)
all_asked a b c d e h = ground arith

tags_asked :
    (given : Option (List String)) (old : List String)
    → not (is_none given) ≡ true
    → same_texts (or_else given old) (or_else given []) ≡ true
tags_asked none old h = absurd cc
tags_asked (some ts) old h = same_texts_refl ts

renamed :
    (w : Write) (item : Record)
    → truthy_text w.title ≡ true
    → rename_item w item ≡ record item { title = or_else w.title "" }
unfolding rename_item
renamed w item given = ground arith

text_kept : (t : Option String) → truthy_text t ≡ true → same_text (some (or_else t "")) t ≡ true
text_kept none h = absurd cc
text_kept (some t) h = ground (arith, eq_iff t t)

title_asked :
    (w : Write) (item : Record)
    → truthy_text w.title ≡ true
    → same_text (some (rename_item w item).title) w.title ≡ true
title_asked w item given = rw (renamed w item given) (text_kept w.title given)

-- An edit whose write asks for one place and no contradictions, and sets what its action is about,
-- leaves an item that passes every check of the verifier.
pub edit_record-matches :
    (action : EditAction) (w : Write) (now : ℕ) (item next : Record)
    → edit_asks action w item ≡ true
    → edit_record action w now item ≡ ok next
    → edit_matches action w next ≡ true
unfolding edit_record edit_matches edit_asks rename_item
edit_record-matches EditAction.update w now item next asks e = update-matches w now item next asks e
edit_record-matches EditAction.move w now item next asks e =
    let (c, on, o, same, not_area) = all_asked _ _ _ _ _ asks in
    place_placed w item next c o on same not_area e
edit_record-matches EditAction.tags w now item next asks e =
    rw (← ok_inj e) (tags_asked w.tag_uuids item.tag_uuids asks)
edit_record-matches EditAction.rename_area w now item next asks e =
    rw (← ok_inj e) (title_asked w item asks)
