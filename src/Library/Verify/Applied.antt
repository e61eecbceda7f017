-- ===== src/Library/Verify/Applied.antt =====
-- The handlers of `_MemoryApplyHandler` against `_MutationVerifier`.
use things3_orchestrator.Prelude.{
  ok, >>=-eq-ok, ok_inj, Dict, lookup, insert, erase, lookup-insert, update_values, IsUnique,
  IsUnique-update_values, lookup-erase, ℕ, String, ◌==◌, ◌≡◌, refl, Bool, true, false, not, ◌&&◌,
  Option, none, some, [], arith,
}
use things3_orchestrator.Library.Types.{
  Status, Record, EditAction, LifecycleAction, TagAction, Action, create, edit, lifecycle, tag,
  Write,
}
use things3_orchestrator.Library.Queries.{is_none, or_else}
use things3_orchestrator.Library.Handler.{Applied}
use things3_orchestrator.Library.Handler.Edit.{edit_record, edit_found}
use things3_orchestrator.Library.Handler.Lifecycle.{
  cut_from, delete_record, finish, lifecycle_records, lifecycle_found,
}
use things3_orchestrator.Library.Handler.Tag.{parents_of}
use things3_orchestrator.Library.WellFormed.{IsWellFormed, found-IsGood}
use things3_orchestrator.Library.Verify.{same_texts}
use things3_orchestrator.Library.Verify.Actions.{edit_matches, lifecycle_matches, on_item}
use things3_orchestrator.Library.Verify.Edited.{edit_asks, edit_record-matches}
use things3_orchestrator.Library.Verify.Created.{create_asks}
use text.Mathlib.TextPositions.{eq_refl}

-- the item of the write is there, and the edit is one that `edit_asks` describes
unfoldable pub edit_found_asks : EditAction → Write → Option Record → Bool
edit_found_asks action w none = false
edit_found_asks action w (some item) = edit_asks action w item

unfoldable pub needs_item : LifecycleAction → Option Record → Bool
needs_item LifecycleAction.delete_area found = true
needs_item LifecycleAction.permanent_delete found = true
needs_item _ found = not (is_none found)

module _ (strip : String → String) where
  unfoldable pub tag_asks : TagAction → Write → Applied → Bool
  unfolding same_texts parents_of
  tag_asks TagAction.ensure_tag w a = true
  tag_asks TagAction.rename_tag w a =
      is_none (lookup w.uuid a.tag_aliases) && strip (or_else w.title "") == or_else w.title ""
  tag_asks TagAction.reparent_tag w a =
      is_none (lookup w.uuid a.tag_aliases)
      && same_texts (parents_of w a) (or_else w.tag_parent_uuids [])
  tag_asks TagAction.delete_tag w a = is_none (lookup w.uuid a.tag_aliases)

  -- What a write must be for the verifier to agree with its handler. Rows of a checklist and the
  -- recurrence are left out.
  unfoldable pub asks : Action → Write → Applied → Bool
  unfolding create_asks edit_found_asks needs_item tag_asks
  asks (create is_heading) w a = create_asks w
  asks (edit action) w a = edit_found_asks action w (lookup w.uuid a.library.records)
  asks (lifecycle action) w a = needs_item action (lookup w.uuid a.library.records)
  asks (tag action) w a = tag_asks action w a
  asks _ w a = false

saved_item :
    (test : Record → Bool) (key : String) (item : Record) (d : Dict Record)
    → test item ≡ true
    → on_item test (lookup key (insert key item d)) ≡ true
unfolding on_item
saved_item test key item d h = rw (lookup-insert key key item d, eq_refl key) h

pub edit_found-matches :
    (action : EditAction) (w : Write) (now : ℕ) (found : Option Record) (a b : Applied)
    → edit_found_asks action w found ≡ true
    → edit_found action w now found a ≡ ok b
    → on_item (edit_matches action w) (lookup w.uuid b.library.records) ≡ true
unfolding edit_found edit_found_asks
edit_found-matches action w now none a b asked e = absurd cc
edit_found-matches action w now (some item) a b asked e =
    let (next, edited, is) = >>=-eq-ok (edit_record action w now item) _ e in
    rw (← ok_inj is) (
      saved_item (edit_matches action w) w.uuid next a.library.records
        (edit_record-matches action w now item next asked edited))

deleted_none :
    (uuid : String) (d e : Dict Record)
    → IsUnique d
    → delete_record uuid d ≡ ok e
    → lookup uuid e ≡ none
unfolding delete_record
deleted_none uuid d e u deleted =
    let is : erase uuid d ≡ e = ground arith in rw (← is) (lookup-erase uuid d u)

lifecycle_saved :
    (action : LifecycleAction) (key : String) (item : Record) (now : ℕ) (d e : Dict Record)
    → item.uuid ≡ key
    → IsUnique d
    → lifecycle_records action key item now d ≡ ok e
    → lifecycle_matches action (lookup key e) ≡ true
unfolding lifecycle_records lifecycle_matches finish
lifecycle_saved LifecycleAction.complete key item now d e k u h =
    rw (← ok_inj h)
      (rw (lookup-insert key key (finish item (some now) Status.done) d, eq_refl key) refl)
lifecycle_saved LifecycleAction.cancel key item now d e k u h =
    rw (← ok_inj h)
      (rw (lookup-insert key key (finish item (some now) Status.dropped) d, eq_refl key) refl)
lifecycle_saved LifecycleAction.trash key item now d e k u h =
    rw (← ok_inj h)
      (rw (lookup-insert key key (record item { trashed = true }) d, eq_refl key) refl)
lifecycle_saved LifecycleAction.restore key item now d e k u h =
    rw (← ok_inj h)
      (rw (lookup-insert key key (record item { trashed = false }) d, eq_refl key) refl)
lifecycle_saved LifecycleAction.delete_area key item now d e k u h =
    rw (← k) (rw (deleted_none item.uuid d e u h) refl)
lifecycle_saved LifecycleAction.permanent_delete key item now d e k u h = rw (← k) (
    rw
      (deleted_none item.uuid (update_values (cut_from item.uuid) d) e
        (IsUnique-update_values (cut_from item.uuid) d u) h)
      refl)

missing_item :
    (action : LifecycleAction)
    → needs_item action none ≡ true
    → lifecycle_matches action none ≡ true
unfolding needs_item lifecycle_matches
missing_item LifecycleAction.delete_area h = refl
missing_item LifecycleAction.permanent_delete h = refl
missing_item LifecycleAction.complete h = absurd cc
missing_item LifecycleAction.cancel h = absurd cc
missing_item LifecycleAction.trash h = absurd cc
missing_item LifecycleAction.restore h = absurd cc

pub lifecycle_found-matches :
    (action : LifecycleAction) (w : Write) (now : ℕ) (found : Option Record) (a b : Applied)
    → lookup w.uuid a.library.records ≡ found
    → IsWellFormed a.library
    → needs_item action found ≡ true
    → lifecycle_found action w now found a ≡ ok b
    → lifecycle_matches action (lookup w.uuid b.library.records) ≡ true
unfolding lifecycle_found needs_item lifecycle_matches
lifecycle_found-matches action w now none a b at good asked e =
    rw (← ok_inj e) (rw at (missing_item action asked))
lifecycle_found-matches action w now (some item) a b at good asked e =
    let (d, changed, is) =
      >>=-eq-ok (lifecycle_records action w.uuid item now a.library.records) _ e in
    let g = found-IsGood a.library good w.uuid at in
    rw (← ok_inj is)
      (lifecycle_saved action w.uuid item now a.library.records d g.0 good.unique_records changed)
