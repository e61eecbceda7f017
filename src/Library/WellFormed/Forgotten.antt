-- ===== src/Library/WellFormed/Forgotten.antt =====
-- What a deletion leaves of the item or the tag that it deletes.
use things3_orchestrator.Prelude.{
  Bool-cases, contains, ok, >>=-eq-ok, ok_inj, Dict, lookup, erase, update_values, Every, IsUnique,
  lookup-update_values_none, IsUnique-update_values, lookup-erase, Every-erase, ℕ, String, ◌==◌,
  ◌≡◌, refl, inl, inr, Bool, false, ◌||◌, Option, none, some, List, [], ◌∷◌, arith,
}
use things3_orchestrator.Library.Types.{Record, LifecycleAction, Write, Library}
use things3_orchestrator.Library.Queries.{same_text}
use things3_orchestrator.Library.Handler.{Applied}
use things3_orchestrator.Library.Handler.Lifecycle.{
  cut, cut_from, delete_record, lifecycle_records, lifecycle_found, lifecycle_item,
}
use things3_orchestrator.Library.Handler.Tag.{without, untag, drop_tag}
use things3_orchestrator.Library.WellFormed.{IsWellFormed, found-IsGood}
use mathlib.Core.Path.{subst}

-- The item names the uuid as its Project, its area or its heading.
unfoldable pub names_place : String → Record → Bool
names_place uuid item =
    same_text item.parent_uuid (some uuid)
    || same_text item.area_uuid (some uuid)
    || same_text item.heading_uuid (some uuid)

cut_off : (uuid : String) (t : Option String) → same_text (cut uuid t) (some uuid) ≡ false
unfolding cut
cut_off uuid none = refl
cut_off uuid (some t) = ground arith

cut_from-names : (uuid : String) (item : Record) → names_place uuid (cut_from uuid item) ≡ false
unfolding names_place cut_from
cut_from-names uuid item =
    rw (cut_off uuid item.parent_uuid, cut_off uuid item.area_uuid, cut_off uuid item.heading_uuid)
      refl

module _ (uuid : String) where
  abbrev Unnamed : String → Record → Type 0
  Unnamed key item = names_place uuid item ≡ false

  cut-Every : (d : Dict Record) → Every Unnamed (update_values (cut_from uuid) d)
  unfolding update_values
  cut-Every [] = tt
  cut-Every (entry ∷ d) = (cut_from-names uuid entry.1, cut-Every d)

  deleted-Every :
      (d e : Dict Record) → Every Unnamed d → delete_record uuid d ≡ ok e → Every Unnamed e
  unfolding delete_record
  deleted-Every d e h deleted =
      let is : erase uuid d ≡ e = ground arith in rw (← is) (Every-erase Unnamed uuid d h)

  deleted-none :
      (d e : Dict Record) → IsUnique d → delete_record uuid d ≡ ok e → lookup uuid e ≡ none
  unfolding delete_record
  deleted-none d e u deleted =
      let is : erase uuid d ≡ e = ground arith in rw (← is) (lookup-erase uuid d u)

-- After a permanent deletion that found its item, nothing stands under the uuid, and no record names
-- it as its Project, its area or its heading.
pub deleted-names :
    (w : Write) (now : ℕ) (item : Record) (a b : Applied)
    → IsWellFormed a.library
    → lookup w.uuid a.library.records ≡ some item
    → lifecycle_item LifecycleAction.permanent_delete w now a ≡ ok b
    → (lookup w.uuid b.library.records ≡ none)
      × Every (λ key r. names_place w.uuid r ≡ false) b.library.records
unfolding lifecycle_item lifecycle_found lifecycle_records
deleted-names w now item a b good at e =
    let d = update_values (cut_from item.uuid) a.library.records in
    let at_item =
      subst (λ f. lifecycle_found LifecycleAction.permanent_delete w now f a ≡ ok b) at e in
    let (kept, deleted, is) = >>=-eq-ok (delete_record item.uuid d) _ at_item in
    let uuid = (found-IsGood a.library good w.uuid at).0 in
    let u = IsUnique-update_values (cut_from item.uuid) a.library.records good.unique_records in
    rw (← ok_inj is, ← uuid)
      (
        deleted-none item.uuid d kept u deleted,
        deleted-Every item.uuid d kept (cut-Every item.uuid a.library.records) deleted,
      )

without-contains : (uuid : String) (tags : List String) → contains uuid (without uuid tags) ≡ false
unfolding without
without-contains uuid [] = refl
without-contains uuid (t ∷ ts) = elim (Bool-cases (t == uuid)) [
  | inl same ↦ rw same (without-contains uuid ts)
  | inr other ↦ rw (other, other) (without-contains uuid ts)
]

module _ {V : Type 0} (f : V → V) (P : V → Type 0) (holds : (v : V) → P (f v)) where
  updated-Every : (d : Dict V) → Every (λ key v. P v) (update_values f d)
  unfolding update_values
  updated-Every [] = tt
  updated-Every (entry ∷ d) = (holds entry.1, updated-Every d)

-- After the deletion of a tag no tag stands under its uuid, and no record and no other tag names it.
pub drop_tag-contains :
    (uuid : String) (l : Library)
    → IsWellFormed l
    → (lookup uuid (drop_tag uuid l).tags ≡ none)
      × (lookup uuid (drop_tag uuid l).tag_parents ≡ none)
      × Every (λ key r. contains uuid r.tag_uuids ≡ false) (drop_tag uuid l).records
      × Every (λ key ts. contains uuid ts ≡ false) (drop_tag uuid l).tag_parents
unfolding drop_tag untag
drop_tag-contains uuid l good = (
  lookup-erase uuid l.tags good.unique_tags,
  lookup-update_values_none (without uuid) uuid (erase uuid l.tag_parents)
      (lookup-erase uuid l.tag_parents good.unique_parents),
  updated-Every (untag uuid) (λ r. contains uuid r.tag_uuids ≡ false)
      (λ r. without-contains uuid r.tag_uuids) l.records,
  updated-Every (without uuid) (λ ts. contains uuid ts ≡ false) (without-contains uuid)
      (erase uuid l.tag_parents),
)
