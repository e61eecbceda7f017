-- ===== src/Library/WellFormed/Handlers.antt =====
-- The `create` and `lifecycle` of `_MemoryApplyHandler` on well-formed libraries.
use things3_orchestrator.Prelude.{
  ℤ, ok, >>=-eq-ok, ok_inj, Dict, lookup, erase, update_values, ℕ, String, ◌≡◌, refl, Bool, Option,
  none, some, arith,
}
use things3_orchestrator.Json.{JsonValue}
use things3_orchestrator.Library.Types.{Record, LifecycleAction, Write, Library}
use things3_orchestrator.Library.Handler.{Applied}
use things3_orchestrator.Library.Handler.Create.{
  starts_in_inbox, new_place, new_record, create_at, create_item,
}
use things3_orchestrator.Library.Handler.Lifecycle.{
  cut, cut_from, delete_record, finish, lifecycle_records, lifecycle_found, lifecycle_item,
}
use things3_orchestrator.Library.WellFormed.{
  placed, IsGood, IsWellFormed, save-IsWellFormed, erase-IsWellFormed, update-IsWellFormed,
  found-IsGood,
}

module _ (py_str : JsonValue → String) where
  new_record-IsGood :
      (w : Write) (is_heading : Bool) (index : ℤ) (now : ℕ)
      (place : Bool × Option String × Option String)
      → new_place w ≡ ok place
      → IsGood w.uuid (new_record py_str w place.0 (place.1, place.2) is_heading index now)
  unfolding new_place new_record placed starts_in_inbox
  new_record-IsGood w is_heading index now place at = (refl, ground arith, tt)

  pub create_item-IsWellFormed :
      (w : Write) (is_heading : Bool) (now : ℕ) (a b : Applied)
      → IsWellFormed a.library
      → create_item py_str w is_heading now a ≡ ok b
      → IsWellFormed b.library
  unfolding create_item create_at
  create_item-IsWellFormed w is_heading now a b good created =
      let (place, at, is) = >>=-eq-ok (new_place w) _ created in
      rw (← ok_inj is)
        (save-IsWellFormed a.library good w.uuid _ (new_record-IsGood w is_heading _ now place at))

cut_from-IsGood :
    (uuid key : String) (item : Record) → IsGood key item → IsGood key (cut_from uuid item)
unfolding cut_from cut placed
cut_from-IsGood uuid key item g = (g.0, ground arith, g.2)

delete-IsWellFormed :
    (l : Library) (uuid : String) (d : Dict Record)
    → IsWellFormed l
    → delete_record uuid l.records ≡ ok d
    → IsWellFormed (record l { records = d })
unfolding delete_record
delete-IsWellFormed l uuid d good deleted =
    let is : erase uuid l.records ≡ d = ground arith in rw (← is) (erase-IsWellFormed l good uuid)

lifecycle_records-IsWellFormed :
    (action : LifecycleAction) (key : String) (item : Record) (now : ℕ) (l : Library)
    (d : Dict Record)
    → IsWellFormed l
    → IsGood key item
    → lifecycle_records action key item now l.records ≡ ok d
    → IsWellFormed (record l { records = d })
unfolding lifecycle_records finish placed
lifecycle_records-IsWellFormed LifecycleAction.complete key item now l d good g e =
    rw (← ok_inj e) (save-IsWellFormed l good key _ g)
lifecycle_records-IsWellFormed LifecycleAction.cancel key item now l d good g e =
    rw (← ok_inj e) (save-IsWellFormed l good key _ g)
lifecycle_records-IsWellFormed LifecycleAction.trash key item now l d good g e =
    rw (← ok_inj e) (save-IsWellFormed l good key _ g)
lifecycle_records-IsWellFormed LifecycleAction.restore key item now l d good g e =
    rw (← ok_inj e) (save-IsWellFormed l good key _ g)
lifecycle_records-IsWellFormed LifecycleAction.delete_area key item now l d good g e =
    delete-IsWellFormed l item.uuid d good e
lifecycle_records-IsWellFormed LifecycleAction.permanent_delete key item now l d good g e =
    let cut = update-IsWellFormed l good (cut_from item.uuid) (cut_from-IsGood item.uuid) in
    delete-IsWellFormed (record l { records = update_values (cut_from item.uuid) l.records })
      item.uuid d cut e

lifecycle_found-IsWellFormed :
    (action : LifecycleAction) (w : Write) (now : ℕ) (found : Option Record) (a b : Applied)
    → lookup w.uuid a.library.records ≡ found
    → IsWellFormed a.library
    → lifecycle_found action w now found a ≡ ok b
    → IsWellFormed b.library
unfolding lifecycle_found
lifecycle_found-IsWellFormed action w now none a b at good e = rw (← ok_inj e) good
lifecycle_found-IsWellFormed action w now (some item) a b at good e =
    let (d, changed, is) =
      >>=-eq-ok (lifecycle_records action w.uuid item now a.library.records) _ e in
    let g = found-IsGood a.library good w.uuid at in
    rw (← ok_inj is)
      (lifecycle_records-IsWellFormed action w.uuid item now a.library d good g changed)

pub lifecycle_item-IsWellFormed :
    (action : LifecycleAction) (w : Write) (now : ℕ) (a b : Applied)
    → IsWellFormed a.library
    → lifecycle_item action w now a ≡ ok b
    → IsWellFormed b.library
unfolding lifecycle_item
lifecycle_item-IsWellFormed action w now a b =
    lifecycle_found-IsWellFormed action w now (lookup w.uuid a.library.records) a b refl
