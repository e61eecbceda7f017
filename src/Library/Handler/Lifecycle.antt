-- ===== src/Library/Handler/Lifecycle.antt =====
-- The `lifecycle` of `_MemoryApplyHandler`.
use things3_orchestrator.Prelude.{
  if◌then◌else◌, Result, err, ok, ◌>>=◌, Dict, lookup, insert, erase, update_values, ℕ, String,
  true, false, Option, none, some,
}
use things3_orchestrator.Library.Types.{Status, Record, LifecycleAction, Write, Error, missing_key}
use things3_orchestrator.Library.Queries.{same_text}
use things3_orchestrator.Library.Handler.{Applied, with_records, verify}

unfoldable pub cut : String → Option String → Option String
cut uuid text = if same_text text (some uuid) then none else text

-- the item without its places in the deleted one
unfoldable pub cut_from : String → Record → Record
unfolding cut
cut_from uuid item = record item {
  parent_uuid = cut uuid item.parent_uuid;
  area_uuid = cut uuid item.area_uuid;
  heading_uuid = cut uuid item.heading_uuid;
}

-- `del self.library.records[uuid]`
unfoldable pub delete_record : String → Dict Record → Result Error (Dict Record)
delete_record uuid d = elim (lookup uuid d) [ none ↦ err missing_key | some _ ↦ ok (erase uuid d) ]

unfoldable pub finish : Record → Option ℕ → Status → Record
finish item now status = record item { status = status; completed_at = now }

-- the records after the change of the item that stands under the key
unfoldable pub lifecycle_records :
    LifecycleAction → String → Record → ℕ → Dict Record → Result Error (Dict Record)
unfolding delete_record finish update_values cut_from insert
lifecycle_records LifecycleAction.complete key item now d =
    ok (insert key (finish item (some now) Status.done) d)
lifecycle_records LifecycleAction.cancel key item now d =
    ok (insert key (finish item (some now) Status.dropped) d)
lifecycle_records LifecycleAction.delete_area key item now d = delete_record item.uuid d
lifecycle_records LifecycleAction.trash key item now d =
    ok (insert key (record item { trashed = true }) d)
lifecycle_records LifecycleAction.restore key item now d =
    ok (insert key (record item { trashed = false }) d)
lifecycle_records LifecycleAction.permanent_delete key item now d =
    delete_record item.uuid (update_values (cut_from item.uuid) d)

unfoldable pub lifecycle_found :
    LifecycleAction → Write → ℕ → Option Record → Applied → Result Error Applied
unfolding lifecycle_records
lifecycle_found action w now none a = ok a
lifecycle_found action w now (some item) a = do
  d ← lifecycle_records action w.uuid item now a.library.records
  ok (verify item.title (with_records d a))

-- `lifecycle`
unfoldable pub lifecycle_item : LifecycleAction → Write → ℕ → Applied → Result Error Applied
unfolding lifecycle_found
lifecycle_item action w now a = lifecycle_found action w now (lookup w.uuid a.library.records) a
