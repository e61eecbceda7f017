-- ===== src/Library/Tests.antt =====
-- Concrete runs of the library, and the theorems on them.
use things3_orchestrator.Prelude.{
  contains, pos, ok, lookup, erase, update_values, Every, String, ◌≡◌, refl, true, false, none,
  some, [], ◌∷◌,
}
use things3_orchestrator.Json.{JsonValue}
use things3_orchestrator.Library.Types.{
  Kind, PublicKind, Record, plain_record, LifecycleAction, Write, Library,
}
use things3_orchestrator.Library.Ids.{public_id, parse_id, parse_id-public_id}
use things3_orchestrator.Library.Queries.{is_open}
use things3_orchestrator.Library.Handler.{Applied, new_handler, with_records, save}
use things3_orchestrator.Library.Handler.Edit.{place_item}
use things3_orchestrator.Library.Handler.Lifecycle.{
  cut, cut_from, delete_record, lifecycle_records, lifecycle_found, lifecycle_item,
}
use things3_orchestrator.Library.Handler.Tag.{drop_tag}
use things3_orchestrator.Library.WellFormed.{placed, IsWellFormed}
use things3_orchestrator.Library.Apply.{apply}
use things3_orchestrator.Library.WellFormed.Batch.{apply-IsWellFormed}
use things3_orchestrator.Library.WellFormed.Forgotten.{
  names_place, deleted-names, drop_tag-contains,
}
use things3_orchestrator.Library.Views.{
  select, sort_by, then_by, compare_ℤ, not_after, on_or_before, issue, today_le, is_due, today,
}

abbrev py_str : JsonValue → String
py_str v = "?"

abbrev same : String → String
same s = s

abbrev home : Record
home = record (plain_record "P1" Kind.project "Home") { sort_index = pos 1024 }

abbrev paint : Record
paint = record (plain_record "T1" Kind.task "Paint") {
  parent_uuid = some "P1";
  deadline = some 739000;
  tag_uuids = "G1" ∷ [];
}

abbrev call : Record
call = record (plain_record "T2" Kind.task "Call") { tonight = true }

abbrev sample : Library
sample = record {
  records = ("P1", home) ∷ ("T1", paint) ∷ ("T2", call) ∷ [];
  tags = ("G1", "errand") ∷ [];
  tag_parents = ("G1", []) ∷ [];
}

sample-IsWellFormed : IsWellFormed sample
unfolding placed lookup
sample-IsWellFormed = record {
  good = ((refl, refl, tt), ((refl, refl, tt), ((refl, refl, tt), tt)));
  unique_records = (refl, (refl, (refl, tt)));
  unique_tags = (refl, tt);
  unique_parents = (refl, tt);
}

-- `Write(action=…, uuid=…, kind=…)`
abbrev pub plain_write : String → String → Kind → Write
plain_write action uuid kind = record {
  action = action;
  uuid = uuid;
  kind = kind;
  title = none;
  notes = none;
  status = none;
  into_uuid = none;
  into_kind = none;
  start = none;
  clear_start = false;
  deadline = none;
  clear_deadline = false;
  remind = none;
  clear_remind = false;
  tag_uuids = none;
  tonight = false;
  someday = false;
  inbox = false;
  anytime = false;
  heading_uuid = none;
  clear_heading = false;
  sort_index = none;
  today_index = none;
  owner_today = none;
  checklist_parent_uuid = none;
  checklist_status = none;
  checklist_index = none;
  checklist_remove = false;
  recurrence_rule = none;
  clear_recurrence_rule = false;
  recurrence_links = none;
  recurrence_paused = none;
  recurrence_created_through = none;
  recurrence_instance_count = none;
  recurrence_completed_on = none;
  recurrence_next_on = none;
  tag_parent_uuids = none;
  leavable = false;
}

abbrev defer : Write
defer = record (plain_write "update" "T2" Kind.task) { someday = true; title = some "Call back" }

abbrev drop_home : Write
drop_home = plain_write "permanent_delete" "P1" Kind.project

parse_id-public_id_example :
    parse_id (public_id PublicKind.task "a:b") ≡ (some PublicKind.task, "a:b")
parse_id-public_id_example = parse_id-public_id PublicKind.task "a:b" refl

apply-IsWellFormed_example :
    IsWellFormed (apply py_str same same ((defer, 5) ∷ (drop_home, 6) ∷ []) sample).1
apply-IsWellFormed_example =
    apply-IsWellFormed py_str same same ((defer, 5) ∷ (drop_home, 6) ∷ []) sample
      sample-IsWellFormed

abbrev deferred : Record
deferred = record call { title = "Call back"; someday = true; tonight = false }

abbrev after_defer : Applied
after_defer = record (save "T2" deferred (new_handler sample)) { verified = "Call back" ∷ [] }

today_lists : today 739001 sample ≡ paint ∷ call ∷ []
unfolding today today_le is_due select sort_by place_item issue is_open on_or_before then_by
    not_after compare_ℤ
today_lists = refl

abbrev after_drop : Applied
after_drop =
    record (with_records (("T1", record paint { parent_uuid = none }) ∷ ("T2", call) ∷ [])
      (new_handler sample)) { verified = "Home" ∷ [] }

drop_runs :
    lifecycle_item LifecycleAction.permanent_delete drop_home 6 (new_handler sample) ≡ ok after_drop
unfolding lifecycle_item lifecycle_found lifecycle_records delete_record update_values cut_from cut
    erase lookup
drop_runs = refl

home_there : lookup drop_home.uuid sample.records ≡ some home
unfolding lookup
home_there = refl

deleted-names_example :
    (lookup "P1" after_drop.library.records ≡ none)
    × Every (λ key r. names_place "P1" r ≡ false) after_drop.library.records
deleted-names_example =
    deleted-names drop_home 6 home (new_handler sample) after_drop sample-IsWellFormed home_there
      drop_runs

drop_tag-contains_example :
    (lookup "G1" (drop_tag "G1" sample).tags ≡ none)
    × (lookup "G1" (drop_tag "G1" sample).tag_parents ≡ none)
    × Every (λ key r. contains "G1" r.tag_uuids ≡ false) (drop_tag "G1" sample).records
    × Every (λ key ts. contains "G1" ts ≡ false) (drop_tag "G1" sample).tag_parents
drop_tag-contains_example = drop_tag-contains "G1" sample sample-IsWellFormed
