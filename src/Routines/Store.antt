-- ===== src/Routines/Store.antt =====
-- Reducing Cloud events to candidates and trigger tags: `_reduce_tag` and `_reduce_task` of
-- `RoutineStore`. A page that `history_groups` read has nothing but texts in a list of tags.
pub mod Reduce
use things3_orchestrator.Prelude.{
  leb, nat_eq, if◌then◌else◌, contains, pos, err, ok, ◌>>=◌, ◌>>◌, lookup, insert, erase, ℕ, ◌+◌,
  String, ◌==◌, Bool, not, ◌&&◌, Option, none, some, List, [], ◌∷◌, ◌++◌,
}
use things3_orchestrator.Json.{
  JsonValue, str, list, get, has_key, values, equals_int, equals_text, truthy,
}
use things3_orchestrator.Routines.Types.{
  HistoryEvent, TaskKind, Lifecycle, Candidate, Database, Profile, constraint, unbindable, Stored,
}

unfoldable pub task_kind_of : JsonValue → TaskKind
unfolding equals_int
task_kind_of v =
    if equals_int v (pos 0)
    then TaskKind.task
    else if equals_int v (pos 1)
    then TaskKind.project
    else if equals_int v (pos 2)
    then TaskKind.heading
    else TaskKind.unknown

unfoldable pub lifecycle_of : JsonValue → Lifecycle
unfolding equals_int
lifecycle_of v =
    if equals_int v (pos 0)
    then Lifecycle.opened
    else if equals_int v (pos 3)
    then Lifecycle.done
    else if equals_int v (pos 2)
    then Lifecycle.dropped
    else Lifecycle.unknown

-- `DELETE FROM ai_tags WHERE tag_uuid = ?`
unfoldable pub without : String → List String → List String
without tag [] = []
without tag (t ∷ ts) = let rest = without tag ts in if t == tag then rest else t ∷ rest

-- `INSERT OR IGNORE INTO ai_tags`
unfoldable pub with_tag : String → List String → List String
with_tag tag tags = if contains tag tags then tags else tags ++ (tag ∷ [])

abbrev pub set_ai_tags : List String → Database → Database
set_ai_tags tags db = record db { ai_tags = tags }

unfoldable pub reduce_tag : HistoryEvent → Database → Database
unfolding without with_tag
reduce_tag event db =
    if nat_eq event.action 2
    then set_ai_tags (without event.uuid db.ai_tags) db
    else if not (has_key "tt" event.payload) && nat_eq event.action 1
    then db
    else if equals_text (get "tt" event.payload) "AI"
    then set_ai_tags (with_tag event.uuid db.ai_tags) db
    else set_ai_tags (without event.uuid db.ai_tags) db

-- `DELETE FROM candidate_tags WHERE task_uuid = ?`
unfoldable pub untagged : String → List (String × String) → List (String × String)
untagged uuid [] = []
untagged uuid (pair ∷ pairs) =
    let rest = untagged uuid pairs in if pair.0 == uuid then rest else pair ∷ rest

-- `DELETE FROM candidates WHERE task_uuid = ?`, which takes the candidate's tags along
unfoldable pub delete_candidate : String → Database → Database
unfolding untagged
delete_candidate uuid db = record db {
  candidates = erase uuid db.candidates;
  candidate_tags = untagged uuid db.candidate_tags;
}

-- the `CHECK` constraints of `candidates`
abbrev pub candidate_fits : Candidate → Bool
candidate_fits c =
    leb c.first_observed_at c.last_observed_at && leb c.last_observed_at c.settle_after

unfoldable pub write_candidate : String → Candidate → Database → Stored Database
write_candidate uuid c db =
    if candidate_fits c
    then ok (record db { candidates = insert uuid c db.candidates })
    else err constraint

unfoldable pub new_candidate : Profile → HistoryEvent → ℕ → ℕ → Candidate
unfolding task_kind_of lifecycle_of
new_candidate profile event group observed_at = record {
  creation_group = group;
  task_kind = task_kind_of (get "tp" event.payload);
  lifecycle = lifecycle_of (get "ss" event.payload);
  trashed = truthy (get "tr" event.payload);
  first_observed_at = observed_at;
  last_observed_at = observed_at;
  settle_after = observed_at + profile.settle_seconds;
}

unfoldable pub changed_candidate : Profile → HistoryEvent → ℕ → Candidate → Candidate
unfolding task_kind_of lifecycle_of
changed_candidate profile event observed_at c =
    let p = event.payload in
    record c {
      task_kind = if has_key "tp" p then task_kind_of (get "tp" p) else c.task_kind;
      lifecycle = if has_key "ss" p then lifecycle_of (get "ss" p) else c.lifecycle;
      trashed = if has_key "tr" p then truthy (get "tr" p) else c.trashed;
      last_observed_at = observed_at;
      settle_after = observed_at + profile.settle_seconds;
    }

unfoldable pub tag_texts : List JsonValue → Stored (List String)
tag_texts [] = ok []
tag_texts (str s ∷ vs) = do ts ← tag_texts vs; ok (s ∷ ts)
tag_texts (_ ∷ vs) = err unbindable

unfoldable pub tag_list : JsonValue → Stored (List String)
unfolding tag_texts
tag_list (list vs) = tag_texts (values vs)
tag_list _ = err unbindable

-- one `INSERT INTO candidate_tags` for each tag; a repeated one breaks the primary key
unfoldable pub insert_tags :
    String → List String → List (String × String) → Stored (List (String × String))
insert_tags uuid [] pairs = ok pairs
insert_tags uuid (t ∷ ts) pairs =
    let rest = insert_tags uuid ts pairs in
    if contains t ts then err constraint else do later ← rest; ok ((uuid, t) ∷ later)

unfoldable pub write_tags : HistoryEvent → Database → Stored Database
unfolding tag_list insert_tags untagged
write_tags event db =
    if has_key "tg" event.payload
    then (do
      tags ← tag_list (get "tg" event.payload)
      pairs ← insert_tags event.uuid tags (untagged event.uuid db.candidate_tags)
      ok (record db { candidate_tags = pairs }))
    else ok db

unfoldable pub change_task :
    Profile → HistoryEvent → ℕ → Option Candidate → Database → Stored Database
change_task profile event observed_at none db = ok db
change_task profile event observed_at (some c) db = do
  changed ← write_candidate event.uuid (changed_candidate profile event observed_at c) db
  write_tags event changed

-- what a created task writes once the old candidate is gone
unfoldable pub create_task : Profile → HistoryEvent → ℕ → ℕ → Database → Stored Database
create_task profile event group observed_at db = do
  created ← write_candidate event.uuid (new_candidate profile event group observed_at) db
  write_tags event created

unfoldable pub reduce_task : Profile → HistoryEvent → ℕ → ℕ → Database → Stored Database
unfolding create_task
reduce_task profile event group observed_at db =
    if nat_eq event.action 2
    then ok (delete_candidate event.uuid db)
    else if nat_eq event.action 0
    then create_task profile event group observed_at (delete_candidate event.uuid db)
    else change_task profile event observed_at (lookup event.uuid db.candidates) db
