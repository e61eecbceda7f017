-- ===== src/Library/Handler.antt =====
-- `_MemoryApplyHandler` and `MemoryLibrary.apply`. What a handler assigns to an item is written back
-- under the item's key. A write that raises ends the batch, and `apply` restores the snapshot, so a
-- batch that raises leaves the library as it was. `casefold` and `strip` are Python's, `now` the
-- moment that the clock gives.
pub mod Create
pub mod Edit
pub mod Lifecycle
pub mod Tag
pub mod Checklist
pub mod Recurrence
use things3_orchestrator.Prelude.{
  if◌then◌else◌, Dict, lookup, insert, ℕ, String, Bool, true, false, ◌&&◌, Option, none, some, List,
  [], ◌∷◌, ◌++◌,
}
use things3_orchestrator.Library.Types.{project, Status, Record, tags, Write, Library}
use things3_orchestrator.Library.Queries.{same_text, truthy_text, text_or, or_else}

-- the handler's library with `created`, `verified` and `tag_aliases`
pub record Applied : Type 0 where
  pub library : Library
  pub created : Dict String
  pub verified : List String
  pub tag_aliases : Dict String

abbrev pub new_handler : Library → Applied
new_handler l = record { library = l; created = []; verified = []; tag_aliases = [] }

abbrev pub with_records : Dict Record → Applied → Applied
with_records d a = record a { library = record a.library { records = d } }

abbrev pub with_tags : Dict String → Dict (List String) → Applied → Applied
with_tags titles parents a = record a {
  library = record a.library { tags = titles; tag_parents = parents };
}

-- `self.verified.append(title)`
abbrev pub verify : String → Applied → Applied
verify title a = record a { verified = a.verified ++ (title ∷ []) }

-- `self.created[title] = id`
abbrev pub add_created : String → String → Applied → Applied
add_created title id a = record a { created = insert title id a.created }

-- an item is written back under its key
abbrev pub save : String → Record → Applied → Applied
save key item a = with_records (insert key item a.library.records) a

-- `self.tag_aliases.get(uuid, uuid)`
unfoldable pub alias : Dict String → String → String
alias aliases uuid = or_else (lookup uuid aliases) uuid

abbrev pub settles : Option Status → Bool
settles (some Status.done) = true
settles (some Status.dropped) = true
settles _ = false

-- `datetime.now(timezone.utc) if write.status in {"done", "dropped"} else None`
abbrev pub completion : Option Status → ℕ → Option ℕ
completion status now = if settles status then some now else none

-- `_validate_heading`
unfoldable pub heading_fits : Write → Library → Bool
heading_fits w l = elim w.heading_uuid [
  | none ↦ true
  | some heading_uuid ↦ elim (lookup heading_uuid l.records) [
    | none ↦ false
    | some h ↦
        let current = lookup w.uuid l.records in
        let parent : Option String = elim current [ none ↦ none | some item ↦ item.parent_uuid ] in
        let project = text_or w.into_uuid (text_or parent h.parent_uuid) in
        h.heading && truthy_text project && same_text h.parent_uuid project
  ]
]
