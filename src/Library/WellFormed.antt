-- ===== src/Library/WellFormed.antt =====
-- What every record of a library satisfies, for the writes and the fold of `library.py`.
pub mod Edits
pub mod Handlers
pub mod Rows
pub mod Labels
pub mod Batch
pub mod Forgotten
use things3_orchestrator.Prelude.{
  Bool-cases, Option-cases, All, Dict, lookup, insert, erase, update_values, Every, IsUnique,
  IsUnique-insert, IsUnique-erase, IsUnique-update_values, Every-lookup, Every-insert, Every-erase,
  Every-update_values, String, ◌==◌, ◌≡◌, inl, inr, Bool, true, not, ◌&&◌, ◌||◌, some, List, [],
  ◌∷◌, map,
}
use things3_orchestrator.Library.Types.{Status, ChecklistLine, Record, Library}
use things3_orchestrator.Library.Queries.{
  status_eq, is_none, template_uuid_of, without_line, line_le, place_line, sort_lines,
  resolve_record, resolve_keys, resolve_instance_types,
}

-- An item is in at most one of Inbox, a Project and an area, and what is in Inbox is neither in
-- Someday nor on for tonight.
unfoldable pub placed : Record → Bool
placed item =
    not (item.inbox && (not (is_none item.parent_uuid) || not (is_none item.area_uuid)))
    && not (item.inbox && (item.someday || item.tonight))
    && (is_none item.parent_uuid || is_none item.area_uuid)

-- A row is done when its status is.
abbrev pub IsCoherentLine : ChecklistLine → Type 0
IsCoherentLine line = line.done ≡ status_eq line.status Status.done

-- The record stands under its own uuid, has one place, and its rows are coherent.
abbrev pub IsGood : String → Record → Type 0
IsGood key item = (item.uuid ≡ key) × (placed item ≡ true) × All IsCoherentLine item.checklists

pub record IsWellFormed (l : Library) : Type 0 where
  pub good : Every IsGood l.records
  pub unique_records : IsUnique l.records
  pub unique_tags : IsUnique l.tags
  pub unique_parents : IsUnique l.tag_parents

pub All-without_line :
    (uuid : String) (lines : List ChecklistLine)
    → All IsCoherentLine lines
    → All IsCoherentLine (without_line uuid lines)
unfolding without_line
All-without_line uuid [] h = tt
All-without_line uuid (line ∷ lines) h = elim (Bool-cases (line.uuid == uuid)) [
  | inl same ↦ rw same (All-without_line uuid lines h.1)
  | inr other ↦ rw other (h.0, All-without_line uuid lines h.1)
]

pub All-place_line :
    (line : ChecklistLine) (lines : List ChecklistLine)
    → IsCoherentLine line
    → All IsCoherentLine lines
    → All IsCoherentLine (place_line line lines)
unfolding place_line
All-place_line line [] p h = (p, tt)
All-place_line line (other ∷ lines) p h = elim (Bool-cases (line_le line other)) [
  | inl le ↦ rw le (p, h)
  | inr gt ↦ rw gt (h.0, All-place_line line lines p h.1)
]

pub All-sort_lines :
    (lines : List ChecklistLine) → All IsCoherentLine lines → All IsCoherentLine (sort_lines lines)
unfolding sort_lines
All-sort_lines [] h = tt
All-sort_lines (line ∷ lines) h =
    All-place_line line (sort_lines lines) h.0 (All-sort_lines lines h.1)

module _ (l : Library) (w : IsWellFormed l) where
  -- a record is written back under its uuid
  pub save-IsWellFormed :
      (key : String) (item : Record)
      → IsGood key item
      → IsWellFormed (record l { records = insert key item l.records })
  save-IsWellFormed key item g = record {
    good = Every-insert IsGood key item l.records g w.good;
    unique_records = IsUnique-insert key item l.records w.unique_records;
    unique_tags = w.unique_tags;
    unique_parents = w.unique_parents;
  }

  pub erase-IsWellFormed :
      (key : String) → IsWellFormed (record l { records = erase key l.records })
  erase-IsWellFormed key = record {
    good = Every-erase IsGood key l.records w.good;
    unique_records = IsUnique-erase key l.records w.unique_records;
    unique_tags = w.unique_tags;
    unique_parents = w.unique_parents;
  }

  pub update-IsWellFormed :
      (f : Record → Record)
      → ((key : String) (item : Record) → IsGood key item → IsGood key (f item))
      → IsWellFormed (record l { records = update_values f l.records })
  update-IsWellFormed f keep = record {
    good = Every-update_values IsGood f l.records keep w.good;
    unique_records = IsUnique-update_values f l.records w.unique_records;
    unique_tags = w.unique_tags;
    unique_parents = w.unique_parents;
  }

  pub found-IsGood :
      (key : String) {item : Record} → lookup key l.records ≡ some item → IsGood key item
  found-IsGood key found = Every-lookup IsGood key l.records w.good found

resolved-IsGood :
    (key : String) (item : Record) (d : Dict Record)
    → IsGood key item
    → IsGood key (resolve_record item d)
unfolding resolve_record placed
resolved-IsGood key item d g = elim (Option-cases (template_uuid_of item)) [
  | inl missing ↦ rw (missing, resolve_record) g
  | inr (target, found) ↦ rw (found, resolve_record) g
]

resolve_keys-keep :
    (keys : List String) (d : Dict Record)
    → Every IsGood d
    → IsUnique d
    → Every IsGood (resolve_keys keys d) × IsUnique (resolve_keys keys d)
unfolding resolve_keys
resolve_keys-keep [] d g u = (g, u)
resolve_keys-keep (key ∷ keys) d g u = elim (Option-cases (lookup key d)) [
  | inl missing ↦ rw (missing, resolve_keys) (resolve_keys-keep keys d g u)
  | inr (item, found) ↦
      let item_good = resolved-IsGood key item d (Every-lookup IsGood key d g found) in
      rw (found, resolve_keys)
        (resolve_keys-keep keys (insert key (resolve_record item d) d)
          (Every-insert IsGood key (resolve_record item d) d item_good g)
          (IsUnique-insert key (resolve_record item d) d u))
]

pub resolve_instance_types-IsWellFormed :
    (l : Library) → IsWellFormed l → IsWellFormed (resolve_instance_types l)
unfolding resolve_instance_types
resolve_instance_types-IsWellFormed l w =
    let kept =
      resolve_keys-keep (map (λ entry. entry.0) l.records) l.records w.good w.unique_records in
    record {
      good = kept.0;
      unique_records = kept.1;
      unique_tags = w.unique_tags;
      unique_parents = w.unique_parents;
    }
