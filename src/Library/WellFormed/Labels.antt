-- ===== src/Library/WellFormed/Labels.antt =====
-- The `tag` and `recurrence` of `_MemoryApplyHandler` on well-formed libraries.
use things3_orchestrator.Json.{JsonValue}
use things3_orchestrator.Library.Handler.Recurrence.{
  repeat_allowed, checked_template, changed_rule, counted, paused, repeat_record, repeat_found,
  recurrence_item,
}
use things3_orchestrator.Prelude.{
  Bool-cases, Option-cases, contains, ok, >>=-eq-ok, ok_inj, raise_if, Dict, lookup, erase,
  IsUnique, IsUnique-insert, IsUnique-erase, IsUnique-update_values, Every-update_values, String,
  ◌==◌, ◌≡◌, refl, inl, inr, not, ◌&&◌, ◌||◌, Option, some, List,
}
use things3_orchestrator.Library.Types.{
  Record, TagAction, RepeatAction, Write, no_such_tag, no_title, own_parent, no_such_parent,
  Library,
}
use things3_orchestrator.Library.Queries.{is_none, truthy_text, or_else, tag_uuid}
use things3_orchestrator.Library.Handler.{Applied, alias}
use things3_orchestrator.Library.Handler.Edit.{titles}
use things3_orchestrator.Library.Handler.Tag.{
  parents_of, without, all_known, add_alias, untag, drop_tag, new_tag, known_tag, apply_ensure_tag,
  apply_rename_tag, apply_reparent_tag, apply_delete_tag, tag_item,
}
use things3_orchestrator.Library.WellFormed.{
  placed, IsGood, IsWellFormed, save-IsWellFormed, found-IsGood,
}

-- Tags change under their uuids, and records only in their tags.
tagged :
    (l : Library) (titles : Dict String) (parents : Dict (List String))
    → IsWellFormed l
    → IsUnique titles
    → IsUnique parents
    → IsWellFormed (record l { tags = titles; tag_parents = parents })
tagged l titles parents good t p = record {
  good = good.good;
  unique_records = good.unique_records;
  unique_tags = t;
  unique_parents = p;
}

pub drop_tag-IsWellFormed :
    (uuid : String) (l : Library) → IsWellFormed l → IsWellFormed (drop_tag uuid l)
unfolding drop_tag untag placed
drop_tag-IsWellFormed uuid l good = record {
  good = Every-update_values IsGood (untag uuid) l.records (λ key item g. g) good.good;
  unique_records = IsUnique-update_values (untag uuid) l.records good.unique_records;
  unique_tags = IsUnique-erase uuid l.tags good.unique_tags;
  unique_parents =
      IsUnique-update_values (without uuid) (erase uuid l.tag_parents)
        (IsUnique-erase uuid l.tag_parents good.unique_parents);
}

module _ (casefold strip : String → String) where
  known_tag-IsWellFormed :
      (actual : String) (w : Write) (a : Applied)
      → IsWellFormed a.library
      → IsWellFormed (known_tag casefold strip actual w a).library
  unfolding known_tag add_alias
  known_tag-IsWellFormed actual w a good = elim (Bool-cases (is_none w.tag_parent_uuids)) [
    | inl kept ↦ rw kept (tagged a.library _ _ good good.unique_tags good.unique_parents)
    | inr given ↦ rw given (
        tagged a.library _ _ good good.unique_tags
          (IsUnique-insert actual (parents_of w a) a.library.tag_parents good.unique_parents))
  ]

  new_tag-IsWellFormed :
      (w : Write) (a : Applied)
      → IsWellFormed a.library
      → IsWellFormed (new_tag casefold strip w a).library
  unfolding new_tag add_alias
  new_tag-IsWellFormed w a good =
      tagged a.library _ _ good
        (IsUnique-insert w.uuid (or_else w.title "") a.library.tags good.unique_tags)
        (IsUnique-insert w.uuid (parents_of w a) a.library.tag_parents good.unique_parents)

  apply_ensure_tag-IsWellFormed :
      (w : Write) (a : Applied)
      → IsWellFormed a.library
      → IsWellFormed (apply_ensure_tag casefold strip w a).library
  unfolding apply_ensure_tag
  apply_ensure_tag-IsWellFormed w a good =
      elim (Option-cases (tag_uuid casefold (or_else w.title "") a.library)) [
        | inl new ↦ rw (new, apply_ensure_tag) (new_tag-IsWellFormed w a good)
        | inr (actual, known) ↦
            rw (known, apply_ensure_tag) (known_tag-IsWellFormed actual w a good)
      ]

  apply_rename_tag-IsWellFormed :
      (uuid : String) (w : Write) (a b : Applied)
      → IsWellFormed a.library
      → apply_rename_tag casefold strip uuid w a ≡ ok b
      → IsWellFormed b.library
  unfolding apply_rename_tag
  apply_rename_tag-IsWellFormed uuid w a b good e =
      let (_, _, e1) =
        >>=-eq-ok (raise_if (is_none (lookup uuid a.library.tags)) no_such_tag) _ e in
      let (_, _, e2) =
        >>=-eq-ok
          (raise_if (not (truthy_text w.title) || strip (or_else w.title "") == "") no_title) _
          e1 in
      rw (← ok_inj e2) (
        tagged a.library _ _ good
          (IsUnique-insert uuid (strip (or_else w.title "")) a.library.tags good.unique_tags)
          good.unique_parents)

  apply_reparent_tag-IsWellFormed :
      (uuid : String) (w : Write) (a b : Applied)
      → IsWellFormed a.library
      → apply_reparent_tag casefold strip uuid w a ≡ ok b
      → IsWellFormed b.library
  unfolding apply_reparent_tag
  apply_reparent_tag-IsWellFormed uuid w a b good e =
      let parents = parents_of w a in
      let (_, _, e1) =
        >>=-eq-ok (raise_if (is_none (lookup uuid a.library.tags)) no_such_tag) _ e in
      let (_, _, e2) = >>=-eq-ok (raise_if (contains uuid parents) own_parent) _ e1 in
      let (_, _, e3) =
        >>=-eq-ok (raise_if (not (all_known parents a.library.tags)) no_such_parent) _ e2 in
      rw (← ok_inj e3) (
        tagged a.library _ _ good good.unique_tags
          (IsUnique-insert uuid parents a.library.tag_parents good.unique_parents))

  pub tag_item-IsWellFormed :
      (action : TagAction) (w : Write) (a b : Applied)
      → IsWellFormed a.library
      → tag_item casefold strip action w a ≡ ok b
      → IsWellFormed b.library
  unfolding tag_item apply_delete_tag
  tag_item-IsWellFormed TagAction.ensure_tag w a b good e =
      rw (← ok_inj e) (apply_ensure_tag-IsWellFormed w a good)
  tag_item-IsWellFormed TagAction.rename_tag w a b good e =
      apply_rename_tag-IsWellFormed (alias a.tag_aliases w.uuid) w a b good e
  tag_item-IsWellFormed TagAction.reparent_tag w a b good e =
      apply_reparent_tag-IsWellFormed (alias a.tag_aliases w.uuid) w a b good e
  tag_item-IsWellFormed TagAction.delete_tag w a b good e =
      rw (← ok_inj e) (drop_tag-IsWellFormed (alias a.tag_aliases w.uuid) a.library good)

changed_rule-IsGood :
    (w : Write) (key : String) (item : Record) → IsGood key item → IsGood key (changed_rule w item)
unfolding changed_rule placed
changed_rule-IsGood w key item g =
    elim (Bool-cases (is_none w.recurrence_rule && not w.clear_recurrence_rule)) [
      | inl same ↦ rw (same, changed_rule) g
      | inr other ↦ rw (other, changed_rule) g
    ]

counted-IsGood :
    (w : Write) (key : String) (item : Record) → IsGood key item → IsGood key (counted w item)
unfolding counted placed
counted-IsGood w key item g = elim (Option-cases w.recurrence_instance_count) [
  | inl missing ↦ rw (missing, counted) g
  | inr (count, given) ↦ rw (given, counted) g
]

paused-IsGood :
    (w : Write) (key : String) (item : Record) → IsGood key item → IsGood key (paused w item)
unfolding paused placed
paused-IsGood w key item g = elim (Bool-cases (is_none w.recurrence_paused)) [
  | inl same ↦ rw (same, paused) g
  | inr other ↦ rw (other, paused) g
]

module _ (py_str : JsonValue → String) where
  -- A recurrence write changes no more of a record than its recurrence.
  repeat_record-IsGood :
      (action : RepeatAction) (w : Write) (key : String) (item next : Record)
      → IsGood key item
      → repeat_record py_str action w item ≡ ok next
      → IsGood key next
  unfolding repeat_record placed
  repeat_record-IsGood RepeatAction.repeat w key item next g e =
      let (_, _, is) = >>=-eq-ok (checked_template item) _ e in
      rw (← ok_inj is) (changed_rule-IsGood w key item g)
  repeat_record-IsGood RepeatAction.repeat_link w key item next g e = rw (← ok_inj e) g
  repeat_record-IsGood RepeatAction.repeat_next w key item next g e =
      rw (← ok_inj e) (counted-IsGood w key item g)
  repeat_record-IsGood RepeatAction.repeat_progress w key item next g e = rw (← ok_inj e) g

  repeat_found-IsWellFormed :
      (action : RepeatAction) (w : Write) (found : Option Record) (a b : Applied)
      → lookup w.uuid a.library.records ≡ found
      → IsWellFormed a.library
      → repeat_found py_str action w found a ≡ ok b
      → IsWellFormed b.library
  unfolding repeat_found
  repeat_found-IsWellFormed action w Option.none a b at good e = rw (← ok_inj e) good
  repeat_found-IsWellFormed action w (some item) a b at good e =
      let (next, changed, is) = >>=-eq-ok (repeat_record py_str action w item) _ e in
      let g = found-IsGood a.library good w.uuid at in
      let g2 = repeat_record-IsGood action w w.uuid item next g changed in
      rw (← ok_inj is)
        (save-IsWellFormed a.library good w.uuid (paused w next) (paused-IsGood w w.uuid next g2))

  pub recurrence_item-IsWellFormed :
      (action : RepeatAction) (w : Write) (a b : Applied)
      → IsWellFormed a.library
      → recurrence_item py_str action w a ≡ ok b
      → IsWellFormed b.library
  unfolding recurrence_item
  recurrence_item-IsWellFormed action w a b good e =
      let found = lookup w.uuid a.library.records in
      let (_, _, e1) = >>=-eq-ok (repeat_allowed action w found) _ e in
      repeat_found-IsWellFormed action w found a b refl good e1
