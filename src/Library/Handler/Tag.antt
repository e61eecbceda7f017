-- ===== src/Library/Handler/Tag.antt =====
-- The `tag` of `_MemoryApplyHandler`.
use things3_orchestrator.Prelude.{
  if◌then◌else◌, contains, Result, ok, ◌>>◌, raise_if, Dict, lookup, insert, erase, update_values,
  String, ◌==◌, Bool, true, not, ◌&&◌, ◌||◌, none, some, List, [], ◌∷◌,
}
use things3_orchestrator.Library.Types.{
  Record, TagAction, Write, Error, no_such_tag, no_title, own_parent, no_such_parent, Library,
}
use things3_orchestrator.Library.Queries.{is_none, truthy_text, or_else, tag_uuid}
use things3_orchestrator.Library.Handler.{Applied, with_tags, verify, add_created, alias}

-- `[self.tag_aliases.get(parent, parent) for parent in (write.tag_parent_uuids or [])]`
unfoldable pub aliased : Dict String → List String → List String
unfolding alias
aliased aliases [] = []
aliased aliases (uuid ∷ uuids) = alias aliases uuid ∷ aliased aliases uuids

unfoldable pub parents_of : Write → Applied → List String
unfolding aliased
parents_of w a = aliased a.tag_aliases (or_else w.tag_parent_uuids [])

-- `[tag for tag in tags if tag != uuid]`
unfoldable pub without : String → List String → List String
without uuid [] = []
without uuid (other ∷ others) =
    if other == uuid then without uuid others else other ∷ without uuid others

-- every parent is a tag
unfoldable pub all_known : List String → Dict String → Bool
all_known [] titles = true
all_known (uuid ∷ uuids) titles = not (is_none (lookup uuid titles)) && all_known uuids titles

unfoldable pub add_alias : String → String → Applied → Applied
add_alias uuid actual a = record a { tag_aliases = insert uuid actual a.tag_aliases }

unfoldable pub untag : String → Record → Record
unfolding without
untag uuid item = record item { tag_uuids = without uuid item.tag_uuids }

-- the library without the tag, its parents, and every mention of it
unfoldable pub drop_tag : String → Library → Library
unfolding untag without
drop_tag uuid l = record {
  records = update_values (untag uuid) l.records;
  tags = erase uuid l.tags;
  tag_parents = update_values (without uuid) (erase uuid l.tag_parents);
}

module _ (casefold strip : String → String) where
  unfoldable pub new_tag : Write → Applied → Applied
  unfolding parents_of add_alias
  new_tag w a =
      let title = or_else w.title "" in
      let l = a.library in
      add_created (if title == "" then w.uuid else title) w.uuid (
        add_alias w.uuid w.uuid
          (with_tags (insert w.uuid title l.tags) (insert w.uuid (parents_of w a) l.tag_parents) a))

  unfoldable pub known_tag : String → Write → Applied → Applied
  unfolding parents_of add_alias
  known_tag actual w a =
      let title = or_else w.title "" in
      let l = a.library in
      let parents =
        if is_none w.tag_parent_uuids
        then l.tag_parents
        else insert actual (parents_of w a) l.tag_parents in
      add_created (if title == "" then actual else title) actual
        (with_tags l.tags parents (add_alias w.uuid actual a))

  unfoldable pub apply_ensure_tag : Write → Applied → Applied
  unfolding new_tag known_tag tag_uuid
  apply_ensure_tag w a = elim (tag_uuid casefold (or_else w.title "") a.library) [
    | none ↦ new_tag w a
    | some actual ↦ known_tag actual w a
  ]

  unfoldable pub apply_rename_tag : String → Write → Applied → Result Error Applied
  apply_rename_tag uuid w a = do
    let l = a.library
    let title = strip (or_else w.title "")
    raise_if (is_none (lookup uuid l.tags)) no_such_tag
    raise_if (not (truthy_text w.title) || title == "") no_title
    ok (verify title (with_tags (insert uuid title l.tags) l.tag_parents a))

  unfoldable pub apply_reparent_tag : String → Write → Applied → Result Error Applied
  unfolding parents_of all_known
  apply_reparent_tag uuid w a = do
    let l = a.library
    let parents = parents_of w a
    raise_if (is_none (lookup uuid l.tags)) no_such_tag
    raise_if (contains uuid parents) own_parent
    raise_if (not (all_known parents l.tags)) no_such_parent
    ok (
        verify (or_else (lookup uuid l.tags) "")
          (with_tags l.tags (insert uuid parents l.tag_parents) a))

  unfoldable pub apply_delete_tag : String → Write → Applied → Applied
  unfolding drop_tag
  apply_delete_tag uuid w a =
      let given = if truthy_text w.title then or_else w.title "" else uuid in
      verify (or_else (lookup uuid a.library.tags) given)
        (record a { library = drop_tag uuid a.library })

  -- `tag`
  unfoldable pub tag_item : TagAction → Write → Applied → Result Error Applied
  unfolding apply_ensure_tag apply_rename_tag apply_reparent_tag apply_delete_tag alias
  tag_item TagAction.ensure_tag w a = ok (apply_ensure_tag w a)
  tag_item TagAction.rename_tag w a = apply_rename_tag (alias a.tag_aliases w.uuid) w a
  tag_item TagAction.reparent_tag w a = apply_reparent_tag (alias a.tag_aliases w.uuid) w a
  tag_item TagAction.delete_tag w a = ok (apply_delete_tag (alias a.tag_aliases w.uuid) w a)
