-- ===== src/Library/Verify/Actions.antt =====
-- `_MutationVerifier` and `MemoryLibrary.matches`: whether the library shows a batch of writes.
use things3_orchestrator.Prelude.{
  if◌then◌else◌, Result, ok, ◌>>=◌, Dict, lookup, insert, String, ◌==◌, Bool, true, false, not,
  ◌&&◌, ◌||◌, Option, none, some, List, [], ◌∷◌,
}
use things3_orchestrator.Json.{equal}
use things3_orchestrator.Library.Types.{
  Status, ChecklistLine, Record, EditAction, LifecycleAction, TagAction, RepeatAction, Action,
  create, edit, lifecycle, tag, checklist, recurrence, Write, Error, Library,
}
use things3_orchestrator.Library.Ids.{compile_mutation}
use things3_orchestrator.Library.Queries.{
  kind_eq, status_eq, is_none, same_text, or_else, tag_uuid, find_checklist,
}
use things3_orchestrator.Library.Handler.Create.{rule_value}
use things3_orchestrator.Library.Apply.{with_aliases}
use things3_orchestrator.Library.Verify.{
  same_day, same_texts, text_fits, status_fits, index_fits, pause_fits, placement_matches,
  patch_matches,
}
use things3_orchestrator.Recurrence.Types.{Role}

unfoldable pub create_matches : Bool → Write → Record → Bool
unfolding patch_matches
create_matches is_heading w item =
    kind_eq item.kind w.kind && (not is_heading || item.heading) && patch_matches true item w

unfoldable pub edit_matches : EditAction → Write → Record → Bool
unfolding patch_matches placement_matches same_texts
edit_matches EditAction.move w item = placement_matches item w
edit_matches EditAction.tags w item = same_texts item.tag_uuids (or_else w.tag_uuids [])
edit_matches EditAction.rename_area w item = same_text (some item.title) w.title
edit_matches EditAction.update w item = patch_matches false item w

unfoldable pub lifecycle_matches : LifecycleAction → Option Record → Bool
lifecycle_matches LifecycleAction.delete_area found = is_none found
lifecycle_matches LifecycleAction.permanent_delete found = is_none found
lifecycle_matches _ none = false
lifecycle_matches LifecycleAction.trash (some item) = item.trashed
lifecycle_matches LifecycleAction.restore (some item) = not item.trashed
lifecycle_matches LifecycleAction.complete (some item) = status_eq item.status Status.done
lifecycle_matches LifecycleAction.cancel (some item) = status_eq item.status Status.dropped

parent_fits : Option String → Option Record → Bool
parent_fits none parent = true
parent_fits (some uuid) none = false
parent_fits (some uuid) (some parent) = parent.uuid == uuid

has_no_role : Role → Bool
has_no_role Role.none = true
has_no_role _ = false

unfoldable pub line_matches : Write → Option (String × ChecklistLine) → Dict Record → Bool
unfolding parent_fits
line_matches w none d = w.checklist_remove
line_matches w (some found) d =
    not w.checklist_remove
    && text_fits w.title found.1.title
    && status_fits w.checklist_status found.1.status
    && parent_fits w.checklist_parent_uuid (lookup found.0 d)
    && index_fits w.checklist_index found.1.sort_index

unfoldable pub repeat_matches : RepeatAction → Write → Record → Bool
unfolding same_texts has_no_role equal
repeat_matches RepeatAction.repeat w item =
    if w.clear_recurrence_rule
    then has_no_role item.recurrence.role
    else if is_none w.recurrence_rule
    then true
    else equal (rule_value item.recurrence.rule) (rule_value w.recurrence_rule)
repeat_matches RepeatAction.repeat_link w item =
    same_texts item.recurrence.links (or_else w.recurrence_links [])
repeat_matches RepeatAction.repeat_next w item =
    not (is_none w.recurrence_instance_count)
    && index_fits w.recurrence_instance_count item.recurrence_instance_count
repeat_matches RepeatAction.repeat_progress w item =
    same_day item.recurrence_completed_on w.recurrence_completed_on
    && same_day item.recurrence_next_on w.recurrence_next_on

unfoldable pub recurrence_matches : RepeatAction → Write → Record → Bool
unfolding repeat_matches
recurrence_matches action w item =
    repeat_matches action w item && pause_fits w.recurrence_paused item.recurrence.paused

-- what the verifier asks of the item that stands under the write's uuid
unfoldable pub on_item : (Record → Bool) → Option Record → Bool
on_item test none = false
on_item test (some item) = test item

module _ (casefold : String → String) where
  unfoldable pub tag_matches : TagAction → Write → Library → Bool
  unfolding same_texts tag_uuid
  tag_matches TagAction.ensure_tag w l =
      let title = or_else w.title "" in
      same_text (lookup w.uuid l.tags) (some title) || not (is_none (tag_uuid casefold title l))
  tag_matches TagAction.rename_tag w l =
      same_text (lookup w.uuid l.tags) (some (or_else w.title ""))
  tag_matches TagAction.reparent_tag w l =
      same_texts (or_else (lookup w.uuid l.tag_parents) []) (or_else w.tag_parent_uuids [])
  tag_matches TagAction.delete_tag w l = is_none (lookup w.uuid l.tags)

  -- `_compile_mutation(write).dispatch(_MutationVerifier(self))`
  unfoldable pub action_matches : Action → Write → Library → Bool
  unfolding create_matches edit_matches lifecycle_matches line_matches recurrence_matches on_item
      tag_matches find_checklist
  action_matches (create is_heading) w l =
      on_item (create_matches is_heading w) (lookup w.uuid l.records)
  action_matches (edit action) w l = on_item (edit_matches action w) (lookup w.uuid l.records)
  action_matches (lifecycle action) w l = lifecycle_matches action (lookup w.uuid l.records)
  action_matches (tag action) w l = tag_matches action w l
  action_matches checklist w l = line_matches w (find_checklist w.uuid l) l.records
  action_matches (recurrence action) w l =
      on_item (recurrence_matches action w) (lookup w.uuid l.records)

  -- `_write_matches`
  unfoldable pub write_matches : Write → Library → Result Error Bool
  unfolding action_matches compile_mutation
  write_matches w l = do action ← compile_mutation w.action; ok (action_matches action w l)

  is_ensure : String → Bool
  is_ensure action = action == "ensure_tag"

  -- the tags that stand for those which the batch makes
  actual_tags : List Write → Library → Dict String
  unfolding is_ensure tag_uuid
  actual_tags writes l = collect writes []
    where
      collect : List Write → Dict String → Dict String
      collect [] aliases = aliases
      collect (w ∷ rest) aliases =
          elim (if is_ensure w.action then tag_uuid casefold (or_else w.title "") l else none) [
            | none ↦ collect rest aliases
            | some actual ↦ collect rest (insert w.uuid actual aliases)
          ]

  all_match : Dict String → List Write → Library → Result Error Bool
  unfolding write_matches with_aliases
  all_match aliases [] l = ok true
  all_match aliases (w ∷ rest) l = do
    first ← write_matches (with_aliases aliases w) l
    if first then all_match aliases rest l else ok false

  -- `matches`
  unfoldable pub matches : List Write → Library → Result Error Bool
  unfolding actual_tags all_match
  matches writes l = all_match (actual_tags writes l) writes l
