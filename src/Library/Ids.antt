-- ===== src/Library/Ids.antt =====
-- The helper functions of library.py on identifiers, time stamps and reminders, and
-- `_compile_mutation`.
use things3_orchestrator.Prelude.{
  if◌then◌else◌, Result, err, ok, is_colon, partition_colon, no_colon, partition_colon-append,
  String, ◌==◌, ◌≡◌, refl, true, false, Option, none, some, List, [], ◌∷◌,
}
use things3_orchestrator.Library.Types.{
  PublicKind, EditAction, LifecycleAction, TagAction, RepeatAction, Action, create, edit, lifecycle,
  tag, checklist, recurrence, Error, unknown_action,
}
use Prim.Native.String.{◌++◌}
use mathlib.Core.Option

-- `public_id`
unfoldable pub prefix_of : PublicKind → String
prefix_of PublicKind.task = "task"
prefix_of PublicKind.project = "project"
prefix_of PublicKind.area = "area"
prefix_of PublicKind.heading = "heading"

unfoldable pub public_id : PublicKind → String → String
unfolding prefix_of
public_id kind uuid = prefix_of kind ++ (":" ++ uuid)

unfoldable pub kind_of_prefix : String → Option PublicKind
kind_of_prefix s =
    if s == "task"
    then some PublicKind.task
    else if s == "project"
    then some PublicKind.project
    else if s == "area"
    then some PublicKind.area
    else if s == "heading"
    then some PublicKind.heading
    else none

parsed : String → String → Option PublicKind → Option PublicKind × String
parsed value rest none = (none, value)
parsed value rest (some kind) = if rest == "" then (none, value) else (some kind, rest)

unfoldable pub parse_id : String → Option PublicKind × String
unfolding partition_colon kind_of_prefix parsed
parse_id value = let parts = partition_colon value in parsed value parts.1 (kind_of_prefix parts.0)

prefix-no_colon : (kind : PublicKind) → no_colon (prefix_of kind) ≡ true
unfolding no_colon prefix_of is_colon
prefix-no_colon PublicKind.task = refl
prefix-no_colon PublicKind.project = refl
prefix-no_colon PublicKind.area = refl
prefix-no_colon PublicKind.heading = refl

kind_of_prefix-prefix_of : (kind : PublicKind) → kind_of_prefix (prefix_of kind) ≡ some kind
unfolding kind_of_prefix prefix_of
kind_of_prefix-prefix_of PublicKind.task = refl
kind_of_prefix-prefix_of PublicKind.project = refl
kind_of_prefix-prefix_of PublicKind.area = refl
kind_of_prefix-prefix_of PublicKind.heading = refl

-- A public identifier is read back as its kind and its uuid, which may hold colons itself, unless the
-- uuid is empty.
pub parse_id-public_id :
    (kind : PublicKind) (uuid : String)
    → (uuid == "") ≡ false
    → parse_id (public_id kind uuid) ≡ (some kind, uuid)
unfolding parse_id public_id parsed
parse_id-public_id kind uuid given =
    rw
      (
        partition_colon-append (prefix_of kind) uuid (prefix-no_colon kind),
        kind_of_prefix-prefix_of kind,
        given,
      )
      refl

edit_action : String → Option EditAction
edit_action s =
    if s == "update"
    then some EditAction.update
    else if s == "move"
    then some EditAction.move
    else if s == "tags"
    then some EditAction.tags
    else if s == "rename_area"
    then some EditAction.rename_area
    else none

lifecycle_action : String → Option LifecycleAction
lifecycle_action s =
    if s == "complete"
    then some LifecycleAction.complete
    else if s == "cancel"
    then some LifecycleAction.cancel
    else if s == "delete_area"
    then some LifecycleAction.delete_area
    else if s == "trash"
    then some LifecycleAction.trash
    else if s == "restore"
    then some LifecycleAction.restore
    else if s == "permanent_delete"
    then some LifecycleAction.permanent_delete
    else none

tag_action : String → Option TagAction
tag_action s =
    if s == "ensure_tag"
    then some TagAction.ensure_tag
    else if s == "rename_tag"
    then some TagAction.rename_tag
    else if s == "reparent_tag"
    then some TagAction.reparent_tag
    else if s == "delete_tag"
    then some TagAction.delete_tag
    else none

repeat_action : String → Option RepeatAction
repeat_action s =
    if s == "repeat"
    then some RepeatAction.repeat
    else if s == "repeat_link"
    then some RepeatAction.repeat_link
    else if s == "repeat_progress"
    then some RepeatAction.repeat_progress
    else if s == "repeat_next"
    then some RepeatAction.repeat_next
    else none

-- the first that is given, or an error
first_action : List (Option Action) → Result Error Action
first_action [] = err unknown_action
first_action (some a ∷ rest) = ok a
first_action (none ∷ rest) = first_action rest

create_action : String → Option Action
create_action s =
    if s == "create"
    then some (create false)
    else if s == "create_heading"
    then some (create true)
    else none

-- `_compile_mutation`
unfoldable pub compile_mutation : String → Result Error Action
unfolding first_action edit_action lifecycle_action tag_action repeat_action create_action
compile_mutation s = first_action (
    create_action s
    ∷ Option.map edit (edit_action s)
    ∷ Option.map lifecycle (lifecycle_action s)
    ∷ Option.map tag (tag_action s)
    ∷ (if s == "checklist" then some checklist else none)
    ∷ Option.map recurrence (repeat_action s)
    ∷ [])

action_text : Action → String
action_text (create false) = "create"
action_text (create true) = "create_heading"
action_text (edit EditAction.update) = "update"
action_text (edit EditAction.move) = "move"
action_text (edit EditAction.tags) = "tags"
action_text (edit EditAction.rename_area) = "rename_area"
action_text (lifecycle LifecycleAction.complete) = "complete"
action_text (lifecycle LifecycleAction.cancel) = "cancel"
action_text (lifecycle LifecycleAction.delete_area) = "delete_area"
action_text (lifecycle LifecycleAction.trash) = "trash"
action_text (lifecycle LifecycleAction.restore) = "restore"
action_text (lifecycle LifecycleAction.permanent_delete) = "permanent_delete"
action_text (tag TagAction.ensure_tag) = "ensure_tag"
action_text (tag TagAction.rename_tag) = "rename_tag"
action_text (tag TagAction.reparent_tag) = "reparent_tag"
action_text (tag TagAction.delete_tag) = "delete_tag"
action_text checklist = "checklist"
action_text (recurrence RepeatAction.repeat) = "repeat"
action_text (recurrence RepeatAction.repeat_link) = "repeat_link"
action_text (recurrence RepeatAction.repeat_progress) = "repeat_progress"
action_text (recurrence RepeatAction.repeat_next) = "repeat_next"
