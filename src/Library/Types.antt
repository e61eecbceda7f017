-- ===== src/Library/Types.antt =====
-- The data of library.py: literals, `ChecklistLine`, `Record`, `Write`, the library's three dicts,
-- and what its functions raise.
use things3_orchestrator.Recurrence.Types as Recurrence
use things3_orchestrator.Prelude.{
  ℤ, pos, Dict, ℕ, String, Bool, true, false, Option, none, List, [],
}
use things3_orchestrator.Json.{JsonValue, null, Fields}
use things3_orchestrator.Calendar.{Date}
use things3_orchestrator.Recurrence.Types.{RecurrenceState, no_recurrence}

pub data Kind : Type 0 where
  task project area : Kind

pub data PublicKind : Type 0 where
  task project area heading : PublicKind

pub data Status : Type 0 where
  opened done dropped : Status

pub data NotesSource : Type 0 where
  no_source legacy structured : NotesSource

pub data NotesFormat : Type 0 where
  plain markdown unavailable : NotesFormat

pub record ChecklistLine : Type 0 where
  pub uuid : String
  pub title : String
  pub done : Bool
  pub status : Status
  pub sort_index : ℤ

pub record Record : Type 0 where
  pub uuid : String
  pub kind : Kind
  pub title : String
  pub notes : String
  pub notes_source : NotesSource
  pub notes_format : NotesFormat
  pub status : Status
  pub completed_at : Option ℕ
  pub trashed : Bool
  pub inbox : Bool
  pub start : Option Date
  pub deadline : Option Date
  pub remind : Option String
  pub tonight : Bool
  pub parent_uuid : Option String
  pub area_uuid : Option String
  pub tag_uuids : List String
  pub recurrence : RecurrenceState
  pub repeater : JsonValue
  pub recurrence_created_through : Option Date
  pub recurrence_instance_count : ℤ
  pub recurrence_instance_count_known : Bool
  pub recurrence_paused_known : Bool
  pub recurrence_completed_on : Option Date
  pub recurrence_next_on : Option Date
  pub recurrence_generated_on : Option Date
  pub recurrence_generated_on_known : Bool
  pub heading : Bool
  pub heading_uuid : Option String
  pub someday : Bool
  pub sort_index : ℤ
  pub today_index : ℤ
  pub entity : String
  pub leavable : Bool
  pub checklists : List ChecklistLine

-- `Record(uuid=…, kind=…, title=…)`, the other fields at their defaults
abbrev pub plain_record : String → Kind → String → Record
plain_record uuid kind title = record {
  uuid = uuid;
  kind = kind;
  title = title;
  notes = "";
  notes_source = NotesSource.no_source;
  notes_format = NotesFormat.markdown;
  status = Status.opened;
  completed_at = none;
  trashed = false;
  inbox = false;
  start = none;
  deadline = none;
  remind = none;
  tonight = false;
  parent_uuid = none;
  area_uuid = none;
  tag_uuids = [];
  recurrence = no_recurrence;
  repeater = null;
  recurrence_created_through = none;
  recurrence_instance_count = pos 0;
  recurrence_instance_count_known = true;
  recurrence_paused_known = true;
  recurrence_completed_on = none;
  recurrence_next_on = none;
  recurrence_generated_on = none;
  recurrence_generated_on_known = true;
  heading = false;
  heading_uuid = none;
  someday = false;
  sort_index = pos 0;
  today_index = pos 0;
  entity = "";
  leavable = false;
  checklists = [];
}

pub data EditAction : Type 0 where
  update move tags rename_area : EditAction

pub data LifecycleAction : Type 0 where
  complete cancel delete_area trash restore permanent_delete : LifecycleAction

pub data TagAction : Type 0 where
  ensure_tag rename_tag reparent_tag delete_tag : TagAction

pub data RepeatAction : Type 0 where
  repeat repeat_link repeat_progress repeat_next : RepeatAction

-- `write.action`, by the mutation family that `_compile_mutation` makes of it
pub data Action : Type 0 where
  create : (heading : Bool) → Action
  edit : EditAction → Action
  lifecycle : LifecycleAction → Action
  tag : TagAction → Action
  checklist : Action
  recurrence : RepeatAction → Action

pub record Write : Type 0 where
  pub action : String
  pub uuid : String
  pub kind : Kind
  pub title : Option String
  pub notes : Option String
  pub status : Option Status
  pub into_uuid : Option String
  pub into_kind : Option Kind
  pub start : Option Date
  pub clear_start : Bool
  pub deadline : Option Date
  pub clear_deadline : Bool
  pub remind : Option String
  pub clear_remind : Bool
  pub tag_uuids : Option (List String)
  pub tonight : Bool
  pub someday : Bool
  pub inbox : Bool
  pub anytime : Bool
  pub heading_uuid : Option String
  pub clear_heading : Bool
  pub sort_index : Option ℤ
  pub today_index : Option ℤ
  pub owner_today : Option Date
  pub checklist_parent_uuid : Option String
  pub checklist_status : Option Status
  pub checklist_index : Option ℤ
  pub checklist_remove : Bool
  pub recurrence_rule : Option Fields
  pub clear_recurrence_rule : Bool
  pub recurrence_links : Option (List String)
  pub recurrence_paused : Option Bool
  pub recurrence_created_through : Option Date
  pub recurrence_instance_count : Option ℤ
  pub recurrence_completed_on : Option Date
  pub recurrence_next_on : Option Date
  pub tag_parent_uuids : Option (List String)
  pub leavable : Bool

-- The `ValueError`s, by their messages, the `KeyError` of a missing entry, and the `ValueError` of
-- recurrence.py.
pub data Error : Type 0 where
  unknown_action heading_elsewhere project_in_inbox no_such_tag no_title own_parent : Error
  no_such_parent no_task_parent no_exact_template no_next_count missing_key : Error
  bad_template : Recurrence.Error → Error

-- `MemoryLibrary.__init__`
pub record Library : Type 0 where
  pub records : Dict Record
  pub tags : Dict String
  pub tag_parents : Dict (List String)

abbrev pub new_library : Library
new_library = record { records = []; tags = []; tag_parents = [] }
