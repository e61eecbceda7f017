-- ===== src/Journal/Types.antt =====
-- The data of journal.py and the state of a `MemoryJournal`.
use things3_orchestrator.Prelude.{Result, Dict, ℕ, String, Bool, Option, List, []}
use things3_orchestrator.Json.{Fields}

pub data V2State : Type 0 where
  awaiting_owner pending applied unchanged not_applied : V2State
  partial partial_resolved stale declined rejected : V2State

pub data IntentState : Type 0 where
  prepared needs_approval pending applied unchanged stale : IntentState

pub record V2Operation : Type 0 where
  pub account_id : String
  pub api_version : String
  pub request_id : String
  pub request_hash : String
  pub operation_id : String
  pub tool : String
  pub state : V2State
  pub manifest : Fields
  pub manifest_hash : String
  pub safety_policy_digest : String
  pub expires_at : Option String
  pub response : Option Fields
  pub authorization : Option String
  pub receipt_hash : Option String
  pub dispatch_started : Bool

pub record IntentRecord : Type 0 where
  pub intent_id : String
  pub fingerprint : String
  pub state : IntentState
  pub plan : Fields
  pub plan_id : Option String
  pub expires_at : Option String
  pub result : Option Fields

-- Moments are microseconds, where the source keeps ISO texts and parses them back.
abbrev pub Moment : Type 0
Moment = ℕ

-- The tables of a `MemoryJournal`; its lock holds one method at a time, and its cursor key and
-- public key never change.
pub record Journal : Type 0 where
  pub records : Dict IntentRecord
  pub operations : Dict V2Operation
  pub receipts : Dict (List Fields)
  pub times : Dict (Moment × Option Moment)
  pub tombstones : Dict V2Operation

abbrev pub new_journal : Journal
new_journal = record { records = []; operations = []; receipts = []; times = []; tombstones = [] }

-- `AmbiguousV2Request`, a constructor for each `ValueError`, and the `TypeError` of hashing a list or
-- a dict
pub data JournalError : Type 0 where
  ambiguous bad_manifest not_pending bad_sequences bad_receipt_count : JournalError
  unhashable : JournalError

abbrev pub Outcome : Type 0 → Type 0
Outcome A = Result JournalError A

-- What the journal takes from elsewhere: Python's `strip().casefold()`, and SHA-256 over the JSON
-- of a manifest, of the parts of a request key and of the receipt rows.
pub record Digests : Type 0 where
  pub account_key : String → String
  pub manifest_hash : Fields → String
  pub request_key : String → String → String → String
  pub receipt_hash : List Fields → String
