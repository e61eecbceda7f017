-- ===== src/Lib.antt =====
-- Verification library of things3-orchestrator, a self-hosted MCP server through which an assistant
-- reads and edits a Things Cloud account. Paths are from the repository's root.
--
-- The program. A client calls the server's tools; `workspace.py` plans an edit, the journal
-- (`src/things_orchestrator/journal.py`) records it as one durable operation before anything is
-- sent, and `cloud.py` commits it to the account's history and folds that history into records.
-- `recurrence.py` has the repeat rules of those records. Beside the server an optional worker
-- (`routines.py`) feeds the history into a ledger (`routines_store.py`), which makes an event for
-- each new task with the trigger tag, and delivers the events to a webhook.
--
-- The files.
--   Prelude      shared names, lists, whole numbers, calls that raise, dicts
--   Json         the values of a decoded JSON document, and Python's `==` and truth on them
--   Calendar     dates, days of the week, and a day's time stamp
--   Recurrence   `recurrence.py`, and the lines of `cloud.py` that fold a payload's rule:
--                `transition`, `new_rule`, `validate_offsets`, `fold_rule`, `fold_links` and the
--                readers are the functions of those names
--   Library      `library.py`: `Record`, `Write` and `Library` are its classes; `apply` and its handlers
--                (`create_item`, `edit_item`, `lifecycle_item`, `tag_item`, `checklist_item`,
--                `recurrence_item`) are `MemoryLibrary.apply` and `_MemoryApplyHandler`, `matches` and
--                `action_matches` are `_MutationVerifier`, `today` and the others the views
--   Cloud        `cloud.py`: `create_payload` and `edit_payload` make the payloads, `plan` the
--                envelopes of a batch (`_CloudPlanHandler`, `_CloudEnvelopeHandler`,
--                `_coalesce_envelopes`), `fold_item` reads a payload as `fold_events` does
--   Journal      `MemoryJournal` of `journal.py`: `Journal` is its tables; `create_v2`,
--                `mark_v2_dispatched`, `settle_v2`, `get_v2_request`, `prune_v2`, `cutover_v1` and
--                the others take the journal and return the next one with what the method returns
--   Routines     `RoutineStore` of `routines_store.py`: `Database` is its tables; `open_store`,
--                `apply_batch`, `due_events`, `record_attempt`, `reset_history`, `counts`; beside
--                them `history_groups` of `cloud.py`, whose batches the store takes, and
--                `_record_delivery` of `routines.py`, which records the results of deliveries
--
-- How it is represented. A method that raises returns `err`; in the store, where a method is one
-- transaction, that rolls back all that it wrote. A dict is an association list in the order of
-- insertion. Dates are proleptic ordinals, the moments of the journal microseconds, and a finite
-- double is a whole multiple of 2 ^ -1074, the smallest positive one, so no value is rounded.
-- No definition needs fuel: every loop runs over a list. What a handler assigns to an item is written
-- back under the item's key, and a batch of writes that raises leaves the library as it was. The local
-- date and the moment of the clock are arguments, one of each for a call. Python's `str` of a value and
-- `int` of a text, `casefold`, `strip`, CRC-32, the SHA-256 digests, the pattern of versioned entities
-- and the worker's random number are parameters; only of the random number something is assumed, that
-- it is at most its bound. The store's namespace has the 32 bytes that `token_bytes` gives.
-- `Journal.Cutover.Fenced.JournalStep` and `Routines.Reach.StoreStep` are one call each that returned,
-- in any order and with any arguments; `IsNumbered` is how `history_groups` numbers the groups of a
-- batch.
--
-- What is not modelled: planning and reading in `workspace.py` and `v2.py`; of `library.py` the new
-- identifiers and the audit; of `cloud.py` the events of areas, tags and checklist rows, the checks of
-- a pulled envelope, the record cache and the HTTP side; `SQLiteJournal` (the same contract over SQL),
-- the owner's signatures, receipt pages and state counts of the journal, the loop of the worker, and
-- the command line, the services, the diagnostics and the configuration around them, which are input
-- and output.
pub mod Prelude
pub mod Json
pub mod Calendar
pub mod Recurrence
pub mod Journal
pub mod Library
pub mod Cloud
pub mod Routines
