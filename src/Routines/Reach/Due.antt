-- ===== src/Routines/Reach/Due.antt =====
-- `due_events` on a reachable database.
use things3_orchestrator.Routines.Ledger.Emits.{Emits}
