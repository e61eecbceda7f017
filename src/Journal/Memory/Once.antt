-- ===== src/Journal/Memory/Once.antt =====
-- `settle_v2` on an operation that has settled.
use things3_orchestrator.Journal.Types.{Journal}
