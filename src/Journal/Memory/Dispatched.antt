-- ===== src/Journal/Memory/Dispatched.antt =====
-- `mark_v2_dispatched` and the settlements after it.
use things3_orchestrator.Journal.Types.{Journal}
