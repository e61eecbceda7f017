-- ===== src/Library/Verify/Labelled.antt =====
-- The `tag` of `_MemoryApplyHandler` and the dispatch of a write, against `_MutationVerifier`.
use things3_orchestrator.Library.Handler.{Applied}
