-- ===== src/Journal.antt =====
-- journal.py: the durable record of owner operations. `Types` has its data, `Checks` the pure tests
-- on operations and receipts, `Memory` and `Cutover` the methods of `MemoryJournal`, `Session`
-- the apply sessions.
pub mod Types
pub mod Checks
pub mod Memory
pub mod Session
pub mod Cutover
mod Tests
