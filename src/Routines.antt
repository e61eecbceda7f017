-- ===== src/Routines.antt =====
-- routines_store.py, with the parts of routines.py and cloud.py beside it. `Types`, `Store`, `Ledger`,
-- `Batch` and `Delivery` are the SQLite ledger and `Reach` its runs, `History` the pages that it
-- takes, `Worker` the delivery policy.
pub mod Types
pub mod Store
pub mod Ledger
pub mod Batch
pub mod Delivery
pub mod History
pub mod Reach
mod Tests
mod PollTests
pub mod Worker
