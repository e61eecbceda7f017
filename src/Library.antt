-- ===== src/Library.antt =====
-- `library.py`: the records of an account in memory, the views that the tools read, the application
-- of writes, and the check that a batch of writes has arrived.
pub mod Types
pub mod Ids
pub mod Queries
pub mod Handler
pub mod Apply
pub mod WellFormed
pub mod Verify
pub mod Views
pub mod Tests
