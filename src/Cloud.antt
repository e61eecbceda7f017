-- ===== src/Cloud.antt =====
-- The lines of `cloud.py` that turn writes into payloads and payloads into records.
pub mod Values
pub mod Note
pub mod Reminder
pub mod Fold
pub mod Payload
pub mod Written
pub mod Envelope
pub mod Edited
pub mod Handler
pub mod Coalesce
pub mod Plan
pub mod Planner
pub mod Tests
