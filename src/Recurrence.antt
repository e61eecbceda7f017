-- ===== src/Recurrence.antt =====
-- recurrence.py: the repeat rule of a Things record. `Types` has its data, `Rule` and `Offsets` the
-- functions on rules and selected dates, `Fold` and `Transition` the methods of `RecurrenceState`.
pub mod Types
pub mod Rule
pub mod Offsets
pub mod NewRule
pub mod Fold
pub mod Transition
mod Tests
