-- ===== src/Lifecycle.antt =====
-- The lifecycle of a decision unit.
pub mod State
pub mod Value
pub mod Tables
pub mod Transition
pub mod Gates
pub mod Runs
pub mod Names
pub mod Closing
pub mod Tests
