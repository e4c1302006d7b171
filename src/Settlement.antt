-- ===== src/Settlement.antt =====
-- The settlement package: cases, their state machine, signals and their tally, and the gate that
-- settles a case.
pub mod Models
pub mod StateMachine
pub mod Tally
pub mod Reconciliation
pub mod Gate
pub mod Policy
pub mod Lifecycle
