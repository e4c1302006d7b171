-- ===== src/Boundary.antt =====
-- The permit boundary of safeagent_exec_guard/boundary.py.
pub mod Permit
pub mod Ledger
pub mod Gateway
