-- ===== src/Control.antt =====
-- The reconciliation control engine, control/v15.
pub mod Models
pub mod Evidence
pub mod Matching
pub mod Tier
pub mod Outcome
pub mod Resolution
pub mod Assignments
pub mod Results
pub mod Classify
pub mod Identity
pub mod Ingestion
