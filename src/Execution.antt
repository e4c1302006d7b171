-- ===== src/Execution.antt =====
-- The execution guard: the claim stores, the registry that runs an action at most once, and the
-- workers that share a store.
pub mod Store
pub mod Postgres
pub mod Hosted
pub mod Governance
pub mod Receipt
pub mod Registry
pub mod Submit
pub mod Workers
