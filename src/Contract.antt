-- ===== src/Contract.antt =====
-- The pure contract primitives of runner/runner/trusted_repair_contract.py.
pub mod Lifecycle
pub mod Wire
pub mod Json
pub mod Batch
pub mod Ingest
pub mod Snapshot
pub mod Intent
pub mod Outcome
pub mod Receipt
