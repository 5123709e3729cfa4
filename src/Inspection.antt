-- ===== src/Inspection.antt =====
-- Manual inspections of several targets (runner/runner/inspection.py).
pub mod Batch
pub mod Report
pub mod Create
pub mod Callback
