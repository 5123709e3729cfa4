-- ===== src/Api.antt =====
-- The HTTP controller of trusted sessions: runner/runner/trusted_api.py.
pub mod Control
pub mod Admission
pub mod Delivery
