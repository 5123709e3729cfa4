-- ===== src/Session.antt =====
-- One persistent Claude session: runner/runner/trusted_session.py.
pub mod Codes
pub mod Metadata
pub mod Registry
pub mod Control
pub mod Journal
pub mod Outcome
pub mod Launch
pub mod Resume
pub mod KillSwitch
