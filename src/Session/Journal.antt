-- ===== src/Session/Journal.antt =====
-- `SessionJournal` of runner/runner/trusted_session.py: what the files of one session hold.
pub mod Claims
pub mod Events
pub mod Records
