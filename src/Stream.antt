-- ===== src/Stream.antt =====
-- The stream of JSON lines that Claude writes, and how the runner reads it:
-- `StreamJsonParser` and the reading loop of `ClaudeSessionAdapter.run` in
-- runner/runner/trusted_session.py.
pub mod Reading
pub mod State
pub mod Markers
pub mod Parser
pub mod Consume
