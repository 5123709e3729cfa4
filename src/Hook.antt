-- ===== src/Hook.antt =====
-- The tool hook of trusted sessions: agent-project-trusted/bin/trusted_tool_hook.py.
pub mod Scan
pub mod Words
pub mod Policy
