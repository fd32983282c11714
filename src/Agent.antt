-- ===== src/Agent.antt =====
-- The agent (crates/agent/src), which runs on the controlled machine.
pub mod Stream
