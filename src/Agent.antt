-- ===== src/Agent.antt =====
-- agent/: the execution engine of a task.
pub mod Plan
pub mod Types
pub mod State
pub mod Parser
pub mod Host
pub mod Engine
mod Examples
pub mod Resume
pub mod Safety
pub mod Approved
pub mod Guarded
pub mod Limits
