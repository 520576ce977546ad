-- ===== src/Agent/Engine.antt =====
-- agent/engine_loop.go and agent/engine_helpers.go: the engine's loop, from the inside out.
pub mod ToolGuard
pub mod Force
pub mod Ask
pub mod Answer
pub mod Calls
pub mod Loop
