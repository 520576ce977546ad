-- ===== src/Maep.antt =====
-- maep: the protocol between agents.
pub mod Protocol
pub mod Pushes
pub mod Bounds
mod Examples
