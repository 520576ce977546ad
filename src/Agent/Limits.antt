-- ===== src/Agent/Limits.antt =====
-- What a run can cost, and which errors it can end with.
pub mod Counts
pub mod Tally
pub mod Asks
pub mod Rounds
pub mod Asking
pub mod Acting
pub mod Run
mod Examples
