-- ===== src/Daemon.antt =====
-- cmd/mistermorph/daemoncmd: the queue of tasks, and the worker that runs them.
pub mod Types
pub mod Store
pub mod Worker
pub mod Maps
pub mod Queue
pub mod Kept
pub mod Sound
pub mod Invariant
pub mod Denied
pub mod Resuming
mod Examples
