-- ===== src/Guard.antt =====
-- guard/: the policy between the engine and its tools, and the requests for approval.
pub mod Types
pub mod Policy
pub mod Approvals
