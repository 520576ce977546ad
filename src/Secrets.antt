-- ===== src/Secrets.antt =====
-- secrets: the profiles that let a tool send a credential, and the URLs they allow.
pub mod Types
pub mod Rules
pub mod WellFormed
pub mod Access
pub mod Profile
pub mod Store
pub mod Validated
pub mod Segments
pub mod Allowed
pub mod Examples
