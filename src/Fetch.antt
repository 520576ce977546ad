-- ===== src/Fetch.antt =====
-- tools/builtin/url_fetch.go: the tool that fetches a URL, also with a credential of a profile.
pub mod Headers
pub mod Types
pub mod Prepare
pub mod Request
pub mod Redirects
pub mod Granted
pub mod Steps
pub mod Safety
pub mod Guarded
pub mod Listed
mod Examples
