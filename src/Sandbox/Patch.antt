-- ===== src/Sandbox/Patch.antt =====
-- src/sandbox/patch.rs
pub mod FetchData
pub mod StateRecord
pub mod Builder
pub mod Fetch
pub mod Send
