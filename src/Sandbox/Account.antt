-- ===== src/Sandbox/Account.antt =====
-- src/sandbox/account.rs: the builders that create and import an account.
pub mod Creation
pub mod Import
pub mod Sent
pub mod Create
pub mod ImportLaws
