-- ===== src/Sandbox.antt =====
-- src/sandbox: the handle, its requests, the patches of the node's state, and the accounts.
pub mod Handle
pub mod Ports
pub mod Ready
pub mod Startup
pub mod Rpc
pub mod Patch
pub mod Account
pub mod Entry
