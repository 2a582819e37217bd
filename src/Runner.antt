-- ===== src/Runner.antt =====
-- src/runner: what belongs to running the node's process.
pub mod Host
pub mod Paths
pub mod Names
pub mod Install
pub mod Launch
pub mod Rules
pub mod Cleanup
