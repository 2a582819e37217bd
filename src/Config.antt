-- ===== src/Config.antt =====
-- src/config.rs: accounts, configuration, and the files that a node reads at its start.
pub mod Account
pub mod Genesis
pub mod Node
