-- ===== src/Sandbox/Handle.antt =====
-- src/sandbox/mod.rs: the handle of a running node.
use near_sandbox_rs.Base.{ℕ, String}

-- The locks are the names of the lock files that are held, and `process` is the child's PID.
pub record Sandbox : Type 0 where
  pub home_dir : String
  pub rpc_addr : String
  pub rpc_port_lock : String
  pub net_port_lock : String
  pub process : ℕ
