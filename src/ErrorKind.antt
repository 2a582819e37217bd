-- ===== src/ErrorKind.antt =====
-- src/error_kind.rs: the error types. An error of a library or of the operating system is kept
-- as its text.
use near_sandbox_rs.Base.{ℕ, String}

pub data SandboxConfigError : Type 0 where
  file_error json_parse_error env_parse_error : String → SandboxConfigError

pub data TcpError : Type 0 where
  socket_creation_error socket_set_reuse_addr_error : TcpError
  bind_error : ℕ → String → TcpError
  local_addr_error locking_error : String → TcpError

pub data SandboxRpcError : Type 0 where
  request_error : String → SandboxRpcError
  unexpected_response : SandboxRpcError
  sandbox_rpc_error : String → SandboxRpcError

-- `#[from]` makes `?` wrap the first two.
pub data SandboxError : Type 0 where
  sandbox_config_error : SandboxConfigError → SandboxError
  tcp_error : TcpError → SandboxError
  file_error runtime_error shutdown_error : String → SandboxError
  timeout_error : SandboxError
  sandbox_startup_retries_exhausted : ℕ → SandboxError
  binary_error download_error install_error : String → SandboxError
  sandbox_verification_error unsupported_platform_error : String → SandboxError
