-- ===== src/Sandbox/Ports.antt =====
-- src/sandbox/mod.rs: reserving a port, by a bound socket and a locked file in the folder for
-- temporary files. What is dropped on the way out with an error is closed by then, which is not
-- part of the state here.
pub mod Locked
pub mod Chosen
use near_sandbox_rs.Base.{
  ℕ, zero, suc, Bool, true, false, ◌⊎◌, inl, inr, String, ◌<>◌, Option, none, some, List, [], ◌∷◌,
  if◌then◌else◌, Outcome, ok, err, panic, Exec, pure, fail, lift, ◌>>=◌, ◌>>◌, decimal,
}
use near_sandbox_rs.ErrorKind.{
  SandboxError, tcp_error, TcpError, socket_creation_error, socket_set_reuse_addr_error, bind_error,
  local_addr_error, locking_error,
}

-- What the operating system offers of sockets and files, as `tokio::net` and `fs4` call it. Left is
-- the text of an error.
pub record Os : Type 1 where
  pub World : Type 0
  pub Socket : Type 0
  -- an open file, of which a lock is held or not
  pub File : Type 0
  -- `TcpSocket::new_v4`
  pub new_v4 : World → (String ⊎ Socket) × World
  pub set_reuseaddr : Socket → World → (String ⊎ Socket) × World
  -- `bind` to a port of localhost; port 0 means any that is free
  pub bind : Socket → ℕ → World → (String ⊎ Socket) × World
  -- the port of `local_addr`
  pub local_port : Socket → World → String ⊎ ℕ
  -- `File::create` in the folder for temporary files
  pub create : String → World → (String ⊎ File) × World
  -- `try_lock_exclusive`: whether the lock is now held
  pub try_lock : File → World → (String ⊎ Bool) × World
  -- dropping both, which closes them
  pub discard : Socket → File → World → World

abbrev pub or_error : {A : Type 0} → (String → TcpError) → String ⊎ A → Outcome SandboxError A
or_error error (inl e) = err (tcp_error (error e))
or_error error (inr a) = ok a

-- `unwrap_or(false)`
abbrev pub or_false : String ⊎ Bool → Bool
or_false (inl e) = false
or_false (inr b) = b

-- `near-sandbox-port{port}.lock`
unfoldable pub lock_name : ℕ → String
lock_name port = "near-sandbox-port" <> decimal port <> ".lock"

module _ ⦃O : Os⦄ where
  abbrev pub Startup : Type 0 → Type 0
  Startup = Exec O.World SandboxError

  abbrev pub new_v4 : Startup O.Socket
  new_v4 w = let r = O.new_v4 w in (or_error (λ _. socket_creation_error) r.0, r.1)

  abbrev pub set_reuseaddr : O.Socket → Startup O.Socket
  set_reuseaddr s w =
      let r = O.set_reuseaddr s w in (or_error (λ _. socket_set_reuse_addr_error) r.0, r.1)

  abbrev pub bind : O.Socket → ℕ → Startup O.Socket
  bind s port w = let r = O.bind s port w in (or_error (bind_error port) r.0, r.1)

  abbrev pub local_port : O.Socket → Startup ℕ
  local_port s w = (or_error local_addr_error (O.local_port s w), w)

  abbrev pub create_lock : ℕ → Startup O.File
  create_lock port w = let r = O.create (lock_name port) w in (or_error locking_error r.0, r.1)

  abbrev pub try_lock : O.File → Startup (String ⊎ Bool)
  try_lock file w = let r = O.try_lock file w in (ok r.0, r.1)

  abbrev pub discard : O.Socket → O.File → Startup (Unit {0})
  discard s file w = (ok tt, O.discard s file w)

  -- A socket that is bound to a port.
  unfoldable pub bound_socket : ℕ → Startup O.Socket
  bound_socket port = do fresh ← new_v4; reusable ← set_reuseaddr fresh; bind reusable port

  unfoldable pub pick_unused_port_guard : Startup O.Socket
  unfolding bound_socket
  pick_unused_port_guard = bound_socket 0

  -- The loop, for as many rounds as there is fuel; `none` says that it is used up.
  unfoldable pub acquire_unused_port_guard : ℕ → Startup (Option (O.Socket × O.File))
  acquire_unused_port_guard zero = pure none
  acquire_unused_port_guard (suc fuel) = do
    guard ← pick_unused_port_guard
    port ← local_port guard
    file ← create_lock port
    locked ← try_lock file
    if or_false locked
        then pure (some (guard, file))
        else (discard guard file >> acquire_unused_port_guard fuel)

  unfoldable pub try_acquire_specific_port_guard : ℕ → Startup (O.Socket × O.File)
  try_acquire_specific_port_guard configured = do
    guard ← bound_socket configured
    port ← local_port guard
    file ← create_lock port
    attempt ← try_lock file
    locked ← lift (or_error locking_error attempt)
    if locked
        then pure (guard, file)
        else fail (
            tcp_error
              (locking_error ("port " <> decimal port <> " is already locked by another process")))

  unfoldable pub acquire_or_lock_port : ℕ → Option ℕ → Startup (Option (O.Socket × O.File))
  acquire_or_lock_port fuel (some port) = do
    acquired ← try_acquire_specific_port_guard port
    pure (some acquired)
  acquire_or_lock_port fuel none = acquire_unused_port_guard fuel
