-- ===== src/Runner/Launch.antt =====
-- src/runner/mod.rs: the two ways in which the node's binary is run.
use near_sandbox_rs.Base.{ℕ, Bool, true, false, String, List, [], ◌∷◌, Outcome, ◌>>=◌, ◌>>◌}
use near_sandbox_rs.ErrorKind.{tcp_error, local_addr_error, runtime_error}
use near_sandbox_rs.Json.{Json}
use near_sandbox_rs.Runner.Host.{Host, Act, Command, spawned, recorded, or_fail}
use near_sandbox_rs.Runner.Paths.{rpc_socket, log_vars}
use near_sandbox_rs.Runner.Install.{ensure_sandbox_bin_with_version}

module _ ⦃J : Json⦄ ⦃H : Host J⦄ where
  abbrev pub spawn : Command → Act H.Child
  spawn command = recorded spawned runtime_error (H.spawn command)

  abbrev pub environment : Act (List (String × String))
  environment s = (Outcome.ok (log_vars s.env), s)

  unfoldable pub init_with_version : String → String → Act H.Child
  init_with_version home_dir version = do
    path ← ensure_sandbox_bin_with_version version
    vars ← environment
    spawn (record {
      program = path;
      args = "--home" ∷ home_dir ∷ "init" ∷ "--fast" ∷ [];
      envs = vars;
      quiet_stderr = false;
      kill_on_drop = false;
    })

  abbrev pub port_of : H.os.Socket → Act ℕ
  port_of socket s =
      (or_fail (λ e. tcp_error (local_addr_error e)) (H.os.local_port socket s.world), s)

  abbrev pub close : H.os.Socket → Act (Unit {0})
  close socket s = (Outcome.ok tt, record s { world = H.close socket s.world })

  unfoldable pub run_neard_with_port_guards :
      String → String → H.os.Socket → H.os.Socket → Bool → Act H.Child
  run_neard_with_port_guards home_dir version rpc_guard net_guard quiet = do
    path ← ensure_sandbox_bin_with_version version
    rpc_port ← port_of rpc_guard
    net_port ← port_of net_guard
    close rpc_guard
    close net_guard
    vars ← environment
    spawn (record {
      program = path;
      args =
          "--home"
          ∷ home_dir
          ∷ "run"
          ∷ "--rpc-addr"
          ∷ rpc_socket rpc_port
          ∷ "--network-addr"
          ∷ rpc_socket net_port
          ∷ [];
      envs = vars;
      quiet_stderr = quiet;
      kill_on_drop = true;
    })
