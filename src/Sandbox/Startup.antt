-- ===== src/Sandbox/Startup.antt =====
-- src/sandbox/mod.rs: starting a node, with retries, and dropping it.
pub mod Tame
pub mod Launched
pub mod History
pub mod Settle
pub mod Attempts
pub mod Whole
pub mod Dropped
pub mod Logs
pub mod Settings
pub mod Address
pub mod Served
pub mod Cooperative
pub mod Answered
pub mod Unfailing
pub mod Launches
pub mod Awaited
pub mod Returns
use near_sandbox_rs.Base.{
  ℕ, zero, suc, Bool, true, false, ◌⊎◌, inl, inr, String, ◌<>◌, Option, none, some, List, [], ◌∷◌,
  ltb, ◌^◌, if◌then◌else◌, not, str_eq, unwrap_or, or_else, parse_unsigned, Outcome, ok, err, panic,
  Exec, pure, fail, unwind, caught, ◌++◌, lift, ◌>>=◌, ◌>>◌,
}
use near_sandbox_rs.Base.Dict
use near_sandbox_rs.Base.Dict.{Dict}
use near_sandbox_rs.ErrorKind.{
  SandboxError, SandboxConfigError, sandbox_config_error, tcp_error, local_addr_error,
  shutdown_error, runtime_error, timeout_error, sandbox_startup_retries_exhausted,
  file_error as sandbox_file_error,
}
use near_sandbox_rs.Json.{Json}
use near_sandbox_rs.Disk.{Fs}
use near_sandbox_rs.Config.Account.{SandboxConfig, default_config}
use near_sandbox_rs.Config.Node.{set_sandbox_configs_with_config}
use near_sandbox_rs.Config.Genesis.{set_sandbox_genesis_with_config}
use near_sandbox_rs.Sandbox.Handle.{Sandbox}
use near_sandbox_rs.Sandbox.Ports.{acquire_or_lock_port}
use near_sandbox_rs.Sandbox.Ready.{wait_until_ready}
use near_sandbox_rs.Runner.Cleanup
use near_sandbox_rs.Runner.Host.{
  Host, Machine, Act, Event, host_os, host_status, killed, waited, call, recorded, exists, set_var,
  on_world, on_waiting, or_panic, noted,
}
use near_sandbox_rs.Runner.Paths.{rpc_socket, ◌//◌}
use near_sandbox_rs.Runner.Install.{call_expect, default_near_sandbox_version}
use near_sandbox_rs.Runner.Launch.{init_with_version, run_neard_with_port_guards, port_of}

-- Whether `NEAR_ENABLE_SANDBOX_LOG` turns the logs on.
abbrev pub is_enabled : Option String → Bool
is_enabled none = false
is_enabled (some val) = not (str_eq val "0")

-- `NEAR_SANDBOX_LOG` as it is set to suppress logs
abbrev pub quiet_log : String
quiet_log = "near=error,stats=error,network=error"

-- `config.or_else(|| var(…).ok().and_then(|s| s.parse().ok())).unwrap_or(5).max(1)`
abbrev parsed_retries : Option String → Option ℕ
parsed_retries none = none
parsed_retries (some s) = parse_unsigned (2 ^ 64) s

abbrev pub at_least_one : ℕ → ℕ
at_least_one zero = 1
at_least_one (suc n) = suc n

unfoldable pub max_num_port_retries : Dict String → Option ℕ → ℕ
max_num_port_retries env chosen = at_least_one (
    unwrap_or (or_else chosen (parsed_retries (Dict.at_key env "NEAR_SANDBOX_PORT_TRANSFER_RETRY")))
      5)

-- `?` on an error of the configuration
abbrev pub in_sandbox : Outcome SandboxConfigError (Unit {0}) → Outcome SandboxError (Unit {0})
in_sandbox (ok a) = ok a
in_sandbox (err e) = err (sandbox_config_error e)
in_sandbox (panic m) = panic m

module _ ⦃J : Json⦄ ⦃H : Host J⦄ where
  unfoldable pub suppress_sandbox_logs_if_required : Act (Unit {0})
  suppress_sandbox_logs_if_required s =
      if is_enabled (Dict.at_key s.env "NEAR_ENABLE_SANDBOX_LOG")
      then (ok tt, s)
      else set_var "NEAR_SANDBOX_LOG" quiet_log s

  -- The handle, with the process and the locks themselves, and with the PID of its guard, if it has
  -- one.
  pub record Started : Type 0 where
    pub home_dir : String
    pub rpc_addr : String
    pub rpc_port_lock : H.os.File
    pub net_port_lock : H.os.File
    pub process : H.Child
    pub sandbox_guard : Option ℕ

  -- Writing the configuration into a folder.
  abbrev pub in_folder : String → Fs (Unit {0}) → Act (Unit {0})
  in_folder home m s =
      let r = m (H.folder home s.world) in
      (in_sandbox r.0, record s { world = H.put_folder home r.1 s.world })

  unfoldable pub init_home_dir_with_version : String → Act String
  init_home_dir_with_version version = do
    home ← call sandbox_file_error H.temp_dir
    child ← init_with_version home version
    recorded (λ _. waited child) runtime_error (H.wait child)
    pure home

  abbrev pub on_some : {A B : Type 0} → Option A → (A → Act (Option B)) → Act (Option B)
  on_some none f = pure none
  on_some (some a) f = f a

  -- One attempt, up to the process that runs. `none`: the search for a free port has used up its
  -- fuel.
  unfoldable pub launch_attempt :
      ℕ → SandboxConfig J.Value → String → String → Bool → Act (Option Started)
  launch_attempt fuel config version home quiet = do
    rpc ← on_world (acquire_or_lock_port fuel config.rpc_port)
    on_some rpc λ (rpc_guard, rpc_lock). do
      net ← on_world (acquire_or_lock_port fuel config.net_port)
      on_some net λ (net_guard, net_lock). do
        port ← port_of rpc_guard
        child ← run_neard_with_port_guards home version rpc_guard net_guard quiet
        pure (
            some (record {
              home_dir = home;
              rpc_addr = "http://" <> rpc_socket port;
              rpc_port_lock = rpc_lock;
              net_port_lock = net_lock;
              process = child;
              sandbox_guard = none;
            }))

  unfoldable pub readiness : String → Act (SandboxError ⊎ Unit {0})
  readiness rpc_addr s = caught (on_waiting (wait_until_ready H.overflow_checks s.env rpc_addr)) s

  -- `child.kill().await?; child.wait().await?`
  unfoldable pub stop : H.Child → Act (Unit {0})
  stop child = do
    recorded (λ _. killed child) shutdown_error (H.kill child)
    recorded (λ _. waited child) shutdown_error (H.wait child)

  -- `child.kill().await.expect(…)`
  unfoldable pub kill_expect : H.Child → Act (Unit {0})
  kill_expect child s =
      let r = H.kill child s.world in
      (
        or_panic "couldn't kill child" r.0,
        record s { world = r.1; events = s.events ++ noted (λ _. killed child) r.0 },
      )

  unfoldable pub clear_data : String → Act (Unit {0})
  clear_data home = do
    there ← exists (home // "data")
    if there then call sandbox_file_error (H.remove_dir_all (home // "data")) else pure tt

  -- The two lock files go out of scope at the end of an attempt.
  abbrev pub release : Started → Act (Unit {0})
  release r s = (
    ok tt,
    record s { world = H.close_file r.rpc_port_lock (H.close_file r.net_port_lock s.world) },
  )

  -- `CleanupGuard::new(child.id().expect(…))`
  abbrev pub guarded : Started → Option ℕ → Act Started
  guarded r none s = (panic "sandbox process must have PID", s)
  guarded r (some pid) s = (
    ok (record r { sandbox_guard = some pid }),
    record s { registry = Cleanup.new pid s.registry },
  )

  -- The guard that the feature `singleton_cleanup` adds to the handle.
  unfoldable pub register : Started → Act Started
  register r = if H.singleton_cleanup then (λ s. guarded r (H.id r.process s.world) s) else pure r

  -- What follows on the wait, with `left` attempts after this one.
  unfoldable pub settle :
      ℕ → ℕ → Started → SandboxError ⊎ Unit {0} → Act (Option Started) → Act (Option Started)
  unfolding stop clear_data register kill_expect
  settle max left r (inr _) again = do handle ← register r; pure (some handle)
  settle max zero r (inl timeout_error) again = do
    stop r.process
    fail (sandbox_startup_retries_exhausted max)
  settle max (suc left) r (inl timeout_error) again = do
    stop r.process
    clear_data r.home_dir
    release r
    again
  settle max left r (inl e) again = do kill_expect r.process; fail e

  -- `left` more attempts of `max`.
  unfoldable pub attempts :
      ℕ → SandboxConfig J.Value → String → String → ℕ → ℕ → Act (Option Started)
  unfolding launch_attempt readiness settle
  attempts fuel config version home max zero =
      unwind
        "internal error: entered unreachable code: We return Sandbox instance or error via previous loop. loop is ensured to have at least one run"
  attempts fuel config version home max (suc left) = do
    launched ← launch_attempt fuel config version home (ltb 0 left)
    on_some launched λ r. do
      ready ← readiness r.rpc_addr
      settle max left r ready (attempts fuel config version home max left)

  unfoldable pub start_sandbox_with_config_and_version :
      ℕ → SandboxConfig J.Value → String → Act (Option Started)
  unfolding suppress_sandbox_logs_if_required init_home_dir_with_version
  start_sandbox_with_config_and_version fuel config version = do
    suppress_sandbox_logs_if_required
    home ← init_home_dir_with_version version
    (λ s. in_folder home (set_sandbox_configs_with_config s.env config) s)
    in_folder home (set_sandbox_genesis_with_config config)
    max ← λ s. (ok (max_num_port_retries s.env config.port_transfer_retries), s)
    attempts fuel config version home max max

  unfoldable pub start_sandbox_with_config : ℕ → SandboxConfig J.Value → Act (Option Started)
  unfolding start_sandbox_with_config_and_version
  start_sandbox_with_config fuel config =
      start_sandbox_with_config_and_version fuel config default_near_sandbox_version

  unfoldable pub start_sandbox_with_version : ℕ → String → Act (Option Started)
  unfolding start_sandbox_with_config_and_version
  start_sandbox_with_version fuel version =
      start_sandbox_with_config_and_version fuel default_config version

  unfoldable pub start_sandbox : ℕ → Act (Option Started)
  unfolding start_sandbox_with_config_and_version
  start_sandbox fuel =
      start_sandbox_with_config_and_version fuel default_config default_near_sandbox_version

  abbrev pub unguarded : Option ℕ → Cleanup.Registry → Cleanup.Registry
  unguarded none r = r
  unguarded (some pid) r = Cleanup.drop pid r

  -- `Drop`, and after it the fields of the handle: the folder, the two locks and the guard. What
  -- fails is passed over.
  unfoldable pub drop : Started → Machine H → Machine H
  drop r s =
      let stopped = H.start_kill r.process s.world in
      let reaped = H.try_wait r.process stopped.1 in
      let removed = H.remove_dir_all r.home_dir reaped.1 in
      record s {
        world = H.close_file r.net_port_lock (H.close_file r.rpc_port_lock removed.1);
        registry = unguarded r.sandbox_guard s.registry;
        events = s.events ++ noted (λ _. killed r.process) stopped.0;
      }
