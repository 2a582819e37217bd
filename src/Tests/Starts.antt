-- ===== src/Tests/Starts.antt =====
-- The theorems on starting a node and on its binary, each at a run of the test machine.
use near_sandbox_rs.Base.{
  ◌≡◌, refl, String, none, some, [], ◌∷◌, ok, Any, Ended, arith, ◌>>=◌, true, decimal,
  parse_unsigned, ℕ, inl, inr, false, ◌==◌, ◌⊎◌, Bool, if◌then◌else◌,
}
use near_sandbox_rs.Base.Dict
use near_sandbox_rs.Base.Dict.{Dict}
use near_sandbox_rs.Json.Tree.{Tree, tree_json}
use near_sandbox_rs.Config.Account.{default_config}
use near_sandbox_rs.Runner.Host.{Machine, spawned, killed, waited}
use near_sandbox_rs.Disk.{read, create, write}
use near_sandbox_rs.Json.Tree
use near_sandbox_rs.Config.Node.{
  set_sandbox_configs_with_config, setting, limits, parse_env, overwrite,
}
use near_sandbox_rs.Config.Genesis.{
  set_sandbox_genesis_with_config, overwrite_genesis, extend_genesis, supply_of, add_balances,
  add_u128, push_records, account_json, access_key_json, save_account_keys, key_json,
}
use near_sandbox_rs.Runner.Cleanup
use near_sandbox_rs.Runner.Paths.{
  log_vars, rpc_socket, bin_url, platform, version_dir, normalize_name,
}
use near_sandbox_rs.Runner.Launch.{init_with_version, run_neard_with_port_guards}
use near_sandbox_rs.Runner.Install.{
  ensure_sandbox_bin_with_version, bin_path, installable, install_locked, install_with_version,
  check_for_version, download_version, download_path, install_entries, install_entry,
}
use near_sandbox_rs.Runner.Install.Present.{ensure-Present, ensure_pins}
use near_sandbox_rs.Sandbox.Ports.{
  acquire_or_lock_port, acquire_unused_port_guard, pick_unused_port_guard, bound_socket, lock_name,
}
use near_sandbox_rs.Sandbox.Ready.{wait_until_ready, timeout_secs, twice, wait_rounds}
use near_sandbox_rs.Sandbox.Startup.{
  Started, start_sandbox_with_config_and_version, attempts, suppress_sandbox_logs_if_required,
  init_home_dir_with_version, max_num_port_retries, launch_attempt, readiness, settle, stop,
  clear_data, register, drop,
}
use near_sandbox_rs.Sandbox.Startup.History.{IsSettled, NoSurprise}
use near_sandbox_rs.Sandbox.Startup.Attempts.{ExhaustedBy, attempts_outcomes}
use near_sandbox_rs.Sandbox.Startup.Whole.{StartedWell, GivenUp, start_outcomes}
use near_sandbox_rs.Sandbox.Startup.Address.{IsExact, Serves}
use near_sandbox_rs.Sandbox.Startup.Served.{start-Serves}
use near_sandbox_rs.Sandbox.Startup.Dropped.{drop-register}
use near_sandbox_rs.Sandbox.Startup.Logs.{filter-suppress}
use near_sandbox_rs.Sandbox.Startup.Settings.{settings-decimal}
use near_sandbox_rs.Tests.Hosts.{test_host, test_host-IsFiles, machine}

abbrev pub environment : Dict String
environment = ("NEAR_SANDBOX_BIN_PATH", "/bin/near-sandbox") ∷ ("NEAR_RPC_TIMEOUT_SECS", "1") ∷ []

start_outcomes_example :
    let end =
      start_sandbox_with_config_and_version 5 default_config "2.10.7" (machine environment) in
    Ended (StartedWell default_config []) (GivenUp default_config []) (λ _. Any) end.0 end.1
start_outcomes_example = start_outcomes default_config [] 5 "2.10.7" (machine environment) refl

abbrev pub handle : Started
handle = record {
  home_dir = "/tmp/home";
  rpc_addr = "http://127.0.0.1:4000";
  rpc_port_lock = "near-sandbox-port4000.lock";
  net_port_lock = "near-sandbox-port4000.lock";
  process = 2;
  sandbox_guard = some 102;
}

abbrev pub running : Machine test_host
running = record {
  world = 3;
  env = ("NEAR_SANDBOX_LOG", "near=error,stats=error,network=error") ∷ environment;
  registry = record { pids = 102 ∷ []; installed = true; killed = [] };
  probes = inr false ∷ inr false ∷ inr true ∷ [];
  events = spawned 0 ∷ waited 0 ∷ spawned 0 ∷ killed 0 ∷ waited 0 ∷ spawned 2 ∷ [];
}

-- Two attempts: the first node stays silent and is stopped, the second one answers.
pub second_attempt :
    start_sandbox_with_config_and_version 5 default_config "2.10.7" (machine environment)
    ≡ (ok (some handle), running)
unfolding Cleanup.register_pid Cleanup.install_handlers Cleanup.insert
    start_sandbox_with_config_and_version suppress_sandbox_logs_if_required
    init_home_dir_with_version init_with_version ensure_sandbox_bin_with_version bin_path
    installable set_sandbox_configs_with_config setting limits parse_env overwrite read create write
    set_sandbox_genesis_with_config overwrite_genesis extend_genesis supply_of add_balances add_u128
    push_records account_json access_key_json save_account_keys key_json max_num_port_retries
    attempts launch_attempt acquire_or_lock_port acquire_unused_port_guard pick_unused_port_guard
    bound_socket lock_name run_neard_with_port_guards log_vars rpc_socket readiness wait_until_ready
    timeout_secs twice wait_rounds settle stop clear_data register Cleanup.new parse_unsigned
    decimal ◌>>=◌ Tree.merge Tree.merge_fields
second_attempt = refl

attempts_outcomes_example :
    let end = attempts 5 default_config "2.10.7" "/tmp/home" 2 2 (machine environment) in
    Ended (IsSettled [] 2) (ExhaustedBy [] 2) (NoSurprise [] 2) end.0 end.1
attempts_outcomes_example =
    attempts_outcomes [] 2 5 default_config "2.10.7" "/tmp/home" (machine environment) (omega arith)
      refl

-- A machine without the variable: the binary is installed.
installed_runs : ensure_sandbox_bin_with_version "a/b" (machine []) ≡ (
  ok "/out/.near/near-sandbox-a_b/near-sandbox",
  record (machine []) {
    world = 1000;
    env = ("NEAR_SANDBOX_BIN_PATH", "/out/.near/near-sandbox-a_b/near-sandbox") ∷ [];
  },
)
unfolding ensure_sandbox_bin_with_version bin_path installable install_locked install_with_version
    check_for_version download_version download_path install_entries install_entry bin_url platform
    version_dir normalize_name ◌>>=◌
installed_runs = refl

abbrev installed : Machine test_host
installed = record (machine []) {
  world = 1000;
  env = ("NEAR_SANDBOX_BIN_PATH", "/out/.near/near-sandbox-a_b/near-sandbox") ∷ [];
}

ensure-Present_example : test_host.exists "/out/.near/near-sandbox-a_b/near-sandbox" 1000 ≡ true
ensure-Present_example =
    ensure-Present test_host-IsFiles "a/b" (machine []) installed
      "/out/.near/near-sandbox-a_b/near-sandbox" installed_runs

ensure_pins_example :
    ensure_sandbox_bin_with_version "2.6.3" installed
    ≡ (ok "/out/.near/near-sandbox-a_b/near-sandbox", installed)
ensure_pins_example =
    ensure_pins test_host-IsFiles "a/b" "2.6.3" (machine []) installed
      "/out/.near/near-sandbox-a_b/near-sandbox" refl installed_runs (λ h. absurd (cc))

filter-suppress_example :
    Dict.at_key
      (log_vars (suppress_sandbox_logs_if_required (machine environment)).1.env)
      "RUST_LOG"
    ≡ some "near=error,stats=error,network=error"
filter-suppress_example = filter-suppress (machine environment)

abbrev started : Started
started = record {
  home_dir = "/tmp/home";
  rpc_addr = "http://127.0.0.1:4000";
  rpc_port_lock = "near-sandbox-port4000.lock";
  net_port_lock = "near-sandbox-port4001.lock";
  process = 7;
  sandbox_guard = none;
}

abbrev guarded : Started
guarded = record started { sandbox_guard = some 107 }

abbrev registered : Machine test_host
registered = record (machine []) {
  registry = record { pids = 107 ∷ []; installed = true; killed = [] };
}

register_runs : register started (machine []) ≡ (ok guarded, registered)
unfolding register Cleanup.new Cleanup.register_pid Cleanup.install_handlers Cleanup.insert
register_runs = refl

drop-register_example : (drop guarded registered).registry.pids ≡ []
drop-register_example =
    drop-register started guarded (machine []) registered refl (λ pid h. refl) register_runs

settings-decimal_example :
    (timeout_secs (("NEAR_RPC_TIMEOUT_SECS", decimal 25) ∷ []) ≡ ok 25)
    × (max_num_port_retries (("NEAR_SANDBOX_PORT_TRANSFER_RETRY", decimal 25) ∷ []) none ≡ 25)
    × (setting (("NEAR_SANDBOX_MAX_FILES", decimal 25) ∷ []) none "NEAR_SANDBOX_MAX_FILES" 3000
        ≡ 25)
settings-decimal_example = settings-decimal 25 [] "NEAR_SANDBOX_MAX_FILES" 3000 (omega arith)

test_host-IsExact : IsExact ⦃H = test_host⦄
test_host-IsExact before after port q u w b h = by_port (port == 0) refl b
  where
    by_port :
        (zero : Bool)
        → (port == 0) ≡ zero
        → ◌≡◌ {A = String ⊎ ℕ} (inr (if zero then 4000 else port)) (inr after)
        → (port ≡ 0) ⊎ (q ≡ port)
    by_port true e b = inl (ground (arith, e))
    by_port false e b = inr (let same : port ≡ after = cc in let has : after ≡ q = cc in cc)

start-Serves_example : Serves default_config handle
start-Serves_example =
    start-Serves (λ s u w p q h k. cc) test_host-IsExact 5 default_config "2.10.7"
      (machine environment) running handle second_attempt
