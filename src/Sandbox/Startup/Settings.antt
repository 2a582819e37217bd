-- ===== src/Sandbox/Startup/Settings.antt =====
-- Numbers that the program writes and reads: environment variables, the total supply of a genesis, and the
-- names of lock files and addresses.
use near_sandbox_rs.Base.{
  ℕ, ◌<◌, ◌^◌, refl, ◌≡◌, ◌≢◌, String, ◌<>◌, none, some, ◌∷◌, ok, decimal, parse_unsigned, eq_refl,
  parse-decimal, decimal-injective,
}
use text.Mathlib.TextLemmas.{append_cancel_left, append_cancel_right}
use near_sandbox_rs.Base.Dict.{Dict}
use near_sandbox_rs.Config.Node.{setting, parse_env}
use near_sandbox_rs.Sandbox.Ready.{timeout_secs}
use near_sandbox_rs.Sandbox.Ports.{lock_name}
use near_sandbox_rs.Runner.Paths.{rpc_socket}
use near_sandbox_rs.Sandbox.Startup.{max_num_port_retries, at_least_one}

parse_env-decimal :
    (n : ℕ) (env : Dict String) (name : String)
    → n < 2 ^ 64
    → parse_env ((name, decimal n) ∷ env) (2 ^ 64) name ≡ ok (some n)
unfolding parse_env
parse_env-decimal n env name h =
    let read : parse_unsigned (2 ^ 64) (decimal n) ≡ some n = parse-decimal (2 ^ 64) n h in
    rw (parse_env, eq_refl name, read) refl

-- A number below 2 ^ 64 that is written into an environment variable in decimals is what the program
-- takes: the seconds to wait for a node, the attempts to start one (one at least) where the
-- configuration does not say, and a limit for config.json where it does not.
pub settings-decimal :
    (n : ℕ) (env : Dict String) (name : String) (standard : ℕ)
    → n < 2 ^ 64
    → (timeout_secs (("NEAR_RPC_TIMEOUT_SECS", decimal n) ∷ env) ≡ ok n)
      × (max_num_port_retries (("NEAR_SANDBOX_PORT_TRANSFER_RETRY", decimal n) ∷ env) none
          ≡ at_least_one n)
      × (setting ((name, decimal n) ∷ env) none name standard ≡ n)
unfolding timeout_secs max_num_port_retries setting
settings-decimal n env name standard h =
    let read : parse_unsigned (2 ^ 64) (decimal n) ≡ some n = parse-decimal (2 ^ 64) n h in
    (
      rw (timeout_secs, read) refl,
      rw (max_num_port_retries, read) refl,
      rw (setting, parse_env-decimal n env name h) refl,
    )

-- Different ports have lock files of different names, and different addresses.
ports_distinct : (p q : ℕ) → p ≢ q → (lock_name p ≢ lock_name q) × (rpc_socket p ≢ rpc_socket q)
unfolding lock_name rpc_socket
ports_distinct p q different = (
  λ h. different (
      decimal-injective p q (
        append_cancel_right (decimal p) (decimal q) ".lock" (
          append_cancel_left "near-sandbox-port" (decimal p <> ".lock") (decimal q <> ".lock") h))),
  λ h.
      different (decimal-injective p q (append_cancel_left "127.0.0.1:" (decimal p) (decimal q) h)),
)
