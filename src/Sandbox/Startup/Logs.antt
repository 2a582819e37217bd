-- ===== src/Sandbox/Startup/Logs.antt =====
-- Which logs a node writes: the variable that the program sets and the one that it hands on.
use near_sandbox_rs.Base.{
  Bool, true, false, refl, ◌≡◌, String, Option, none, some, [], ◌∷◌, ◌++◌, ok, Outcome,
  if◌then◌else◌,
}
use near_sandbox_rs.Base.Dict
use near_sandbox_rs.Base.Dict.{Dict}
use near_sandbox_rs.ErrorKind.{SandboxError}
use near_sandbox_rs.Json.{Json}
use near_sandbox_rs.Runner.Host.{Host, Machine, set_var}
use near_sandbox_rs.Runner.Paths.{log_vars, forwarded}
use near_sandbox_rs.Sandbox.Startup.{is_enabled, quiet_log, suppress_sandbox_logs_if_required}

-- The filter that a node gets is what `NEAR_SANDBOX_LOG` says.
filter-log_vars :
    (env : Dict String) → Dict.at_key (log_vars env) "RUST_LOG" ≡ Dict.at_key env "NEAR_SANDBOX_LOG"
unfolding log_vars
filter-log_vars env = by_filter (Dict.at_key env "NEAR_SANDBOX_LOG")
  where
    by_style :
        (style : Option String)
        → Dict.at_key
            (elim style [ none ↦ [] | some val ↦ ("RUST_LOG_STYLE", val) ∷ [] ])
            "RUST_LOG"
          ≡ none
    by_style none = refl
    by_style (some val) = refl

    by_filter :
        (o : Option String)
        → Dict.at_key
            (elim o [ none ↦ [] | some val ↦ ("RUST_LOG", val) ∷ [] ]
              ++ forwarded env "NEAR_SANDBOX_LOG_STYLE" "RUST_LOG_STYLE")
            "RUST_LOG"
          ≡ o
    by_filter none = by_style (Dict.at_key env "NEAR_SANDBOX_LOG_STYLE")
    by_filter (some val) = refl

module _ ⦃J : Json⦄ ⦃H : Host J⦄ where
  -- Once logs are suppressed where that is required, the filter that a node gets is the quiet one,
  -- unless `NEAR_ENABLE_SANDBOX_LOG` is set and not `0`: then it is the one that was set before, if
  -- any.
  pub filter-suppress :
      (s : Machine H)
      → Dict.at_key (log_vars (suppress_sandbox_logs_if_required s).1.env) "RUST_LOG" ≡ (
          if is_enabled (Dict.at_key s.env "NEAR_ENABLE_SANDBOX_LOG")
          then Dict.at_key s.env "NEAR_SANDBOX_LOG"
          else some quiet_log)
  unfolding suppress_sandbox_logs_if_required
  filter-suppress s = by_flag (is_enabled (Dict.at_key s.env "NEAR_ENABLE_SANDBOX_LOG"))
    where
      enabled : Outcome SandboxError (Unit {0}) × Machine H
      enabled = (ok tt, s)

      by_flag :
          (b : Bool)
          → Dict.at_key
              (log_vars (if b then enabled else set_var "NEAR_SANDBOX_LOG" quiet_log s).1.env)
              "RUST_LOG"
            ≡ (if b then Dict.at_key s.env "NEAR_SANDBOX_LOG" else some quiet_log)
      by_flag true = filter-log_vars s.env
      by_flag false = filter-log_vars (("NEAR_SANDBOX_LOG", quiet_log) ∷ s.env)
