-- ===== src/Sandbox/Startup/Whole.antt =====
-- A whole start: preparing a home folder, and the attempts in it.
use near_sandbox_rs.Base.{
  ℕ, zero, suc, ◌<◌, Bool, true, false, refl, sym, subst, ◌≡◌, String, Option, List, [], ◌∷◌, ◌++◌,
  append_assoc, Outcome, ok, err, panic, Any, Ends, Ended, Ends-bind, Ends-some, Ends-weaken, arith,
  if◌then◌else◌,
}
use near_sandbox_rs.Base.Dict
use near_sandbox_rs.Base.Dict.{Dict}
use near_sandbox_rs.ErrorKind.{
  SandboxConfigError, sandbox_config_error, SandboxError, runtime_error,
  sandbox_startup_retries_exhausted,
}
use near_sandbox_rs.Json.{Json}
use near_sandbox_rs.Disk.{Fs}
use near_sandbox_rs.Config.Account.{SandboxConfig}
use near_sandbox_rs.Config.Node.{set_sandbox_configs_with_config}
use near_sandbox_rs.Config.Genesis.{set_sandbox_genesis_with_config}
use near_sandbox_rs.Runner.Host.{Host, Machine, Act, Event, recorded, set_var, spawned, waited}
use near_sandbox_rs.Runner.Launch.{init_with_version}
use near_sandbox_rs.Runner.Rules.{IsOrdinary, Log, IsLenient, Quiet, call-Quiet}
use near_sandbox_rs.Runner.Install.Silent.{ensure-Quiet}
use near_sandbox_rs.Sandbox.Startup.{
  Started, attempts, max_num_port_retries, at_least_one, in_sandbox, in_folder,
  init_home_dir_with_version, suppress_sandbox_logs_if_required,
  start_sandbox_with_config_and_version, is_enabled, quiet_log,
}
use near_sandbox_rs.Sandbox.Startup.Launched.{recorded-Log}
use near_sandbox_rs.Sandbox.Startup.History.{FailedAttempts, IsSettled}
use near_sandbox_rs.Sandbox.Startup.Attempts.{attempts-Ends}

at_least_one-positive : (n : ℕ) → 0 < at_least_one n
at_least_one-positive zero = omega arith
at_least_one-positive (suc n) = omega arith

pub retries-positive : (env : Dict String) (chosen : Option ℕ) → 0 < max_num_port_retries env chosen
unfolding max_num_port_retries
retries-positive env chosen = at_least_one-positive _

module _ ⦃J : Json⦄ ⦃H : Host J⦄ (config : SandboxConfig J.Value) (l : List (Event H.Child)) where
  -- The process that prepares the home folder has been waited for.
  abbrev pub prepared : H.Child → List (Event H.Child)
  prepared c = l ++ spawned c ∷ waited c ∷ []

  -- The number of attempts, by some state of the environment.
  abbrev pub limit : Dict String → ℕ
  limit env = max_num_port_retries env config.port_transfer_retries

  abbrev pub StartedWell : Option Started → Machine H → Type 0
  StartedWell r t = (c : H.Child) × (env : Dict String) × IsSettled (prepared c) (limit env) r t

  abbrev GaveUp : SandboxError → Machine H → Type 0
  GaveUp e t =
      (m : ℕ)
      → e ≡ sandbox_startup_retries_exhausted m
      → (c : H.Child) × (env : Dict String) × (m ≡ limit env)
        × FailedAttempts (prepared c) m t.events

  lenient : IsLenient GaveUp (λ _. Any)
  lenient = record {
    ordinary = λ e t h m q. elim (subst IsOrdinary q h) [ ];
    expected = λ p t h. tt;
  }

  in_sandbox-Ended :
      (k : List (Event H.Child)) (r : Outcome SandboxConfigError (Unit {0})) (t : Machine H)
      → Log k t
      → Ended (λ _. Log k) GaveUp (λ _. Any) (in_sandbox r) t
  in_sandbox-Ended k (ok a) t p = p
  in_sandbox-Ended k (err e) t p = lenient.ordinary (sandbox_config_error e) t tt
  in_sandbox-Ended k (panic m) t p = tt

  in_folder-Log :
      (k : List (Event H.Child)) (home : String) (m : Fs (Unit {0}))
      → Quiet lenient k (in_folder home m)
  in_folder-Log k home m = record {
    at = λ s p. in_sandbox-Ended k (m (H.folder home s.world)).0 _ p;
  }

  suppress-Log : Quiet lenient l suppress_sandbox_logs_if_required
  unfolding suppress_sandbox_logs_if_required
  suppress-Log = record {
    at = λ s p. (by_flag (is_enabled (Dict.at_key s.env "NEAR_ENABLE_SANDBOX_LOG"))).at s p;
  }
    where
      by_flag :
          (b : Bool)
          → Quiet lenient l (λ s. if b then (ok tt, s) else set_var "NEAR_SANDBOX_LOG" quiet_log s)
      by_flag true = record { at = λ s p. p }
      by_flag false = record { at = λ s p. p }

  waited-Log :
      (c : H.Child)
      → Ends
          (Log (l ++ spawned c ∷ []))
          (recorded (λ _. waited c) runtime_error (H.wait c))
          (λ _. Log (prepared c))
          GaveUp
          (λ _. Any)
  waited-Log c =
      let m : Act (Unit {0}) = recorded (λ _. waited c) runtime_error (H.wait c) in
      subst (λ k. Ends (Log (l ++ spawned c ∷ [])) m (λ _. Log k) GaveUp (λ _. Any))
        {x = (l ++ spawned c ∷ []) ++ waited c ∷ []} {y = prepared c} (simp append_assoc)
        (recorded-Log lenient _ (λ _. waited c) runtime_error (H.wait c) λ x. tt)

  init-Log :
      (home version : String)
      → Ends
          (Log l)
          (init_with_version home version)
          (λ c. Log (l ++ spawned c ∷ []))
          GaveUp
          (λ _. Any)
  unfolding init_with_version
  init-Log home version =
      Ends-bind (λ _. Log l) _ _ (ensure-Quiet lenient l version)
        λ path.
          Ends-bind (λ _. Log l) _ _ (record { at = λ s p. p })
            λ vars. recorded-Log lenient l spawned runtime_error _ λ x. tt

  init_home-Log :
      (version : String)
      → Ends
          (Log l)
          (init_home_dir_with_version version)
          (λ _ t. (c : H.Child) × Log (prepared c) t)
          GaveUp
          (λ _. Any)
  unfolding init_home_dir_with_version
  init_home-Log version =
      Ends-bind (λ _. Log l) _ _ (call-Quiet lenient l _ _ λ x. tt)
        λ home.
          Ends-bind (λ c. Log (l ++ spawned c ∷ [])) _ _ (init-Log home version)
            λ c.
              Ends-bind (λ _. Log (prepared c)) _ _ (waited-Log c)
                λ _. record { at = λ s p. (c, p) }

  attempts-Whole :
      (fuel : ℕ) (version home : String) (c : H.Child) (env : Dict String) (max : ℕ)
      → max ≡ limit env
      → Ends
          (Log (prepared c))
          (attempts fuel config version home max max)
          StartedWell
          GaveUp
          (λ _. Any)
  attempts-Whole fuel version home c env max q =
      subst
        (λ m.
          Ends (Log (prepared c)) (attempts fuel config version home m m) StartedWell GaveUp
            (λ _. Any))
        (sym q)
        (Ends-weaken _ (λ r t h. (c, env, h))
          (λ e t h m u. (
            c,
            env,
            (h m u).0,
            subst (λ k. FailedAttempts (prepared c) k t.events) (sym (h m u).0) (h m u).1,
          ))
          (λ p t h. tt)
          (attempts-Ends (prepared c) (limit env) fuel config version home
            (retries-positive env _)))

  pub start_sandbox_with_config_and_version-Ends :
      (fuel : ℕ) (version : String)
      → Ends
          (Log l)
          (start_sandbox_with_config_and_version fuel config version)
          StartedWell
          GaveUp
          (λ _. Any)
  unfolding start_sandbox_with_config_and_version
  start_sandbox_with_config_and_version-Ends fuel version =
      Ends-bind (λ _. Log l) _ _ suppress-Log
        λ _.
          Ends-bind (λ _ t. (c : H.Child) × Log (prepared c) t) _ _ (init_home-Log version)
            λ home. Ends-some λ c.
              Ends-bind (λ _. Log (prepared c)) _ _
                (record {
                  at = λ s p.
                      (in_folder-Log (prepared c) home
                          (set_sandbox_configs_with_config s.env config)).at
                        s p;
                })
                λ _.
                  Ends-bind (λ _. Log (prepared c)) _ _
                    (in_folder-Log (prepared c) home (set_sandbox_genesis_with_config config))
                    λ _.
                      Ends-bind
                        (λ max t. (env : Dict String) × (max ≡ limit env) × Log (prepared c) t) _ _
                        (record { at = λ s p. (s.env, refl, p) })
                        λ max. record {
                          at = λ s p. (attempts-Whole fuel version home c p.0 max p.1).at s p.2;
                        }

  -- All of the attempts have failed, if this is what the error says.
  abbrev pub GivenUp : SandboxError → Machine H → Type 0
  GivenUp (sandbox_startup_retries_exhausted m) t =
      (c : H.Child) × (env : Dict String) × (m ≡ limit env) × FailedAttempts (prepared c) m t.events
  GivenUp _ t = Unit {0}

  given_up : (e : SandboxError) (t : Machine H) → GaveUp e t → GivenUp e t
  given_up (sandbox_startup_retries_exhausted m) t h = h m refl
  given_up _ t h = tt

  -- A start that returns, or reports that the attempts are exhausted, has run one process to prepare the
  -- home folder and waited for it. If it returns a handle, or has used up the
  -- fuel of a search for a port, fewer attempts have failed than the limit that some state of the
  -- environment and the configuration give, the process of each failed one was killed and waited for
  -- before the next began, and that of the handle, if there is one, is the last that was started. If it
  -- reports that the attempts are exhausted, the number that it reports is such a limit, and as many
  -- have failed in this way.
  pub start_outcomes :
      (fuel : ℕ) (version : String) (s : Machine H)
      → s.events ≡ l
      → let r = start_sandbox_with_config_and_version fuel config version s in
        Ended StartedWell GivenUp (λ _. Any) r.0 r.1
  start_outcomes fuel version s p =
      (Ends-weaken _ (λ o t q. q) given_up (λ m t q. q)
          (start_sandbox_with_config_and_version-Ends fuel version)).at
        s p
