-- ===== src/Sandbox/Startup/Returns.antt =====
-- A start on a host on which nothing fails.
use near_sandbox_rs.Base.{
  ℕ, zero, suc, ◌*◌, ◌^◌, ◌<◌, ◌≡◌, refl, ◌∙◌, String, ◌<>◌, Option, none, some, List, [], ◌∷◌,
  ◌++◌, append_assoc, Outcome, ok, err, panic, Any, Ended, Ends-bind, Ends-assume, Ends-weaken,
  Ends-some, ◌>>◌, ◌>>=◌, arith,
}
use near_sandbox_rs.Base.Dict
use near_sandbox_rs.Base.Dict.{Dict}
use near_sandbox_rs.ErrorKind.{SandboxError}
use near_sandbox_rs.Json.{Json, IsLawful}
use near_sandbox_rs.Disk.{Disk}
use near_sandbox_rs.Config.Account.{SandboxConfig}
use near_sandbox_rs.Config.Node.{set_sandbox_configs_with_config}
use near_sandbox_rs.Config.Genesis.{set_sandbox_genesis_with_config}
use near_sandbox_rs.Config.Genesis.Prepared.{
  IsPrepared, HasGenesis, configs-HasGenesis, genesis-Works,
}
use near_sandbox_rs.Sandbox.Ready.{timeout_secs}
use near_sandbox_rs.Runner.Host.{Host, Machine, Event, host_os, host_status, spawned, waited}
use near_sandbox_rs.Sandbox.Startup.{
  Started, attempts, in_folder, max_num_port_retries, start_sandbox_with_config_and_version,
}
use near_sandbox_rs.Sandbox.Startup.Whole.{retries-positive}
use near_sandbox_rs.Sandbox.Startup.Unfailing.{
  Fine, Prepared, suppress-Works, init_home-Works, in_folder-Works,
}
use near_sandbox_rs.Sandbox.Startup.Launches.{Running, launch-Works}
use near_sandbox_rs.Sandbox.Startup.Cooperative.{Works, IsCooperative}
use near_sandbox_rs.Sandbox.Startup.Awaited.{Awaited, on_launched-Works}

module _ ⦃J : Json⦄ ⦃H : Host J⦄ where
  -- A handle is returned, its process serves the address of the handle, and these are the processes
  -- on record.
  abbrev pub Returned :
      (H.Child → String → H.os.World → Type 0)
      → List (Event H.Child)
      → Outcome SandboxError (Option Started)
      → Machine H
      → Type 0
  Returned serving l (ok (some r)) t =
      ((rpc : String) × (r.rpc_addr ≡ "http://" <> rpc) × serving r.process rpc t.world)
      × ((c : H.Child) × (t.events ≡ l ++ spawned c ∷ waited c ∷ spawned r.process ∷ []))
  Returned serving l _ t = ⊥

module _ ⦃J : Json⦄ ⦃H : Host J⦄ (config : SandboxConfig J.Value) (path : String) (secs : ℕ)
    (left : String → H.os.World → ℕ) (serving : H.Child → String → H.os.World → Type 0)
    (F : IsCooperative config path (secs * 2) left serving) where
  -- The conditions on states, for this host.
  abbrev Good : List (Event H.Child) → Machine H → Type 0
  Good = Fine config path secs left serving F

  abbrev Home : (Disk J.Bytes → Type 0) → String → List (Event H.Child) → Machine H → Type 0
  Home = Prepared config path secs left serving F

  abbrev Runs : List (Event H.Child) → Option Started → Machine H → Type 0
  Runs = Running config path secs left serving F

  module _ (fits : secs * 2 < 2 ^ 64) (l : List (Event H.Child)) where
    attempts-Works :
        (fuel max before : ℕ) (version home : String)
        → 0 < before
        → Works (Good l) (attempts (suc fuel) config version home max before) (Runs l)
    unfolding attempts
    attempts-Works fuel max zero version home h = absurd (omega arith)
    attempts-Works fuel max (suc before) version home h =
        Ends-bind (Awaited config path secs left serving F l) _ _
          (launch-Works config path secs left serving F l fuel version home _)
          λ launched. on_launched-Works config path secs left serving F fits l launched max before _

  -- The processes on record once the home folder is prepared.
  abbrev prepared_by : List (Event H.Child) → H.Child → List (Event H.Child)
  prepared_by l c = (l ++ spawned c ∷ []) ++ waited c ∷ []

  module _ (fits : secs * 2 < 2 ^ 64) (L : IsLawful) where
    configure-Works :
        (l : List (Event H.Child)) (fuel : ℕ) (version home : String)
        → Works
            (Home (IsPrepared config) home l)
            ((λ s. in_folder home (set_sandbox_configs_with_config s.env config) s)
              >> (in_folder home (set_sandbox_genesis_with_config config)
                  >> ((λ s. (ok (max_num_port_retries s.env config.port_transfer_retries), s))
                      >>= λ max. attempts (suc fuel) config version home max max)))
            (Runs l)
    configure-Works l fuel version home =
        Ends-bind (λ _. Home (HasGenesis config) home l) _ _
          (record {
            at = λ s h.
                (in_folder-Works config path secs left serving F l (IsPrepared config)
                    (HasGenesis config) home (set_sandbox_configs_with_config s.env config)
                    (configs-HasGenesis s.env config)).at
                  s h;
          })
          λ _.
            Ends-bind (λ _. Home Any home l) _ _
              (in_folder-Works config path secs left serving F l (HasGenesis config) Any home
                (set_sandbox_genesis_with_config config) λ d g. (genesis-Works L config d g, tt))
              λ _.
                Ends-bind (λ max t. (0 < max) × Good l t) _ _
                  (record {
                    at = λ s h. (retries-positive s.env config.port_transfer_retries, h.1);
                  })
                  λ max.
                    Ends-assume
                      λ some_left. attempts-Works fits l fuel max max version home some_left

    start-Works :
        (l : List (Event H.Child)) (fuel : ℕ) (version : String)
        → Works
            (Good l)
            (start_sandbox_with_config_and_version (suc fuel) config version)
            (λ o t. (c : H.Child) × Runs (prepared_by l c) o t)
    unfolding start_sandbox_with_config_and_version
    start-Works l fuel version =
        Ends-bind (λ _. Good l) _ _ (suppress-Works config path secs left serving F l)
          λ _. Ends-bind _ _ _ (init_home-Works config path secs left serving F l version) λ home.
            Ends-some λ c.
              Ends-weaken _ (λ o t h. (c, h)) (λ e t h. h) (λ m t h. h)
                (configure-Works (prepared_by l c) fuel version home)

    -- On a host where sockets, lock files, folders and processes can be had and no lock is refused,
    -- where the port of a socket is known and stays what it is, the binary that the variable names stays
    -- where it is, what is written to a folder is there, and the home folder is prepared once `neard
    -- init` has run, with a genesis whose supply and the balances to add stay below 2 ^ 128; where the
    -- seconds to wait are known and their double fits into 64 bits; and where a node that is spawned to
    -- run, as long as it serves the RPC address of its arguments, which waiting and asking for its status
    -- do not end, has a PID and answers at that address before as many requests were made as the double
    -- of the seconds: a start, with fuel for one port, returns a handle whose process serves the address
    -- of the handle. It has run one process to prepare the folder, which was waited for, and only one
    -- more, that of the handle.
    pub start_returns :
        (fuel : ℕ) (version : String) (s : Machine H)
        → Dict.at_key s.env "NEAR_SANDBOX_BIN_PATH" ≡ some path
        → timeout_secs s.env ≡ ok secs
        → let r = start_sandbox_with_config_and_version (suc fuel) config version s in
          Returned serving s.events r.0 r.1
    start_returns fuel version s given known =
        let r = start_sandbox_with_config_and_version (suc fuel) config version s in
        returned r.0 r.1 ((start-Works s.events fuel version).at s (given, known, refl))
      where
        returned :
            (r : Outcome SandboxError (Option Started)) (t : Machine H)
            → Ended
                (λ o u. (c : H.Child) × Runs (prepared_by s.events c) o u)
                (λ _ _. ⊥)
                (λ _ _. ⊥)
                r
                t
            → Returned serving s.events r t
        returned (ok (some x)) t (c, (rpc, (named, serves, h))) = (
          (rpc, named, serves),
          (
            c,
            h.2
                ∙ append_assoc (s.events ++ spawned c ∷ []) (waited c ∷ []) (spawned x.process ∷ [])
                ∙ append_assoc s.events (spawned c ∷ []) (waited c ∷ spawned x.process ∷ []),
          ),
        )
        returned (ok none) t (c, h) = h
        returned (err e) t h = h
        returned (panic m) t h = h
