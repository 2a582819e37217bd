-- ===== src/Sandbox/Startup/Launched.antt =====
-- One attempt to start a node: what it adds to the record of child processes.
use near_sandbox_rs.Base.{
  ℕ, Bool, ap, ◌⊎◌, inl, inr, String, Option, none, some, List, [], ◌∷◌, ◌++◌, Outcome, ok, err,
  panic, Any, Ends, Ended, Ends-bind, Ends-if, caught_result,
}
use near_sandbox_rs.ErrorKind.{SandboxError, runtime_error}
use near_sandbox_rs.Json.{Json}
use near_sandbox_rs.Config.Account.{SandboxConfig}
use near_sandbox_rs.Sandbox.Ready.{Waiting, wait_until_ready}
use near_sandbox_rs.Runner.Host.{
  Host, Machine, Act, Event, Call, noted, host_os, host_status, spawned, recorded, or_fail,
}
use near_sandbox_rs.Runner.Launch.{port_of, run_neard_with_port_guards}
use near_sandbox_rs.Runner.Rules.{
  IsOrdinary, IsExpected, Log, IsLenient, Quiet, or_fail-Ended, on_world-Quiet, exists-Quiet,
  call-Quiet,
}
use near_sandbox_rs.Runner.Install.Silent.{then_Quiet, pure-Quiet, ensure-Quiet}
use near_sandbox_rs.Sandbox.Startup.{Started, launch_attempt, on_some, readiness, clear_data}
use near_sandbox_rs.Sandbox.Startup.Tame.{acquire_or_lock_port-IsTame, wait_until_ready-IsTame}

module _ ⦃J : Json⦄ ⦃H : Host J⦄ (l : List (Event H.Child)) where
  -- What an attempt that has come to the wait has added.
  abbrev pub Launched : Option Started → Machine H → Type 0
  Launched none t = Log l t
  Launched (some r) t = Log (l ++ spawned r.process ∷ []) t

  -- An error that the wait has ended with.
  abbrev pub Answered : SandboxError ⊎ Unit {0} → Machine H → Type 0
  Answered (inl e) t = IsOrdinary e × Log l t
  Answered (inr _) t = Log l t

module _ ⦃J : Json⦄ ⦃H : Host J⦄ {R : SandboxError → Machine H → Type 0}
    {U : String → Machine H → Type 0} (L : IsLenient R U) (l : List (Event H.Child)) where
  recorded_outcome-Ended :
      {A : Type 0} (event : A → Event H.Child) (error : String → SandboxError) (r : String ⊎ A)
      (w : H.os.World) (s : Machine H)
      → ((x : String) → IsOrdinary (error x))
      → Log l s
      → Ended
          (λ a. Log (l ++ event a ∷ []))
          R
          U
          (or_fail error r)
          (record s { world = w; events = s.events ++ noted event r })
  recorded_outcome-Ended event error (inl e) w s h p = L.ordinary (error e) _ (h e)
  recorded_outcome-Ended event error (inr a) w s h p =
      ap (λ (k : List (Event H.Child)). k ++ event a ∷ []) p

  -- A call on a child appends an event.
  pub recorded-Log :
      {A : Type 0} (event : A → Event H.Child) (error : String → SandboxError)
      (c : Call H.os.World A)
      → ((x : String) → IsOrdinary (error x))
      → Ends (Log l) (recorded event error c) (λ a. Log (l ++ event a ∷ [])) R U
  recorded-Log event error c h = record {
    at = λ s p. recorded_outcome-Ended event error (c s.world).0 (c s.world).1 s h p;
  }

  port_of-Quiet : (socket : H.os.Socket) → Quiet L l (port_of socket)
  port_of-Quiet socket = record {
    at = λ s p. or_fail-Ended L l _ (H.os.local_port socket s.world) s (λ x. tt) p;
  }

  run_neard-Log :
      (home version : String) (rpc net : H.os.Socket) (quiet : Bool)
      → Ends
          (Log l)
          (run_neard_with_port_guards home version rpc net quiet)
          (λ c. Log (l ++ spawned c ∷ []))
          R
          U
  unfolding run_neard_with_port_guards
  run_neard-Log home version rpc net quiet =
      Ends-bind (λ _. Log l) _ _ (ensure-Quiet L l version)
        λ path.
          Ends-bind (λ _. Log l) _ _ (port_of-Quiet rpc)
            λ rpc_port.
              Ends-bind (λ _. Log l) _ _ (port_of-Quiet net)
                λ net_port.
                  Ends-bind (λ _. Log l) _ _ (record { at = λ s p. p })
                    λ _.
                      Ends-bind (λ _. Log l) _ _ (record { at = λ s p. p })
                        λ _.
                          Ends-bind (λ _. Log l) _ _ (record { at = λ s p. p })
                            λ vars. recorded-Log spawned runtime_error _ λ x. tt

  -- A search for a port that ends without one adds nothing.
  on_some-Launched :
      {A : Type 0} (o : Option A) (f : A → Act (Option Started))
      → ((a : A) → Ends (Log l) (f a) (Launched l) R U)
      → Ends (Log l) (on_some o f) (Launched l) R U
  on_some-Launched none f h = record { at = λ s p. p }
  on_some-Launched (some a) f h = h a

  pub launch_attempt-Launched :
      (fuel : ℕ) (config : SandboxConfig J.Value) (version home : String) (quiet : Bool)
      → Ends (Log l) (launch_attempt fuel config version home quiet) (Launched l) R U
  unfolding launch_attempt
  launch_attempt-Launched fuel config version home quiet =
      Ends-bind (λ _. Log l) _ _
        (on_world-Quiet L l _ (acquire_or_lock_port-IsTame fuel config.rpc_port))
        λ rpc. on_some-Launched rpc _ λ (rpc_guard, rpc_lock).
          Ends-bind (λ _. Log l) _ _
            (on_world-Quiet L l _ (acquire_or_lock_port-IsTame fuel config.net_port))
            λ net. on_some-Launched net _ λ (net_guard, net_lock).
              Ends-bind (λ _. Log l) _ _ (port_of-Quiet rpc_guard)
                λ port.
                  Ends-bind (λ c. Log (l ++ spawned c ∷ [])) _ _
                    (run_neard-Log home version rpc_guard net_guard quiet)
                    λ child. record { at = λ s p. p }

  caught-Answered :
      (r : Outcome SandboxError (Unit {0})) (w : Waiting H.os.World) (t : Machine H)
      → Ended (λ _. Any) (λ e _. IsOrdinary e) (λ p _. IsExpected p) r w
      → Log l t
      → Ended (Answered l) R U (caught_result r t).0 (caught_result r t).1
  caught-Answered (ok a) w t h p = p
  caught-Answered (err e) w t h p = (h, p)
  caught-Answered (panic m) w t h p = L.expected m t h

  pub readiness-Answered : (rpc_addr : String) → Ends (Log l) (readiness rpc_addr) (Answered l) R U
  unfolding readiness
  readiness-Answered rpc_addr = record {
    at = λ s p.
        let w : Waiting H.os.World = record { world = s.world; probes = s.probes } in
        let m = wait_until_ready H.overflow_checks s.env rpc_addr w in
        caught-Answered m.0 m.1 _
          ((wait_until_ready-IsTame H.overflow_checks s.env rpc_addr).at w tt) p;
  }

  pub clear_data-Quiet : (home : String) → Quiet L l (clear_data home)
  unfolding clear_data
  clear_data-Quiet home =
      then_Quiet L l _ _ (exists-Quiet L l _)
        λ there. Ends-if there _ _ (call-Quiet L l _ _ λ x. tt) (pure-Quiet L l tt)
