-- ===== src/Sandbox/Startup/Launches.antt =====
-- One attempt to launch a node, on a host on which nothing fails.
use near_sandbox_rs.Base.{
  ℕ, suc, ◌*◌, Bool, ◌≡◌, refl, ap, String, Option, none, ◌<>◌, ◌<◌, Ends-assume, some, List, [],
  ◌∷◌, ◌++◌, Ends-bind, Ends-weaken,
}
use near_sandbox_rs.Json.{Json}
use near_sandbox_rs.Config.Account.{SandboxConfig}
use near_sandbox_rs.Runner.Host.{Host, Machine, Act, Event, host_os, host_status, spawned}
use near_sandbox_rs.Runner.Paths.{rpc_socket}
use near_sandbox_rs.Sandbox.Startup.Address.{HasPort}
use near_sandbox_rs.Runner.Launch.{port_of, run_neard_with_port_guards}
use near_sandbox_rs.Sandbox.Startup.{Started, launch_attempt, on_some}
use near_sandbox_rs.Sandbox.Startup.Cooperative.{
  Works, IsCooperative, given_or_fail, IsFound, acquire-Works,
}
use near_sandbox_rs.Sandbox.Startup.Unfailing.{Fine, ensure-Works, on_world-Works, spawn-Works}

module _ ⦃J : Json⦄ ⦃H : Host J⦄ (config : SandboxConfig J.Value) (path : String) (secs : ℕ)
    (left : String → H.os.World → ℕ) (serving : H.Child → String → H.os.World → Type 0)
    (F : IsCooperative config path (secs * 2) left serving) where
  abbrev Good : List (Event H.Child) → Machine H → Type 0
  Good = Fine config path secs left serving F

  module _ (l : List (Event H.Child)) where
    port_of-Works :
        (socket : H.os.Socket)
        → Works (Good l) (port_of socket) (λ p t. HasPort socket p × Good l t)
    port_of-Works socket = record {
      at = λ s h.
          given_or_fail (λ p t. HasPort socket p × Good l t) _ (H.os.local_port socket s.world) s
            (F.named socket s.world) λ a e. ((s.world, e), h);
    }

    -- The process serves this address, and answers before it was asked too often.
    abbrev Launched : H.Child → String → Machine H → Type 0
    Launched c rpc t =
        (serving c rpc t.world × (left rpc t.world < secs * 2)) × Good (l ++ spawned c ∷ []) t

    run_neard-Works :
        (home version : String) (rpc net : H.os.Socket) (quiet : Bool)
        → Works
            (Good l)
            (run_neard_with_port_guards home version rpc net quiet)
            (λ c t. (p : ℕ) × HasPort rpc p × Launched c (rpc_socket p) t)
    unfolding run_neard_with_port_guards
    run_neard-Works home version rpc net quiet =
        Ends-bind (λ _. Good l) _ _ (ensure-Works config path secs left serving F l version)
          λ bin. Ends-bind _ _ _ (port_of-Works rpc) λ p. Ends-assume λ has.
            Ends-bind _ _ _ (port_of-Works net) λ q. Ends-assume λ has'.
              Ends-bind (λ _. Good l) _ _ (record { at = λ s h. h })
                λ _.
                  Ends-bind (λ _. Good l) _ _ (record { at = λ s h. h })
                    λ _.
                      Ends-bind (λ _. Good l) _ _ (record { at = λ s h. h })
                        λ vars.
                          Ends-weaken _
                            (λ c t ((w, q'), h). (
                              p,
                              has,
                              (
                                F.launches home (rpc_socket p) (rpc_socket q) _ c w t.world refl q',
                                h,
                              ),
                            ))
                            (λ e t h. h) (λ m t h. h)
                            (spawn-Works config path secs left serving F l _)

    -- A handle, whose process was spawned last, and serves the address of the handle.
    abbrev pub Ready : Option Started → Machine H → Type 0
    Ready none t = ⊥
    Ready (some r) t = (rpc : String) × ((r.rpc_addr ≡ "http://" <> rpc) × Launched r.process rpc t)

    abbrev pub Running : Option Started → Machine H → Type 0
    Running none t = ⊥
    Running (some r) t =
        (rpc : String) × ((r.rpc_addr ≡ "http://" <> rpc)
          × serving r.process rpc t.world
          × Good (l ++ spawned r.process ∷ []) t)

    when_some :
        {X : Type 0} (o : Option X) (f : X → Act (Option Started))
        → ((x : X) → Works (Good l) (f x) Ready)
        → Works (λ s. IsFound o × Good l s) (on_some o f) Ready
    when_some none f k = record { at = λ s h. absurd h.0 }
    when_some (some x) f k = record { at = λ s h. (k x).at s h.1 }

    pub launch-Works :
        (fuel : ℕ) (version home : String) (quiet : Bool)
        → Works (Good l) (launch_attempt (suc fuel) config version home quiet) Ready
    unfolding launch_attempt
    launch-Works fuel version home quiet =
        Ends-bind _ _ _
          (on_world-Works config path secs left serving F l _
            (acquire-Works F fuel config.rpc_port))
          λ rpc. when_some rpc _ λ (rpc_guard, rpc_lock).
            Ends-bind _ _ _
              (on_world-Works config path secs left serving F l _
                (acquire-Works F fuel config.net_port))
              λ net. when_some net _ λ (net_guard, net_lock).
                Ends-bind _ _ _ (port_of-Works rpc_guard) λ port. Ends-assume λ has.
                  Ends-bind _ _ _ (run_neard-Works home version rpc_guard net_guard quiet) λ child.
                    record {
                      at = λ s (p, has', h).
                          let same : port ≡ p =
                            F.stays rpc_guard has.0 has'.0 port p has.1 has'.1 in
                          (rpc_socket p, (ap (λ n. "http://" <> rpc_socket n) same, h));
                    }
