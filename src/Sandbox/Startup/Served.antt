-- ===== src/Sandbox/Startup/Served.antt =====
-- The handle that a start returns serves what was asked for.
use mathlib.Core.Path.{subst₂}
use near_sandbox_rs.Base.{
  ℕ, zero, suc, Bool, ◌≡◌, ap, subst, ◌⊎◌, inl, inr, String, ◌<>◌, Option, none, some, ok, ◌>>=◌,
  Any, Triple, Triple-bind, Triple-if, Triple-pure, Triple-Any,
}
use near_sandbox_rs.ErrorKind.{SandboxError, timeout_error}
use near_sandbox_rs.Json.{Json}
use near_sandbox_rs.Config.Account.{SandboxConfig}
use near_sandbox_rs.Runner.Host.{Host, Machine, Act, host_os, host_status}
use near_sandbox_rs.Runner.Paths.{rpc_socket}
use near_sandbox_rs.Sandbox.Startup.{
  Started, launch_attempt, on_some, settle, register, readiness, guarded, attempts,
  start_sandbox_with_config_and_version,
}
use near_sandbox_rs.Sandbox.Startup.Address.{
  IsBound, IsExact, Runs, Serves, IfServes, Reserved, IfReserved, Triple-assume', acquire-Reserved,
  IfBound-Chosen, port_of-HasPort, run_neard-RunsOn,
}

module _ ⦃J : Json⦄ ⦃H : Host J⦄ where
  module _ (stable : IsBound) (exact : IsExact) (home version : String)
      (config : SandboxConfig J.Value) where
    launch_attempt-IfServes :
        (fuel : ℕ) (quiet : Bool)
        → Triple Any (launch_attempt fuel config version home quiet) (IfServes config)
    unfolding launch_attempt
    launch_attempt-IfServes fuel quiet =
        Triple-bind _ _ _ (acquire-Reserved fuel config.rpc_port) λ rpc. Triple-assume' λ reserved.
          on_some-IfServes config.rpc_port rpc _ reserved
            λ (rpc_guard, rpc_lock) (p, rpc_has, rpc_locks, rpc_bound).
              Triple-bind _ _ _ (acquire-Reserved fuel config.net_port) λ net.
                Triple-assume' λ reserved'.
                  on_some-IfServes config.net_port net _ reserved'
                    λ (net_guard, net_lock) (q, net_has, net_locks, net_bound).
                      Triple-bind _ _ _ (port_of-HasPort rpc_guard) λ port. Triple-assume' λ named.
                        Triple-bind _ _ _ (run_neard-RunsOn home version rpc_guard net_guard quiet)
                          λ child. Triple-assume' λ (p', q', has, has', runs).
                            let named_rpc =
                              stable rpc_guard named.0 rpc_has.0 port p named.1 rpc_has.1 in
                            let ran_rpc = stable rpc_guard has.0 rpc_has.0 p' p has.1 rpc_has.1 in
                            let ran_net = stable net_guard has'.0 net_has.0 q' q has'.1 net_has.1 in
                            Triple-pure _ λ s _. record {
                              rpc = p;
                              net = q;
                              runs = subst₂ (λ x y. Runs home x y child) ran_rpc ran_net runs;
                              address = ap (λ x. "http://" <> rpc_socket x) named_rpc;
                              rpc_locked = rpc_locks;
                              net_locked = net_locks;
                              rpc_chosen =
                                  IfBound-Chosen exact config.rpc_port rpc_guard rpc_lock p rpc_has
                                    rpc_bound;
                              net_chosen =
                                  IfBound-Chosen exact config.net_port net_guard net_lock q net_has
                                    net_bound;
                            }
      where
        on_some-IfServes :
            (port : Option ℕ) (o : Option (H.os.Socket × H.os.File))
            (f : H.os.Socket × H.os.File → Act (Option Started))
            → IfReserved port o
            → ((x : H.os.Socket × H.os.File)
                → Reserved port x.0 x.1
                → Triple Any (f x) (IfServes config))
            → Triple Any (on_some o f) (IfServes config)
        on_some-IfServes port none f h k = Triple-pure none λ s p. tt
        on_some-IfServes port (some x) f h k = k x h

    -- A guard changes nothing of this.
    register-Serves :
        (r : Started) → Serves config r → Triple Any (register r) (λ h _. Serves config h)
    unfolding register
    register-Serves r v =
        Triple-if H.singleton_cleanup _ _
          (record { at = λ s t h _ e. by_id (H.id r.process s.world) s t h e })
          (Triple-pure r λ s p. v)
      where
        by_id :
            (id : Option ℕ) (s t : Machine H) (h : Started)
            → guarded r id s ≡ (ok h, t)
            → Serves config h
        by_id none s t h e = absurd (cc)
        by_id (some pid) s t h e =
            let same : record r { sandbox_guard = some pid } ≡ h = cc in
            subst (Serves config) same (record {
              rpc = v.rpc;
              net = v.net;
              runs = v.runs;
              address = v.address;
              rpc_locked = v.rpc_locked;
              net_locked = v.net_locked;
              rpc_chosen = v.rpc_chosen;
              net_chosen = v.net_chosen;
            })

    settle-IfServes :
        (max left : ℕ) (r : Started) (ready : SandboxError ⊎ Unit {0})
        (again : Act (Option Started))
        → Serves config r
        → Triple Any again (IfServes config)
        → Triple Any (settle max left r ready again) (IfServes config)
    unfolding settle
    settle-IfServes max left r (inr _) again v h =
        Triple-bind _ _ _ (register-Serves r v) λ handle. Triple-pure (some handle) λ s p. p
    settle-IfServes max zero r (inl timeout_error) again v h =
        Triple-bind (λ _. Any) _ _ (Triple-Any _) λ _. record { at = λ s t a p e. absurd (cc) }
    settle-IfServes max (suc left) r (inl timeout_error) again v h =
        Triple-bind (λ _. Any) _ _ (Triple-Any _)
          λ _.
            Triple-bind (λ _. Any) _ _ (Triple-Any _)
              λ _. Triple-bind (λ _. Any) _ _ (Triple-Any _) λ _. h
    settle-IfServes max left r (inl e) again v h =
        Triple-bind (λ _. Any) _ _ (Triple-Any _) λ _. record { at = λ s t a p e. absurd (cc) }

    on_launched-IfServes :
        (max left : ℕ) (o : Option Started) (again : Act (Option Started))
        → Triple Any again (IfServes config)
        → Triple
            (IfServes config o)
            (on_some o λ r. readiness r.rpc_addr >>= λ ready. settle max left r ready again)
            (IfServes config)
    on_launched-IfServes max left none again h = record {
      at = λ s t a p e. let same : none ≡ a = cc in subst (λ o. IfServes config o t) same tt;
    }
    on_launched-IfServes max left (some r) again h = Triple-assume' λ v.
        Triple-bind (λ _. Any) _ _ (Triple-Any _)
          λ ready. settle-IfServes max left r ready again v h

    attempts-IfServes :
        (fuel max left : ℕ)
        → Triple Any (attempts fuel config version home max left) (IfServes config)
    unfolding attempts
    attempts-IfServes fuel max zero = record { at = λ s t a p e. absurd (cc) }
    attempts-IfServes fuel max (suc left) =
        Triple-bind _ _ _ (launch_attempt-IfServes fuel _)
          λ launched. on_launched-IfServes max left launched _ (attempts-IfServes fuel max left)

  start-IfServes :
      IsBound
      → IsExact
      → (fuel : ℕ) (config : SandboxConfig J.Value) (version : String)
      → Triple Any (start_sandbox_with_config_and_version fuel config version) (IfServes config)
  unfolding start_sandbox_with_config_and_version
  start-IfServes stable exact fuel config version =
      Triple-bind (λ _. Any) _ _ (Triple-Any _)
        λ _.
          Triple-bind (λ _. Any) _ _ (Triple-Any _)
            λ home.
              Triple-bind (λ _. Any) _ _ (Triple-Any _)
                λ _.
                  Triple-bind (λ _. Any) _ _ (Triple-Any _)
                    λ _.
                      Triple-bind (λ _. Any) _ _ (Triple-Any _)
                        λ max. attempts-IfServes stable exact home version config fuel max max

  -- Where the port of a socket stays what it is, and a socket that is bound to a port other than 0 has
  -- that port: the process of a handle that a start returns was spawned to run in the handle's folder
  -- and to listen on two ports of localhost. The first one is in the address of the handle, and each is
  -- in the name of the file whose lock was taken for the handle. A port that was configured, and is not
  -- 0, is the one that is used.
  pub start-Serves :
      (stable : IsBound) (exact : IsExact) (fuel : ℕ) (config : SandboxConfig J.Value)
      (version : String) (s t : Machine H) (r : Started)
      → start_sandbox_with_config_and_version fuel config version s ≡ (ok (some r), t)
      → Serves config r
  start-Serves stable exact fuel config version s t r e =
      (start-IfServes stable exact fuel config version).at s t (some r) tt e
