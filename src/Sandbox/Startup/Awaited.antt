-- ===== src/Sandbox/Startup/Awaited.antt =====
-- What follows on the launch of a node, on a host on which nothing fails.
use near_sandbox_rs.Base.{
  ℕ, ◌*◌, ◌^◌, ◌<◌, Bool, ◌≡◌, refl, sym, subst, ◌⊎◌, inl, inr, String, ◌<>◌, Option, none, some,
  List, [], ◌∷◌, ◌++◌, Outcome, ok, err, panic, Ended, Ends-bind, Ends-if, Ends-assume, Ends-weaken,
  Ends-some, ◌>>=◌, arith, caught_result,
}
use near_sandbox_rs.Base.Dict.{Dict}
use near_sandbox_rs.ErrorKind.{SandboxError}
use near_sandbox_rs.Json.{Json}
use near_sandbox_rs.Config.Account.{SandboxConfig}
use near_sandbox_rs.Sandbox.Ready.{Waiting, timeout_secs, wait_rounds, wait_until_ready, twice}
use near_sandbox_rs.Runner.Host.{Host, Machine, Act, Event, host_os, host_status, spawned}
use near_sandbox_rs.Sandbox.Startup.{Started, on_some, settle, register, guarded, readiness}
use near_sandbox_rs.Sandbox.Startup.Unfailing.{Fine}
use near_sandbox_rs.Sandbox.Startup.Launches.{Running, Ready}
use near_sandbox_rs.Sandbox.Startup.Cooperative.{Works, IsCooperative}
use near_sandbox_rs.Sandbox.Startup.Answered.{StillServing, wait_rounds-Works}

module _ ⦃J : Json⦄ ⦃H : Host J⦄ (config : SandboxConfig J.Value) (path : String) (secs : ℕ)
    (left : String → H.os.World → ℕ) (serving : H.Child → String → H.os.World → Type 0)
    (F : IsCooperative config path (secs * 2) left serving) where
  abbrev Good : List (Event H.Child) → Machine H → Type 0
  Good = Fine config path secs left serving F

  abbrev Runs : List (Event H.Child) → Option Started → Machine H → Type 0
  Runs = Running config path secs left serving F

  -- A handle whose node has just been spawned
  abbrev pub Awaited : List (Event H.Child) → Option Started → Machine H → Type 0
  Awaited = Ready config path secs left serving F

  -- The node serves the address, and the record of children reads `l`.
  abbrev Serving : List (Event H.Child) → Started → String → Machine H → Type 0
  Serving l r rpc s =
      (r.rpc_addr ≡ "http://" <> rpc)
      × serving r.process rpc s.world
      × Good (l ++ spawned r.process ∷ []) s

  module _ (fits : secs * 2 < 2 ^ 64) (l : List (Event H.Child)) where
    wait_until_ready-run :
        (checks : Bool) (env : Dict String) (rpc : String) (s : Waiting H.os.World)
        → timeout_secs env ≡ ok secs
        → wait_until_ready ⦃N = host_status⦄ checks env rpc s
          ≡ wait_rounds ⦃N = host_status⦄ (secs * 2) (rpc <> "/status") (H.now s.world) 0 s
    unfolding wait_until_ready twice ◌>>=◌
    wait_until_ready-run checks env rpc s known = ground arith

    readiness-Works :
        (c : H.Child) (rpc : String)
        → Works
            (λ s. (serving c rpc s.world × (left rpc s.world < secs * 2)) × Good l s)
            (readiness ("http://" <> rpc))
            (λ x t. (x ≡ inr tt) × serving c rpc t.world × Good l t)
    unfolding readiness
    readiness-Works c rpc = record {
      at = λ s (answering, h).
          let w : Waiting H.os.World = record { world = s.world; probes = s.probes } in
          let m = wait_until_ready ⦃N = host_status⦄ H.overflow_checks s.env ("http://" <> rpc) w in
          let run = wait_until_ready-run H.overflow_checks s.env ("http://" <> rpc) w h.1 in
          by_end m.0 m.1 s
            (subst (λ r. Ended (λ _. StillServing F c rpc) (λ _ _. ⊥) (λ _ _. ⊥) r.0 r.1) (sym run)
              ((wait_rounds-Works F c rpc (secs * 2) (H.now s.world) 0).at w answering))
            h;
    }
      where
        by_end :
            (r : Outcome SandboxError (Unit {0})) (w : Waiting H.os.World) (s : Machine H)
            → Ended (λ _. StillServing F c rpc) (λ _ _. ⊥) (λ _ _. ⊥) r w
            → Good l s
            → let e = caught_result r (record s { world = w.world; probes = w.probes }) in
              Ended
                (λ x t. (x ≡ inr tt) × serving c rpc t.world × Good l t)
                (λ _ _. ⊥)
                (λ _ _. ⊥)
                e.0
                e.1
        by_end (ok _) w s e h = (refl, e, h)
        by_end (err x) w s e h = absurd e
        by_end (panic m) w s e h = absurd e

    -- The guard of a node that serves
    register-Works :
        (r : Started) (rpc : String)
        → Works (Serving l r rpc) (register r) (λ x t. Runs l (some x) t)
    unfolding register
    register-Works r rpc =
        Ends-if H.singleton_cleanup _ _
          (record {
            at = λ s h. by_id (H.id r.process s.world) (F.has_id r.process rpc s.world h.1) s h;
          })
          (record { at = λ s h. (rpc, h) })
      where
        by_id :
            (o : Option ℕ)
            → (pid : ℕ) × (o ≡ some pid)
            → (s : Machine H) → Serving l r rpc s
            → Ended
                (λ x t. Runs l (some x) t)
                (λ _ _. ⊥)
                (λ _ _. ⊥)
                (guarded r o s).0
                (guarded r o s).1
        by_id none g s h = absurd (cc g.1)
        by_id (some pid) g s h = (rpc, h)

    settle-Works :
        (max before : ℕ) (r : Started) (rpc : String) (ready : SandboxError ⊎ Unit {0})
        (again : Act (Option Started))
        → Works
            (λ s. (ready ≡ inr tt) × Serving l r rpc s)
            (settle max before r ready again)
            (Runs l)
    unfolding settle
    settle-Works max before r rpc (inl e) again = record { at = λ s h. absurd (cc h.0) }
    settle-Works max before r rpc (inr _) again = record {
      at = λ s h.
          (Ends-bind (λ x. Runs l (some x)) _ _ (register-Works r rpc)
              λ handle. record { at = λ t k. k }).at
            s h.1;
    }

  module _ (fits : secs * 2 < 2 ^ 64) (l : List (Event H.Child)) where
    -- The wait for a node that answers in time, at the address of the handle.
    awaited-Works :
        (r : Started) (rpc : String)
        → r.rpc_addr ≡ "http://" <> rpc
        → Works
            (λ s.
              (serving r.process rpc s.world × (left rpc s.world < secs * 2))
              × Good (l ++ spawned r.process ∷ []) s)
            (readiness r.rpc_addr)
            (λ x t. (x ≡ inr tt) × Serving l r rpc t)
    awaited-Works r rpc named =
        subst
          (λ address.
            Works
              (λ s.
                (serving r.process rpc s.world × (left rpc s.world < secs * 2))
                × Good (l ++ spawned r.process ∷ []) s)
              (readiness address) (λ x t. (x ≡ inr tt) × Serving l r rpc t))
          (sym named)
          (Ends-weaken _ (λ x t (e, serves, h). (e, (named, serves, h))) (λ e t h. h) (λ m t h. h)
            (readiness-Works fits (l ++ spawned r.process ∷ []) r.process rpc))

    pub on_launched-Works :
        (o : Option Started) (max before : ℕ) (again : Act (Option Started))
        → Works
            (Awaited l o)
            (on_some o λ r. readiness r.rpc_addr >>= λ ready. settle max before r ready again)
            (Runs l)
    on_launched-Works none max before again = record { at = λ s h. absurd h }
    on_launched-Works (some r) max before again = Ends-some λ rpc. Ends-assume λ named.
        Ends-bind _ _ _ (awaited-Works r rpc named)
          λ ready. settle-Works fits l max before r rpc ready again
