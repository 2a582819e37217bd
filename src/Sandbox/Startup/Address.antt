-- ===== src/Sandbox/Startup/Address.antt =====
-- What the handle of a node says of the process, the ports and the locks behind it.
use near_sandbox_rs.Base.{
  ℕ, Bool, true, ◌≡◌, refl, ap, ◌⊎◌, inl, inr, String, ◌<>◌, Option, none, some, [], ◌∷◌, ok, Any,
  Triple, Triple-bind, Triple-Any, Triple-weaken,
}
use near_sandbox_rs.ErrorKind.{runtime_error}
use near_sandbox_rs.Json.{Json}
use near_sandbox_rs.Config.Account.{SandboxConfig}
use near_sandbox_rs.Sandbox.Ports.{lock_name, acquire_or_lock_port}
use near_sandbox_rs.Sandbox.Ports.Locked.{IfLocked, acquire_or_lock_port-IfLocked}
use near_sandbox_rs.Sandbox.Ports.Chosen.{IfBound, acquire_or_lock_port-IfBound}
use near_sandbox_rs.Runner.Host.{
  Host, Machine, Act, Command, host_os, host_status, or_fail, on_world,
}
use near_sandbox_rs.Runner.Paths.{rpc_socket}
use near_sandbox_rs.Runner.Launch.{port_of, spawn, run_neard_with_port_guards}
use near_sandbox_rs.Sandbox.Startup.{Started}

module _ ⦃J : Json⦄ ⦃H : Host J⦄ where
  -- What is relied on: the port of a socket stays what it is.
  abbrev pub IsBound : Type 0
  IsBound =
      (s : H.os.Socket) (u w : H.os.World) (p q : ℕ)
      → H.os.local_port s u ≡ inr p
      → H.os.local_port s w ≡ inr q
      → p ≡ q

  -- What is relied on: a socket that is bound to a port other than 0 has that port.
  abbrev pub IsExact : Type 0
  IsExact =
      (before : H.os.Socket) (after : H.os.Socket) (port q : ℕ) (u w : H.os.World)
      → (H.os.bind before port u).0 ≡ inr after
      → H.os.local_port after w ≡ inr q
      → (port ≡ 0) ⊎ (q ≡ port)

  -- The port that was configured, unless that is none or 0.
  abbrev pub Chosen : Option ℕ → ℕ → Type 0
  Chosen none q = Unit {0}
  Chosen (some port) q = (port ≡ 0) ⊎ (q ≡ port)

  abbrev pub HasPort : H.os.Socket → ℕ → Type 0
  HasPort s p = (w : H.os.World) × (H.os.local_port s w ≡ inr p)

  -- The lock for a port was taken, by a file that was created for it.
  abbrev pub Locks : ℕ → H.os.File → Type 0
  Locks port file =
      (u : H.os.World) × (v : H.os.World) × (w : H.os.World) × (H.os.create (lock_name port) u
        ≡ (inr file, v))
      × (H.os.try_lock file v ≡ (inr true, w))

  -- The process was spawned to run in the folder and to listen on the two ports.
  pub record Runs (home : String) (rpc net : ℕ) (child : H.Child) : Type 0 where
    pub command : Command
    pub args :
        command.args
        ≡ "--home"
          ∷ home
          ∷ "run"
          ∷ "--rpc-addr"
          ∷ rpc_socket rpc
          ∷ "--network-addr"
          ∷ rpc_socket net
          ∷ []
    pub world : H.os.World
    pub left : H.os.World
    pub spawns : H.spawn command world ≡ (inr child, left)

  -- One RPC port is in the address, in the arguments and in the name of the lock; one other port for
  -- the network is in the arguments and the name of the other lock.
  pub record Serves (config : SandboxConfig J.Value) (r : Started) : Type 0 where
    pub rpc : ℕ
    pub net : ℕ
    pub runs : Runs r.home_dir rpc net r.process
    pub address : r.rpc_addr ≡ "http://" <> rpc_socket rpc
    pub rpc_locked : Locks rpc r.rpc_port_lock
    pub net_locked : Locks net r.net_port_lock
    pub rpc_chosen : Chosen config.rpc_port rpc
    pub net_chosen : Chosen config.net_port net

  abbrev pub IfServes : SandboxConfig J.Value → Option Started → Machine H → Type 0
  IfServes config none t = Unit {0}
  IfServes config (some r) t = Serves config r

  pub Triple-assume' :
      {F X : Type 0} {m : Act X} {Q : X → Machine H → Type 0}
      → (F → Triple Any m Q)
      → Triple (λ _. F) m Q
  Triple-assume' h = record { at = λ s t a p e. (h p).at s t a tt e }

  -- What is known once a port is reserved.
  abbrev pub Reserved : Option ℕ → H.os.Socket → H.os.File → Type 0
  Reserved configured s file =
      (port : ℕ) × HasPort s port × Locks port file × IfBound configured (some (s, file))

  abbrev pub IfReserved : Option ℕ → Option (H.os.Socket × H.os.File) → Type 0
  IfReserved configured none = Unit {0}
  IfReserved configured (some (s, file)) = Reserved configured s file

  or_fail-eq-ok :
      {E X : Type 0} (error : String → E) (r : String ⊎ X) (x : X)
      → or_fail error r ≡ ok x
      → r ≡ inr x
  or_fail-eq-ok error (inl e) x h = cc
  or_fail-eq-ok error (inr y) x h = cc

  pub acquire-Reserved :
      (fuel : ℕ) (port : Option ℕ)
      → Triple Any (on_world (acquire_or_lock_port fuel port)) (λ o _. IfReserved port o)
  acquire-Reserved fuel port = record {
    at = λ s t o _ e.
        let ran = ap (λ r. (r.0, r.1.world)) e in
        by_answer o t.world ((acquire_or_lock_port-IfLocked fuel port).at s.world t.world o tt ran)
          ((acquire_or_lock_port-IfBound fuel port).at s.world t.world o tt ran);
  }
    where
      by_answer :
          (o : Option (H.os.Socket × H.os.File)) (w : H.os.World)
          → IfLocked o w
          → IfBound port o
          → IfReserved port o
      by_answer none w h b = tt
      by_answer (some (socket, file)) w (u, n, v, has, created, tried) b =
          (n, (u, has), (u, v, w, created, tried), b)

  pub IfBound-Chosen :
      IsExact
      → (configured : Option ℕ) (s : H.os.Socket) (file : H.os.File) (q : ℕ) → HasPort s q
      → IfBound configured (some (s, file))
      → Chosen configured q
  IfBound-Chosen exact none s file q has b = tt
  IfBound-Chosen exact (some port) s file q (w, has) (before, u, bound) =
      exact before s port q u w bound has

  pub port_of-HasPort : (s : H.os.Socket) → Triple Any (port_of s) (λ p _. HasPort s p)
  port_of-HasPort s = record {
    at = λ m t p _ e. (m.world, or_fail-eq-ok _ (H.os.local_port s m.world) p (ap (λ r. r.0) e));
  }

  abbrev Spawned : Command → H.Child → Type 0
  Spawned command child =
      (w : H.os.World) × (left : H.os.World) × (H.spawn command w ≡ (inr child, left))

  spawn-Spawned : (command : Command) → Triple Any (spawn command) (λ c _. Spawned command c)
  spawn-Spawned command = record {
    at = λ s t c _ e. (
      s.world,
      (H.spawn command s.world).1,
      ap (λ x. (x, (H.spawn command s.world).1))
          (or_fail-eq-ok runtime_error (H.spawn command s.world).0 c (ap (λ r. r.0) e)),
    );
  }

  -- What `run_neard_with_port_guards` finds out about the sockets.
  abbrev pub RunsOn : String → H.os.Socket → H.os.Socket → H.Child → Type 0
  RunsOn home rpc net child =
      (p : ℕ) × (q : ℕ) × HasPort rpc p × HasPort net q × Runs home p q child

  pub run_neard-RunsOn :
      (home version : String) (rpc net : H.os.Socket) (quiet : Bool)
      → Triple Any
          (run_neard_with_port_guards home version rpc net quiet)
          (λ c _. RunsOn home rpc net c)
  unfolding run_neard_with_port_guards
  run_neard-RunsOn home version rpc net quiet =
      Triple-bind (λ _. Any) _ _ (Triple-Any _)
        λ path. Triple-bind _ _ _ (port_of-HasPort rpc) λ p. Triple-assume' λ has.
          Triple-bind _ _ _ (port_of-HasPort net) λ q. Triple-assume' λ has'.
            Triple-bind (λ _. Any) _ _ (Triple-Any _)
              λ _.
                Triple-bind (λ _. Any) _ _ (Triple-Any _)
                  λ _.
                    Triple-bind (λ _. Any) _ _ (Triple-Any _)
                      λ vars. Triple-weaken _ (spawn-Spawned _) λ child _ (w, left, spawns). (
                        p,
                        q,
                        has,
                        has',
                        record {
                          command = _;
                          args = refl;
                          world = w;
                          left = left;
                          spawns = spawns;
                        },
                      )
