-- ===== src/Sandbox/Startup/Cooperative.antt =====
-- A host on which nothing fails, and what the parts of a start do on it.
use near_sandbox_rs.Base.{
  ℕ, suc, ◌≤◌, ◌<◌, Bool, true, false, ◌≡◌, refl, sym, subst, ◌⊎◌, inl, inr, String, ◌<>◌, Option,
  none, some, [], ◌∷◌, Exec, Any, Ends, Ended, Ends-bind, pure, if◌then◌else◌, ◌>>◌, lift,
}
use near_sandbox_rs.ErrorKind.{SandboxError, TcpError, locking_error}
use near_sandbox_rs.Json.{Json}
use near_sandbox_rs.Config.Account.{SandboxConfig}
use near_sandbox_rs.Config.Genesis.Prepared.{IsPrepared}
use near_sandbox_rs.Sandbox.Ports.{
  Startup, or_error, lock_name, local_port, create_lock, try_lock, or_false, discard, bound_socket,
  pick_unused_port_guard, acquire_unused_port_guard, try_acquire_specific_port_guard,
  acquire_or_lock_port,
}
use near_sandbox_rs.Sandbox.Startup.Address.{IsBound}
use near_sandbox_rs.Runner.Host.{Host, Command, Call, host_os, host_status, or_fail}

abbrev pub Succeeds : {W A : Type 0} → Call W A → Type 0
Succeeds {W} {A} c = (w : W) → (a : A) × ((c w).0 ≡ inr a)

-- A computation that returns, with `Q`.
abbrev pub Works : {S A : Type 0} → (S → Type 0) → Exec S SandboxError A → (A → S → Type 0) → Type 0
Works P m Q = Ends P m Q (λ _ _. ⊥) (λ _ _. ⊥)

-- The URL that is asked for the status of a node with this RPC address.
abbrev pub status_url : String → String
status_url address = ("http://" <> address) <> "/status"

-- What is relied on: sockets, lock files, folders and processes can be had, the port of a socket is
-- known and stays what it is, and no lock is refused; the binary stays where it is; once `neard init`
-- has run, its home folder is prepared; and what is written to a folder is there. A node that is
-- spawned to run serves the RPC address that its arguments give: as long as it does, which waiting
-- and asking for its status do not end, its PID is known, and it answers at that address before it
-- was asked `rounds` times. `left` says how many requests it still leaves without an answer.
pub record IsCooperative ⦃J : Json⦄ ⦃H : Host J⦄ (config : SandboxConfig J.Value) (path : String)
    (rounds : ℕ) (left : String → H.os.World → ℕ) (serving : H.Child → String → H.os.World → Type 0)
    : Type 0 where
  pub opens : Succeeds H.os.new_v4
  pub reuses : (s : H.os.Socket) → Succeeds (H.os.set_reuseaddr s)
  pub binds : (s : H.os.Socket) (port : ℕ) → Succeeds (H.os.bind s port)
  pub named : (s : H.os.Socket) (w : H.os.World) → (port : ℕ) × (H.os.local_port s w ≡ inr port)
  pub creates : (name : String) → Succeeds (H.os.create name)
  pub locks : (file : H.os.File) (w : H.os.World) → (H.os.try_lock file w).0 ≡ inr true
  pub has_temp : Succeeds H.temp_dir
  pub spawns : (command : Command) → Succeeds (H.spawn command)
  pub installed : (w : H.os.World) → H.exists path w ≡ true
  pub prepares :
      (home : String) (command : Command) (c : H.Child) (v w : H.os.World)
      → command.args ≡ "--home" ∷ home ∷ "init" ∷ "--fast" ∷ []
      → H.spawn command v ≡ (inr c, w)
      → ((H.wait c w).0 ≡ inr tt) × IsPrepared config (H.folder home (H.wait c w).1)
  pub keeps : (home : String) (d : _) (w : H.os.World) → H.folder home (H.put_folder home d w) ≡ d
  pub stays : IsBound
  pub launches :
      (home rpc net : String) (command : Command) (c : H.Child) (v w : H.os.World)
      → command.args ≡ "--home" ∷ home ∷ "run" ∷ "--rpc-addr" ∷ rpc ∷ "--network-addr" ∷ net ∷ []
      → H.spawn command v ≡ (inr c, w)
      → serving c rpc w × (left rpc w < rounds)
  pub has_id :
      (c : H.Child) (rpc : String) (w : H.os.World)
      → serving c rpc w
      → (pid : ℕ) × (H.id c w ≡ some pid)
  pub answers :
      (c : H.Child) (rpc : String) (w : H.os.World)
      → serving c rpc w
      → let r = H.get (status_url rpc) w in
        serving c rpc r.1 × ((r.0 ≡ inr true) ⊎ ((r.0 ≡ inr false) × (left rpc r.1 < left rpc w)))
  pub waits :
      (c : H.Child) (rpc : String) (t : ℕ) (w : H.os.World)
      → serving c rpc w
      → serving c rpc (H.wait_until t w) × (left rpc (H.wait_until t w) ≤ left rpc w)

pub given_or_fail :
    {S E A : Type 0} (Q : A → S → Type 0) (error : String → E) (r : String ⊎ A) (t : S)
    → (a : A) × (r ≡ inr a)
    → ((a : A) → r ≡ inr a → Q a t)
    → Ended Q (λ _ _. ⊥) (λ _ _. ⊥) (or_fail error r) t
given_or_fail Q error (inl e) t g k = absurd (cc g.1)
given_or_fail Q error (inr b) t g k = k b refl

given_or_error :
    {S A : Type 0} (Q : A → S → Type 0) (error : String → TcpError) (r : String ⊎ A) (t : S)
    → (a : A) × (r ≡ inr a)
    → ((a : A) → r ≡ inr a → Q a t)
    → Ended Q (λ _ _. ⊥) (λ _ _. ⊥) (or_error error r) t
given_or_error Q error (inl e) t g k = absurd (cc g.1)
given_or_error Q error (inr b) t g k = k b refl

abbrev pub IsFound : {A : Type 0} → Option A → Type 0
IsFound none = ⊥
IsFound (some a) = Unit {0}

module _ ⦃J : Json⦄ ⦃H : Host J⦄ {config : SandboxConfig J.Value} {path : String} {rounds : ℕ}
    {left : String → H.os.World → ℕ} {serving : H.Child → String → H.os.World → Type 0}
    (F : IsCooperative config path rounds left serving) where
  bound_socket-Works : (port : ℕ) → Works Any (bound_socket ⦃O = H.os⦄ port) (λ _. Any)
  unfolding bound_socket
  bound_socket-Works port =
      Ends-bind (λ _. Any) _ _
        (record {
          at = λ w _. given_or_error (λ _. Any) _ (H.os.new_v4 w).0 _ (F.opens w) λ a e. tt;
        })
        λ fresh.
          Ends-bind (λ _. Any) _ _
            (record {
              at = λ w _.
                  given_or_error (λ _. Any) _ (H.os.set_reuseaddr fresh w).0 _ (F.reuses fresh w)
                    λ a e. tt;
            })
            λ reusable. record {
              at = λ w _.
                  given_or_error (λ _. Any) _ (H.os.bind reusable port w).0 _
                    (F.binds reusable port w) λ a e. tt;
            }

  local_port-Works : (s : H.os.Socket) → Works Any (local_port ⦃O = H.os⦄ s) (λ _. Any)
  local_port-Works s = record {
    at = λ w _. given_or_error (λ _. Any) _ (H.os.local_port s w) w (F.named s w) λ a e. tt;
  }

  create_lock-Works : (port : ℕ) → Works Any (create_lock ⦃O = H.os⦄ port) (λ _. Any)
  create_lock-Works port = record {
    at = λ w _.
        given_or_error (λ _. Any) _ (H.os.create (lock_name port) w).0 _
          (F.creates (lock_name port) w) λ a e. tt;
  }

  try_lock-Works :
      (file : H.os.File) → Works Any (try_lock ⦃O = H.os⦄ file) (λ answer _. answer ≡ inr true)
  try_lock-Works file = record { at = λ w _. F.locks file w }

  unused-Works :
      (fuel : ℕ) → Works Any (acquire_unused_port_guard ⦃O = H.os⦄ (suc fuel)) (λ o _. IsFound o)
  unfolding acquire_unused_port_guard pick_unused_port_guard
  unused-Works fuel =
      Ends-bind (λ _. Any) _ _ (bound_socket-Works 0)
        λ guard.
          Ends-bind (λ _. Any) _ _ (local_port-Works guard)
            λ port.
              Ends-bind (λ _. Any) _ _ (create_lock-Works port)
                λ file.
                  Ends-bind (λ answer _. answer ≡ inr true) _ _ (try_lock-Works file)
                    λ answer. record {
                      at = λ w e.
                          subst
                            (λ x.
                              let r =
                                (if or_false x
                                    then pure (some (guard, file))
                                    else (discard guard file >> acquire_unused_port_guard fuel))
                                  w in
                              Ended (λ o _. IsFound o) (λ _ _. ⊥) (λ _ _. ⊥) r.0 r.1)
                            (sym e) tt;
                    }

  specific-Works :
      (port : ℕ) → Works Any (try_acquire_specific_port_guard ⦃O = H.os⦄ port) (λ _. Any)
  unfolding try_acquire_specific_port_guard
  specific-Works configured =
      Ends-bind (λ _. Any) _ _ (bound_socket-Works configured)
        λ guard.
          Ends-bind (λ _. Any) _ _ (local_port-Works guard)
            λ port.
              Ends-bind (λ _. Any) _ _ (create_lock-Works port)
                λ file.
                  Ends-bind (λ answer _. answer ≡ inr true) _ _ (try_lock-Works file)
                    λ answer.
                      Ends-bind (λ locked _. locked ≡ true) _ _ (lift_answer answer)
                        λ locked. if_locked locked guard file _
    where
      lift_answer :
          (answer : String ⊎ Bool)
          → let m : Startup Bool = lift (or_error locking_error answer) in
            Works (λ _. answer ≡ inr true) m (λ locked _. locked ≡ true)
      lift_answer (inl e) = record { at = λ w h. absurd (cc) }
      lift_answer (inr b) = record { at = λ w h. cc }

      if_locked :
          (locked : Bool) (guard : H.os.Socket) (file : H.os.File)
          (rest : Startup (H.os.Socket × H.os.File))
          → Works (λ _. locked ≡ true) (if locked then pure (guard, file) else rest) (λ _. Any)
      if_locked true guard file rest = record { at = λ w h. tt }
      if_locked false guard file rest = record { at = λ w h. absurd (cc) }

  pub acquire-Works :
      (fuel : ℕ) (configured : Option ℕ)
      → Works Any (acquire_or_lock_port ⦃O = H.os⦄ (suc fuel) configured) (λ o _. IsFound o)
  unfolding acquire_or_lock_port
  acquire-Works fuel none = unused-Works fuel
  acquire-Works fuel (some port) =
      Ends-bind (λ _. Any) _ _ (specific-Works port) λ acquired. record { at = λ w _. tt }
