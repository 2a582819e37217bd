-- ===== src/Sandbox/Ports/Locked.antt =====
-- A port that was acquired is locked.
use near_sandbox_rs.Base.{
  ℕ, zero, suc, true, ◌≡◌, inr, Option, none, some, ok, Triple, Triple-bind, Triple-Any,
  Triple-lift, fail, Any, Triple-pure, subst, false, Bool, if◌then◌else◌, pure, ap, String, ◌⊎◌,
  inl,
}
use near_sandbox_rs.ErrorKind.{SandboxError, TcpError, local_addr_error, locking_error}
use near_sandbox_rs.Sandbox.Ports.{
  Os, Startup, or_error, or_false, local_port, create_lock, try_lock, lock_name,
  acquire_unused_port_guard, try_acquire_specific_port_guard, acquire_or_lock_port,
}

module _ ⦃O : Os⦄ where
  -- The socket has a port, and of the file with that port's name the lock was taken last of all.
  abbrev pub IsLocked : O.Socket → O.File → O.World → Type 0
  IsLocked socket file w =
      (u : O.World) × (port : ℕ) × (v : O.World) × (O.local_port socket u ≡ inr port)
      × (O.create (lock_name port) u ≡ (inr file, v))
      × (O.try_lock file v ≡ (inr true, w))

  abbrev pub IfLocked : Option (O.Socket × O.File) → O.World → Type 0
  IfLocked none w = Unit {0}
  IfLocked (some (socket, file)) w = IsLocked socket file w

  pub or_error-eq-ok :
      {A : Type 0} (f : String → TcpError) (r : String ⊎ A) (a : A)
      → or_error f r ≡ ok a
      → r ≡ inr a
  or_error-eq-ok f (inl e) a h = cc
  or_error-eq-ok f (inr b) a h = cc

  abbrev HasPort : O.Socket → ℕ → O.World → Type 0
  HasPort socket port u = O.local_port socket u ≡ inr port

  abbrev HasFile : O.Socket → ℕ → O.File → O.World → Type 0
  HasFile socket port file v =
      (u : O.World) × HasPort socket port u × (O.create (lock_name port) u ≡ (inr file, v))

  local_port-HasPort : (guard : O.Socket) → Triple Any (local_port guard) (HasPort guard)
  local_port-HasPort guard = record {
    at = λ s t port _ e.
        let same : s ≡ t = ap (λ r. r.1) e in
        subst (HasPort guard port) same (or_error-eq-ok local_addr_error _ port (ap (λ r. r.0) e));
  }

  create_lock-HasFile :
      (guard : O.Socket) (port : ℕ)
      → Triple (HasPort guard port) (create_lock port) (HasFile guard port)
  create_lock-HasFile guard port = record {
    at = λ s t file p e. (
      s,
      p,
      cc (or_error-eq-ok locking_error (O.create (lock_name port) s).0 file (ap (λ r. r.0) e)),
    );
  }

  -- What is known of the lock and the file when locking has been tried.
  abbrev Tried : O.Socket → ℕ → O.File → String ⊎ Bool → O.World → Type 0
  Tried guard port file locked w =
      (v : O.World) × HasFile guard port file v × (O.try_lock file v ≡ (locked, w))

  try_lock-Tried :
      (guard : O.Socket) (port : ℕ) (file : O.File)
      → Triple (HasFile guard port file) (try_lock file) (Tried guard port file)
  try_lock-Tried guard port file = record { at = λ s t locked p e. (s, p, cc) }

  after_Tried :
      (guard : O.Socket) (port : ℕ) (file : O.File) (locked : String ⊎ Bool)
      (rest : Startup (Option (O.Socket × O.File)))
      → Triple Any rest IfLocked
      → Triple
          (Tried guard port file locked)
          (if or_false locked then pure (some (guard, file)) else rest)
          IfLocked
  after_Tried guard port file (inl e) rest h = record { at = λ s t a p e. h.at s t a tt e }
  after_Tried guard port file (inr false) rest h = record { at = λ s t a p e. h.at s t a tt e }
  after_Tried guard port file (inr true) rest h =
      Triple-pure (some (guard, file))
        λ w (v, (u, has, created), tried). (u, port, v, has, created, tried)

  acquire_unused_port_guard-IfLocked :
      (fuel : ℕ) → Triple Any (acquire_unused_port_guard fuel) IfLocked
  unfolding acquire_unused_port_guard
  acquire_unused_port_guard-IfLocked zero = Triple-pure none λ s p. tt
  acquire_unused_port_guard-IfLocked (suc fuel) =
      Triple-bind (λ _. Any) _ _ (Triple-Any _)
        λ guard. Triple-bind (HasPort guard) _ _ (local_port-HasPort guard) λ port.
          Triple-bind (HasFile guard port) _ _ (create_lock-HasFile guard port) λ file.
            Triple-bind (Tried guard port file) _ _ (try_lock-Tried guard port file) λ locked.
              after_Tried guard port file locked _ (
                Triple-bind (λ _. Any) _ _ (Triple-Any _)
                  λ _. acquire_unused_port_guard-IfLocked fuel)

  -- With a lock that was taken; the other branch has failed.
  after_attempt :
      (guard : O.Socket) (port : ℕ) (file : O.File) (attempt : String ⊎ Bool) (locked : Bool)
      (e : SandboxError)
      → let m : Startup (O.Socket × O.File) = if locked then pure (guard, file) else fail e in
        Triple
          (λ w. Tried guard port file attempt w × (or_error locking_error attempt ≡ ok locked))
          m
          (λ r. IsLocked r.0 r.1)
  after_attempt guard port file attempt false e = record { at = λ s t a p q. absurd (cc q) }
  after_attempt guard port file attempt true e =
      Triple-pure _ λ w ((v, (u, has, created), tried), known). (
        u,
        port,
        v,
        has,
        created,
        subst (λ x. O.try_lock file v ≡ (x, w)) (or_error-eq-ok locking_error attempt true known)
            tried,
      )

  specific-IsLocked :
      (port : ℕ) → Triple Any (try_acquire_specific_port_guard port) (λ r. IsLocked r.0 r.1)
  unfolding try_acquire_specific_port_guard
  specific-IsLocked configured =
      Triple-bind (λ _. Any) _ _ (Triple-Any _)
        λ guard. Triple-bind (HasPort guard) _ _ (local_port-HasPort guard) λ port.
          Triple-bind (HasFile guard port) _ _ (create_lock-HasFile guard port) λ file.
            Triple-bind (Tried guard port file) _ _ (try_lock-Tried guard port file) λ attempt.
              Triple-bind _ _ _ (Triple-lift _)
                λ locked. after_attempt guard port file attempt locked _

  pub acquire_or_lock_port-IfLocked :
      (fuel : ℕ) (configured : Option ℕ)
      → Triple Any (acquire_or_lock_port fuel configured) IfLocked
  unfolding acquire_or_lock_port
  acquire_or_lock_port-IfLocked fuel none = acquire_unused_port_guard-IfLocked fuel
  acquire_or_lock_port-IfLocked fuel (some port) =
      Triple-bind (λ r. IsLocked r.0 r.1) _ _ (specific-IsLocked port)
        λ r. Triple-pure (some r) λ s p. p

  -- A socket and a file that `acquire_or_lock_port` returns, for a port that was asked for or any,
  -- belong together: the socket had a port, the file was created with that port's name, and last of
  -- all the lock on the file was taken.
  pub acquire_or_lock_port_locks :
      (fuel : ℕ) (configured : Option ℕ) (s t : O.World) (socket : O.Socket) (file : O.File)
      → acquire_or_lock_port fuel configured s ≡ (ok (some (socket, file)), t)
      → IsLocked socket file t
  acquire_or_lock_port_locks fuel configured s t socket file e =
      (acquire_or_lock_port-IfLocked fuel configured).at s t (some (socket, file)) tt e
