-- ===== src/Sandbox/Ports/Chosen.antt =====
-- A socket that was asked for with a port is bound to that port.
use near_sandbox_rs.Base.{
  ℕ, true, false, Bool, ◌≡◌, ap, inr, Option, none, some, Any, Triple, Triple-bind, Triple-Any,
  Triple-pure, if◌then◌else◌, pure, fail,
}
use near_sandbox_rs.ErrorKind.{SandboxError, bind_error}
use near_sandbox_rs.Sandbox.Ports.{
  Os, Startup, bound_socket, try_acquire_specific_port_guard, acquire_or_lock_port,
}
use near_sandbox_rs.Sandbox.Ports.Locked.{or_error-eq-ok}

module _ ⦃O : Os⦄ where
  -- `bind` has returned the socket for this port.
  abbrev pub BoundTo : ℕ → O.Socket → Type 0
  BoundTo port s = (before : O.Socket) × (w : O.World) × ((O.bind before port w).0 ≡ inr s)

  abbrev pub IfBound : Option ℕ → Option (O.Socket × O.File) → Type 0
  IfBound none o = Unit {0}
  IfBound (some port) none = Unit {0}
  IfBound (some port) (some (s, file)) = BoundTo port s

  bound_socket-BoundTo : (port : ℕ) → Triple Any (bound_socket port) (λ s _. BoundTo port s)
  unfolding bound_socket
  bound_socket-BoundTo port =
      Triple-bind (λ _. Any) _ _ (Triple-Any _)
        λ fresh.
          Triple-bind (λ _. Any) _ _ (Triple-Any _)
            λ reusable. record {
              at = λ s t a _ e. (
                reusable,
                s,
                or_error-eq-ok (bind_error port) (O.bind reusable port s).0 a (ap (λ r. r.0) e),
              );
            }

  specific-BoundTo :
      (port : ℕ) → Triple Any (try_acquire_specific_port_guard port) (λ r _. BoundTo port r.0)
  unfolding try_acquire_specific_port_guard
  specific-BoundTo port =
      Triple-bind (λ s _. BoundTo port s) _ _ (bound_socket-BoundTo port)
        λ guard.
          Triple-bind (λ _ _. BoundTo port guard) _ _ (record { at = λ s t a p e. p })
            λ number.
              Triple-bind (λ _ _. BoundTo port guard) _ _ (record { at = λ s t a p e. p })
                λ file.
                  Triple-bind (λ _ _. BoundTo port guard) _ _ (record { at = λ s t a p e. p })
                    λ attempt.
                      Triple-bind (λ _ _. BoundTo port guard) _ _ (record { at = λ s t a p e. p })
                        λ locked. by_lock locked guard file _
    where
      by_lock :
          (locked : Bool) (guard : O.Socket) (file : O.File) (e : SandboxError)
          → let m : Startup (O.Socket × O.File) = if locked then pure (guard, file) else fail e in
            Triple (λ _. BoundTo port guard) m (λ r _. BoundTo port r.0)
      by_lock true guard file e = Triple-pure (guard, file) λ s p. p
      by_lock false guard file e = record { at = λ s t a p h. absurd (cc) }

  pub acquire_or_lock_port-IfBound :
      (fuel : ℕ) (configured : Option ℕ)
      → Triple Any (acquire_or_lock_port fuel configured) (λ o _. IfBound configured o)
  unfolding acquire_or_lock_port
  acquire_or_lock_port-IfBound fuel none = record { at = λ s t o p e. tt }
  acquire_or_lock_port-IfBound fuel (some port) =
      Triple-bind (λ r _. BoundTo port r.0) _ _ (specific-BoundTo port)
        λ r. Triple-pure (some r) λ s p. p
