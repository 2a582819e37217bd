-- ===== src/Sandbox/Startup/Tame.antt =====
-- Reserving a port and waiting for a node end with errors and panics of their own only.
use near_sandbox_rs.Base.{
  ℕ, zero, suc, ◌+◌, ◌*◌, ◌^◌, ltb, Bool, true, false, refl, ◌⊎◌, inl, inr, String, Option, none,
  some, Any, Ended, Ends-bind, Ends-if, Ends-pure, Ends-fail, Exec, pure, lift, Outcome, ok, panic,
  ◌>>=◌, parse_unsigned, if◌then◌else◌,
}
use near_sandbox_rs.Base.Dict
use near_sandbox_rs.Base.Dict.{Dict}
use near_sandbox_rs.ErrorKind.{SandboxError, TcpError, locking_error}
use near_sandbox_rs.Runner.Rules.{IsOrdinary, IsExpected, IsTame}
use near_sandbox_rs.Sandbox.Ports.{
  Os, or_error, or_false, bound_socket, pick_unused_port_guard, acquire_unused_port_guard,
  try_acquire_specific_port_guard, acquire_or_lock_port, new_v4, set_reuseaddr, bind, local_port,
  create_lock, lock_name,
}
use near_sandbox_rs.Sandbox.Ready.{
  Status, Waiting, timeout_secs, twice, wait_rounds, wait_until_ready, joined,
}

module _ {S : Type 0} where
  then_IsTame :
      {A B : Type 0} (m : Exec S SandboxError A) (f : A → Exec S SandboxError B)
      → IsTame m
      → ((a : A) → IsTame (f a))
      → IsTame (m >>= f)
  then_IsTame m f h k = Ends-bind (λ _. Any) m f h k

  pure-IsTame : {A : Type 0} (a : A) → IsTame {S = S} (pure a)
  pure-IsTame a = Ends-pure a (λ s p. tt)

-- An error of a socket or a lock.
or_error-Ended :
    {W A : Type 0} (error : String → TcpError) (r : String ⊎ A) (w : W)
    → Ended (λ _. Any) (λ e _. IsOrdinary e) (λ p _. IsExpected p) (or_error error r) w
or_error-Ended error (inl e) w = tt
or_error-Ended error (inr a) w = tt

module _ ⦃O : Os⦄ where
  lift-or_error-IsTame :
      {A : Type 0} (error : String → TcpError) (r : String ⊎ A)
      → IsTame {S = O.World} (lift (or_error error r))
  lift-or_error-IsTame error r = record { at = λ s p. or_error-Ended error r s }

  new_v4-IsTame : IsTame new_v4
  new_v4-IsTame = record { at = λ w p. or_error-Ended _ (O.new_v4 w).0 (O.new_v4 w).1 }

  set_reuseaddr-IsTame : (s : O.Socket) → IsTame (set_reuseaddr s)
  set_reuseaddr-IsTame s = record {
    at = λ w p. or_error-Ended _ (O.set_reuseaddr s w).0 (O.set_reuseaddr s w).1;
  }

  bind-IsTame : (s : O.Socket) (port : ℕ) → IsTame (bind s port)
  bind-IsTame s port = record {
    at = λ w p. or_error-Ended _ (O.bind s port w).0 (O.bind s port w).1;
  }

  local_port-IsTame : (s : O.Socket) → IsTame (local_port s)
  local_port-IsTame s = record { at = λ w p. or_error-Ended _ (O.local_port s w) w }

  create_lock-IsTame : (port : ℕ) → IsTame (create_lock port)
  create_lock-IsTame port = record {
    at = λ w p. or_error-Ended _ (O.create (lock_name port) w).0 (O.create (lock_name port) w).1;
  }

  bound_socket-IsTame : (port : ℕ) → IsTame (bound_socket port)
  unfolding bound_socket
  bound_socket-IsTame port =
      then_IsTame _ _ new_v4-IsTame
        λ fresh. then_IsTame _ _ (set_reuseaddr-IsTame fresh) λ reusable. bind-IsTame reusable port

  acquire_unused-IsTame : (fuel : ℕ) → IsTame (acquire_unused_port_guard fuel)
  unfolding acquire_unused_port_guard pick_unused_port_guard
  acquire_unused-IsTame zero = pure-IsTame none
  acquire_unused-IsTame (suc fuel) = then_IsTame _ _ (bound_socket-IsTame 0) λ guard.
      then_IsTame _ _ (local_port-IsTame guard) λ port.
        then_IsTame _ _ (create_lock-IsTame port) λ file.
          then_IsTame _ _ (record { at = λ w p. tt })
            λ locked.
              Ends-if (or_false locked) _ _ (pure-IsTame _)
                (then_IsTame _ _ (record { at = λ w p. tt }) λ _. acquire_unused-IsTame fuel)

  pub acquire_or_lock_port-IsTame :
      (fuel : ℕ) (configured : Option ℕ) → IsTame (acquire_or_lock_port fuel configured)
  unfolding acquire_or_lock_port try_acquire_specific_port_guard
  acquire_or_lock_port-IsTame fuel none = acquire_unused-IsTame fuel
  acquire_or_lock_port-IsTame fuel (some configured) =
      then_IsTame _ _
        (then_IsTame _ _ (bound_socket-IsTame configured) λ guard.
          then_IsTame _ _ (local_port-IsTame guard) λ port.
            then_IsTame _ _ (create_lock-IsTame port) λ file.
              then_IsTame _ _ (record { at = λ w p. tt })
                λ attempt.
                  then_IsTame _ _ (lift-or_error-IsTame locking_error attempt)
                    λ locked. Ends-if locked _ _ (pure-IsTame _) (Ends-fail _ λ s p. tt))
        λ acquired. pure-IsTame (some acquired)

module _ ⦃N : Status⦄ where
  joined-IsTame : (r : String ⊎ Bool) → IsTame {S = Waiting N.World} (lift (joined r))
  joined-IsTame (inl e) = record { at = λ s p. tt }
  joined-IsTame (inr b) = record { at = λ s p. tt }

  wait_rounds-IsTame : (n : ℕ) (url : String) (start k : ℕ) → IsTame (wait_rounds n url start k)
  unfolding wait_rounds
  wait_rounds-IsTame zero url start k = Ends-fail _ λ s p. tt
  wait_rounds-IsTame (suc n) url start k =
      then_IsTame _ _ (record { at = λ s p. tt })
        λ _.
          then_IsTame _ _ (record { at = λ s p. tt })
            λ answer. then_IsTame _ _ (joined-IsTame answer) λ responded.
              Ends-if responded _ _ (pure-IsTame tt) (wait_rounds-IsTame n url start (k + 1))

  -- A test on the way to an outcome.
  lift_if-IsTame :
      {A : Type 0} (c : Bool) (r t : Outcome SandboxError A)
      → IsTame {S = Waiting N.World} (lift r)
      → IsTame {S = Waiting N.World} (lift t)
      → IsTame {S = Waiting N.World} (lift (if c then r else t))
  lift_if-IsTame true r t h k = h
  lift_if-IsTame false r t h k = k

  twice-IsTame : (checks : Bool) (n : ℕ) → IsTame {S = Waiting N.World} (lift (twice checks n))
  unfolding twice
  twice-IsTame checks n =
      lift_if-IsTame (ltb (n * 2) (2 ^ 64)) _ _ (pure-IsTame _)
        (lift_if-IsTame checks _ _ (record { at = λ s p. refl }) (pure-IsTame _))

  parsed_secs-IsTame :
      (n : Option ℕ)
      → let r : Outcome SandboxError ℕ = elim n [
        | none ↦ panic "Failed to parse NEAR_RPC_TIMEOUT_SECS"
        | some k ↦ ok k
      ] in
        IsTame {S = Waiting N.World} (lift r)
  parsed_secs-IsTame none = record { at = λ s p. refl }
  parsed_secs-IsTame (some n) = pure-IsTame n

  read_secs-IsTame :
      (given : Option String)
      → let r : Outcome SandboxError ℕ = elim given [
        | none ↦ ok 10
        | some secs ↦ elim (parse_unsigned (2 ^ 64) secs) [
          | none ↦ panic "Failed to parse NEAR_RPC_TIMEOUT_SECS"
          | some n ↦ ok n
        ]
      ] in
        IsTame {S = Waiting N.World} (lift r)
  read_secs-IsTame none = pure-IsTame 10
  read_secs-IsTame (some secs) = parsed_secs-IsTame (parse_unsigned (2 ^ 64) secs)

  secs-IsTame : (env : Dict String) → IsTame {S = Waiting N.World} (lift (timeout_secs env))
  unfolding timeout_secs
  secs-IsTame env = read_secs-IsTame (Dict.at_key env "NEAR_RPC_TIMEOUT_SECS")

  pub wait_until_ready-IsTame :
      (checks : Bool) (env : Dict String) (rpc : String) → IsTame (wait_until_ready checks env rpc)
  unfolding wait_until_ready
  wait_until_ready-IsTame checks env rpc = then_IsTame _ _ (secs-IsTame env) λ secs.
      then_IsTame _ _ (record { at = λ s p. tt })
        λ start. then_IsTame _ _ (twice-IsTame checks secs) λ n. wait_rounds-IsTame n _ start 0
