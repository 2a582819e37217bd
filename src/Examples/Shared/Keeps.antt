-- ===== src/Examples/Shared/Keeps.antt =====
-- What making an environment and an account leaves of the statics, and what they are.
use near_sandbox_rs.Base.{
  ℕ, String, ◌<>◌, Option, none, some, ◌⊎◌, inl, inr, decimal, Outcome, ok, err, panic, lift, ◌≡◌,
  refl, Ended, Ends, Ends-bind, Ends-if, ◌>>=◌, pure,
}
use near_sandbox_rs.ErrorKind.{SandboxError}
use near_sandbox_rs.Json.{Json}
use near_sandbox_rs.Config.Account.{default_genesis_account}
use near_sandbox_rs.Runner.Host.{Host, Call, or_panic}
use near_sandbox_rs.Sandbox.Startup.{Started, start_sandbox}
use near_sandbox_rs.Examples.Api.{Api}
use near_sandbox_rs.Examples.Shared.{
  SharedEnv, Statics, Test, expected, starting, called, env_of, init, parsed_id, create_numbered,
}

module _ ⦃J : Json⦄ ⦃H : Host J⦄ ⦃A : Api H⦄ where
  module _ (c : Option SharedEnv) (n : ℕ) where
    -- The statics of the example, whatever the machine is.
    abbrev pub Holds : Statics → Type 0
    Holds s = (s.shared_sandbox ≡ c) × (s.account_counter ≡ n)

    abbrev pub Leaves : {X : Type 0} → Test X → (X → Type 0) → Type 0
    Leaves m Q = Ends Holds m (λ x t. Q x × Holds t) (λ _. Holds) (λ _. Holds)

    lift-Leaves : {X : Type 0} (r : Outcome SandboxError X) → Leaves (lift r) (λ x. r ≡ ok x)
    lift-Leaves (ok x) = record { at = λ s p. (refl, p) }
    lift-Leaves (err e) = record { at = λ s p. p }
    lift-Leaves (panic m) = record { at = λ s p. p }

    or_panic-Ended :
        {X : Type 0} (message : String) (r : String ⊎ X) (s : Statics)
        → Holds s
        → let o : Outcome SandboxError X = or_panic message r in
          Ended (λ x t. Unit {0} × Holds t) (λ _. Holds) (λ _. Holds) o s
    or_panic-Ended message (inl e) s p = p
    or_panic-Ended message (inr x) s p = (tt, p)

    called-Leaves :
        {X : Type 0} (message : String) (f : Call H.os.World X)
        → Leaves (called message f) (λ _. Unit {0})
    called-Leaves message f = record {
      at = λ s p. or_panic-Ended message (f s.machine.world).0 _ p;
    }

    expected-Ended :
        {X : Type 0} (message : String) (r : Outcome SandboxError X) (s : Statics)
        → Holds s
        → Ended (λ x t. Unit {0} × Holds t) (λ _. Holds) (λ _. Holds) (expected message r) s
    expected-Ended message (ok x) s p = (tt, p)
    expected-Ended message (err e) s p = p
    expected-Ended message (panic m) s p = p

    starting-Leaves : (fuel : ℕ) → Leaves (starting fuel) (λ _. Unit {0})
    starting-Leaves fuel = record {
      at = λ s p. expected-Ended "Failed to start sandbox" (start_sandbox fuel s.machine).0 _ p;
    }

    -- A step of which only the statics matter later.
    next :
        {X Y : Type 0} {Q : X → Type 0} {R : Y → Type 0} (m : Test X) (f : X → Test Y)
        → Leaves m Q
        → ((x : X) → Q x → Leaves (f x) R)
        → Leaves (m >>= f) R
    next {Q = Q} m f h k =
        Ends-bind (λ x t. Q x × Holds t) m f h λ x. record { at = λ s p. (k x p.0).at s p.1 }

  -- The root account is the one of the genesis.
  abbrev pub Rooted : Option SharedEnv → Type 0
  Rooted none = Unit {0}
  Rooted (some env) = env.root_acc ≡ default_genesis_account

  env_of-Leaves :
      (c : Option SharedEnv) (n : ℕ) (sandbox : Started)
      → Leaves c n (env_of sandbox) (λ env. env.root_acc ≡ default_genesis_account)
  unfolding env_of
  env_of-Leaves c n sandbox = next c n _ _ (lift-Leaves c n _) λ url _.
      next c n _ _ (lift-Leaves c n _)
        λ key _. next c n _ _ (lift-Leaves c n _) λ signer _. record { at = λ s p. (refl, p) }

  pub init-Leaves : (c : Option SharedEnv) (n fuel : ℕ) → Leaves c n (init fuel) Rooted
  unfolding init
  init-Leaves c n fuel = next c n _ _ (starting-Leaves c n fuel) λ started _. by_start started
    where
      by_start :
          (started : Option Started)
          → let m : Test (Option SharedEnv) = elim started [
            | none ↦ pure none
            | some sandbox ↦ do env ← env_of sandbox; pure (some env)
          ] in
            Leaves c n m Rooted
      by_start none = record { at = λ s p. (tt, p) }
      by_start (some sandbox) =
          next c n _ _ (env_of-Leaves c n sandbox) λ env q. record { at = λ s p. (q, p) }

  pub create_numbered-Leaves :
      (c : Option SharedEnv) (k : ℕ) (env : SharedEnv) (balance n : ℕ)
      → Leaves c k (create_numbered env balance n) (λ r. r.0 ≡ decimal n <> "." <> env.root_acc)
  unfolding create_numbered
  create_numbered-Leaves c k env balance n =
      let id = decimal n <> "." <> env.root_acc in
      next c k _ _ (lift-Leaves c k _) λ account_id q. next c k _ _ (called-Leaves c k _ _) λ key _.
        next c k _ _ (lift-Leaves c k _) λ signer _.
          next c k _ _ (called-Leaves c k _ _) λ succeeded _.
            Ends-if succeeded _ _
              (record { at = λ s p. (parsed_id-eq-ok id (A.account_error id) account_id q, p) })
              (record { at = λ s p. p })
    where
      parsed_id-eq-ok :
          (id : String) (e : Option String) (x : String) → parsed_id id e ≡ ok x → x ≡ id
      parsed_id-eq-ok id none x h = cc
      parsed_id-eq-ok id (some e) x h = absurd (cc)
