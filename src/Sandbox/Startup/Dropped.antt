-- ===== src/Sandbox/Startup/Dropped.antt =====
-- Dropping the handle of a node: the guard that starting it has made.
use near_sandbox_rs.Base.{
  ℕ, false, refl, ◌≡◌, Option, none, some, List, [], ◌∷◌, ok, Ends, Ended, Ends-if, Ends-ok, Any,
  arith,
}
use near_sandbox_rs.Json.{Json}
use near_sandbox_rs.Runner.Cleanup
use near_sandbox_rs.Runner.Cleanup.{contains, insert, remove}
use near_sandbox_rs.Runner.Host.{Host, Machine}
use near_sandbox_rs.Sandbox.Startup.{Started, guarded, register, drop}

remove-absent : (pid : ℕ) (ps : List ℕ) → contains pid ps ≡ false → remove pid ps ≡ ps
unfolding remove
remove-absent pid [] h = refl
remove-absent pid (p ∷ ps) h = ground (arith, remove-absent pid ps)

remove-insert : (pid : ℕ) (ps : List ℕ) → contains pid ps ≡ false → remove pid (insert pid ps) ≡ ps
unfolding insert remove
remove-insert pid ps h = ground (arith, remove-absent pid ps)

module _ ⦃J : Json⦄ ⦃H : Host J⦄ where
  -- The set of PIDs is `ps`, without the one of the child.
  abbrev pub Unregistered : List ℕ → H.Child → Machine H → Type 0
  Unregistered ps c s =
      (s.registry.pids ≡ ps) × ((pid : ℕ) → H.id c s.world ≡ some pid → contains pid ps ≡ false)

  abbrev Restores : List ℕ → Started → Machine H → Type 0
  Restores ps r t = (drop r t).registry.pids ≡ ps

  guarded-Restores :
      (ps : List ℕ) (r : Started) (pid : Option ℕ) (s : Machine H)
      → Unregistered ps r.process s
      → H.id r.process s.world ≡ pid
      → Ended (Restores ps) (λ _. Any) (λ _. Any) (guarded r pid s).0 (guarded r pid s).1
  unfolding drop Cleanup.new Cleanup.drop Cleanup.register_pid Cleanup.unregister_pid
      Cleanup.install_handlers
  guarded-Restores ps r none s p e = tt
  guarded-Restores ps r (some pid) s p e = rw p.0 (remove-insert pid ps (p.1 pid e))

  register-Restores :
      (ps : List ℕ) (r : Started)
      → r.sandbox_guard ≡ none
      → Ends (Unregistered ps r.process) (register r) (Restores ps) (λ _. Any) (λ _. Any)
  unfolding register drop
  register-Restores ps r none_yet =
      Ends-if H.singleton_cleanup _ _
        (record { at = λ s p. guarded-Restores ps r (H.id r.process s.world) s p refl })
        (record { at = λ s p. rw none_yet p.0 })

  -- Registering a node without a guard whose process has a PID that is not registered, and dropping the
  -- handle at once, leaves the set of PIDs as it was.
  pub drop-register :
      (r handle : Started) (s t : Machine H)
      → r.sandbox_guard ≡ none
      → ((pid : ℕ) → H.id r.process s.world ≡ some pid → contains pid s.registry.pids ≡ false)
      → register r s ≡ (ok handle, t)
      → (drop handle t).registry.pids ≡ s.registry.pids
  drop-register r handle s t none_yet fresh e =
      Ends-ok _ s t handle (register-Restores s.registry.pids r none_yet) (refl, fresh) e
