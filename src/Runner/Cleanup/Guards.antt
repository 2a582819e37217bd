-- ===== src/Runner/Cleanup/Guards.antt =====
-- The PIDs that are registered are those of the guards that are alive.
use near_sandbox_rs.Base.{
  ℕ, Bool, true, false, [], ◌≡◌, refl, ◌∙◌, ◌==◌, if◌then◌else◌, ◌||◌, arith, ap, sym,
}
use near_sandbox_rs.Runner.Cleanup.{
  Exit, remove_one, contains, new, drop, register_pid, unregister_pid, install_handlers,
  kill_all_sandboxes, cleanup_remaining_sandboxes, handle_interrupt, normal, interrupted, sigterm,
  sigkill, at_exit, Program, Step, make, release, Reachable, at_start, then_step,
}
use near_sandbox_rs.Runner.Cleanup.Pids.{
  Unique, contains-insert, contains-remove, contains-append, contains-remove_one_other,
  remove_one-Unique, contains-remove_one,
}

-- In any program, a registered PID is that of a guard that is alive, without handlers there is no
-- guard, and nothing has been killed.
record Covers (s : Program) : Type 0 where
  pub covered : (p : ℕ) → contains p s.registry.pids ≡ true → contains p s.guards ≡ true
  pub installs : s.registry.installed ≡ false → s.guards ≡ []
  pub spares : s.registry.killed ≡ []

Step-Covers : {exclusive : Bool} {s t : Program} → Step exclusive s t → Covers s → Covers t
unfolding new drop register_pid unregister_pid install_handlers remove_one
Step-Covers (make {s} pid fresh) c = record {
  covered = λ p h. ground (arith, contains-insert pid p s.registry.pids, c.covered p, h);
  installs = λ h. absurd (cc);
  spares = c.spares;
}
Step-Covers (release {s} pid) c = record {
  covered = λ p h. ground (
    arith,
    contains-remove pid p s.registry.pids,
    contains-remove_one_other pid p s.guards,
    c.covered p,
    h,
  );
  installs = λ h. ap (remove_one pid) (c.installs h);
  spares = c.spares;
}

Reachable-Covers : {exclusive : Bool} {s : Program} → Reachable exclusive s → Covers s
Reachable-Covers at_start = record { covered = λ p h. h; installs = λ h. refl; spares = refl }
Reachable-Covers (then_step r step) = Step-Covers step (Reachable-Covers r)

-- In every state that a program can reach, whether or not several of its guards are for one PID, and
-- however it ends: a process that is killed then has a guard that has not been dropped.
pub exit_spares :
    (exclusive : Bool) (s : Program) (e : Exit) (p : ℕ)
    → Reachable exclusive s
    → contains p (at_exit e s.registry).killed ≡ true
    → contains p s.guards ≡ true
unfolding at_exit cleanup_remaining_sandboxes handle_interrupt kill_all_sandboxes
exit_spares exclusive s normal p r h =
    let c = Reachable-Covers r in
    ground (arith, contains-append p s.registry.killed s.registry.pids, c.covered p, c.spares, h)
exit_spares exclusive s interrupted p r h =
    let c = Reachable-Covers r in
    ground (arith, contains-append p s.registry.killed s.registry.pids, c.covered p, c.spares, h)
exit_spares exclusive s sigterm p r h = let c = Reachable-Covers r in ground (arith, c.spares, h)
exit_spares exclusive s sigkill p r h = let c = Reachable-Covers r in ground (arith, c.spares, h)

-- The registered PIDs are those of the guards, without handlers there is no guard, nothing has been
-- killed, and no two guards are for one PID.
pub record Matches (s : Program) : Type 0 where
  pub same : (p : ℕ) → contains p s.registry.pids ≡ contains p s.guards
  pub guarded : s.registry.installed ≡ false → s.guards ≡ []
  pub spared : s.registry.killed ≡ []
  pub unique : Unique s.guards

Step-Matches : {s t : Program} → Step true s t → Matches s → Matches t
unfolding new drop register_pid unregister_pid install_handlers remove_one
Step-Matches (make {s} pid fresh) m = record {
  same = λ p. contains-insert pid p s.registry.pids ∙ ap (λ b. (pid == p) || b) (m.same p);
  guarded = λ h. absurd (cc);
  spared = m.spared;
  unique = (fresh refl, m.unique);
}
Step-Matches (release {s} pid) m = record {
  same = λ p.
      contains-remove pid p s.registry.pids
      ∙ ap (λ b. if pid == p then false else b) (m.same p)
      ∙ sym (contains-remove_one pid p s.guards m.unique);
  guarded = λ h. ap (remove_one pid) (m.guarded h);
  spared = m.spared;
  unique = remove_one-Unique pid s.guards m.unique;
}

-- In every state that a program can reach, if it makes a guard for a PID only while no other guard
-- for that PID is alive: the registered PIDs are those of the guards that are alive, there are guards
-- only if the handlers are installed, and, since only the end of the program kills, nothing has been
-- killed; and no two guards are for one PID.
pub Reachable-Matches : {s : Program} → Reachable true s → Matches s
Reachable-Matches at_start = record {
  same = λ p. refl;
  guarded = λ h. refl;
  spared = refl;
  unique = tt;
}
Reachable-Matches (then_step r step) = Step-Matches step (Reachable-Matches r)

-- In every state that a program can reach, if it makes a guard for a PID only while no other guard
-- for that PID is alive: when it ends normally or by SIGINT, the processes that are killed then are
-- exactly those whose guard has not been dropped; when it ends by SIGTERM or SIGKILL, none is killed.
pub exit_kills :
    (s : Program) (p : ℕ)
    → Reachable true s
    → (contains p (at_exit normal s.registry).killed ≡ contains p s.guards)
      × (contains p (at_exit interrupted s.registry).killed ≡ contains p s.guards)
      × ((at_exit sigterm s.registry).killed ≡ [])
      × ((at_exit sigkill s.registry).killed ≡ [])
unfolding at_exit cleanup_remaining_sandboxes handle_interrupt kill_all_sandboxes
exit_kills s p r =
    let m = Reachable-Matches r in
    let all = contains-append p s.registry.killed s.registry.pids in
    (
      ground (arith, all, m.same p, m.guarded, m.spared),
      ground (arith, all, m.same p, m.guarded, m.spared),
      ground (arith, m.spared),
      ground (arith, m.spared),
    )
