-- ===== src/Tests/Exits.antt =====
-- The theorems on the end of a program, at one that made two guards and dropped the first, and at one
-- with two guards for one PID.
use near_sandbox_rs.Base.{◌≡◌, refl, ap, true, false, [], ◌∷◌}
use near_sandbox_rs.Runner.Cleanup
use near_sandbox_rs.Runner.Cleanup.{
  contains, remove_one, Program, Reachable, at_start, then_step, make, release, at_exit, normal,
  interrupted, sigterm, sigkill, start,
}
use near_sandbox_rs.Runner.Cleanup.Guards.{Matches, Reachable-Matches, exit_kills, exit_spares}

abbrev program : Program
program = record {
  registry = Cleanup.drop 7 (Cleanup.new 8 (Cleanup.new 7 start.registry));
  guards = remove_one 7 (8 ∷ 7 ∷ []);
}

program-Reachable : Reachable true program
program-Reachable =
    then_step (then_step (then_step at_start (make 7 λ e. refl)) (make 8 λ e. refl)) (release 7)

-- A program whose two last guards were for one PID, and which has dropped one of these.
abbrev reused : Program
reused = record {
  registry = Cleanup.drop 7 (Cleanup.new 7 (Cleanup.new 7 (Cleanup.new 8 start.registry)));
  guards = remove_one 7 (7 ∷ 7 ∷ 8 ∷ []);
}

reused-Reachable : Reachable false reused
reused-Reachable =
    then_step
      (then_step (then_step (then_step at_start (make 8 λ e. refl)) (make 7 λ e. refl))
        (make 7 λ e. absurd (cc)))
      (release 7)

-- The other guard for the PID is alive, but its process is not killed.
unguarded_lives : (reused.guards ≡ 7 ∷ 8 ∷ []) × ((at_exit normal reused.registry).killed ≡ 8 ∷ [])
unfolding at_exit Cleanup.drop Cleanup.new Cleanup.register_pid Cleanup.unregister_pid
    Cleanup.insert Cleanup.remove Cleanup.install_handlers Cleanup.kill_all_sandboxes
    Cleanup.cleanup_remaining_sandboxes remove_one
unguarded_lives = (refl, refl)

exit_spares_example : contains 8 reused.guards ≡ true
exit_spares_example =
    exit_spares false reused normal 8 reused-Reachable (ap (contains 8) unguarded_lives.1)

Reachable-Matches_example : Matches program
Reachable-Matches_example = Reachable-Matches program-Reachable

exit_kills_example :
    (contains 8 (at_exit normal program.registry).killed ≡ contains 8 program.guards)
    × (contains 8 (at_exit interrupted program.registry).killed ≡ contains 8 program.guards)
    × ((at_exit sigterm program.registry).killed ≡ [])
    × ((at_exit sigkill program.registry).killed ≡ [])
exit_kills_example = exit_kills program 8 program-Reachable
