-- ===== src/Runner/Cleanup.antt =====
-- src/runner/cleanup.rs: which node processes are killed when the program exits. A set of PIDs is
-- a list without repetitions; the order in which a set is iterated is not fixed, and nothing here
-- depends on it. The lock of the set is never poisoned, since nothing panics while it is held.
pub mod Pids
pub mod Guards
use near_sandbox_rs.Base.{ℕ, Bool, true, false, List, [], ◌∷◌, ◌++◌, ◌≡◌, ◌==◌, if◌then◌else◌, ◌||◌}

abbrev pub contains : ℕ → List ℕ → Bool
contains pid [] = false
contains pid (p ∷ ps) = (p == pid) || contains pid ps

-- `HashSet::insert` and `remove`
unfoldable pub insert : ℕ → List ℕ → List ℕ
insert pid ps = if contains pid ps then ps else pid ∷ ps

unfoldable pub remove : ℕ → List ℕ → List ℕ
remove pid [] = []
remove pid (p ∷ ps) = if p == pid then remove pid ps else p ∷ remove pid ps

-- `SANDBOX_PIDS`, whether `INIT` has run (which installs the two handlers), and the PIDs that were
-- sent SIGKILL.
pub record Registry : Type 0 where
  pub pids : List ℕ
  pub installed : Bool
  pub killed : List ℕ

-- `INIT.call_once`
unfoldable pub install_handlers : Registry → Registry
install_handlers r = record r { installed = true }

unfoldable pub register_pid : ℕ → Registry → Registry
register_pid pid r = record r { pids = insert pid r.pids }

unfoldable pub unregister_pid : ℕ → Registry → Registry
unregister_pid pid r = record r { pids = remove pid r.pids }

-- `CleanupGuard::new` and its `drop`; the guard is its PID.
unfoldable pub new : ℕ → Registry → Registry
new pid r = register_pid pid (install_handlers r)

unfoldable pub drop : ℕ → Registry → Registry
drop pid r = unregister_pid pid r

-- A kill that fails is only reported.
unfoldable pub kill_all_sandboxes : Registry → Registry
kill_all_sandboxes r = record r { killed = r.killed ++ r.pids }

-- The handler that `libc::atexit` runs
unfoldable pub cleanup_remaining_sandboxes : Registry → Registry
cleanup_remaining_sandboxes r = kill_all_sandboxes r

-- The thread that waits for SIGINT: it kills all and raises the signal again, which ends the program
-- without running the handlers of `atexit`.
unfoldable pub handle_interrupt : Registry → Registry
handle_interrupt r = kill_all_sandboxes r

-- How a program ends: it returns or calls `exit`, or a signal ends it: SIGINT, SIGTERM or SIGKILL.
-- Neither handler runs on the last two, nor if no guard has ever been made.
pub data Exit : Type 0 where
  normal interrupted sigterm sigkill : Exit

abbrev handled : Exit → Registry → Registry
handled normal r = cleanup_remaining_sandboxes r
handled interrupted r = handle_interrupt r
handled sigterm r = r
handled sigkill r = r

unfoldable pub at_exit : Exit → Registry → Registry
at_exit e r = if r.installed then handled e r else r

-- A program, with the PIDs of the guards that are alive.
pub record Program : Type 0 where
  pub registry : Registry
  pub guards : List ℕ

abbrev pub start : Program
start = record { registry = record { pids = []; installed = false; killed = [] }; guards = [] }

-- Dropping one of the guards with the PID
unfoldable pub remove_one : ℕ → List ℕ → List ℕ
remove_one pid [] = []
remove_one pid (p ∷ ps) = if p == pid then ps else p ∷ remove_one pid ps

-- What a program can do: make a guard, and drop one that is alive. A process that was reaped may hand
-- its PID on to another while its guard is alive; `exclusive` programs make no guard for such a PID.
pub data Step (exclusive : Bool) : Program → Program → Type 0 where
  make :
      {s : Program} (pid : ℕ)
      → (exclusive ≡ true → contains pid s.guards ≡ false)
      → Step exclusive s (record { registry = new pid s.registry; guards = pid ∷ s.guards })
  release :
      {s : Program} (pid : ℕ)
      → Step exclusive s
          (record { registry = drop pid s.registry; guards = remove_one pid s.guards })

pub data Reachable (exclusive : Bool) : Program → Type 0 where
  at_start : Reachable exclusive start
  then_step : {s t : Program} → Reachable exclusive s → Step exclusive s t → Reachable exclusive t
