-- ===== src/Tests/Races.antt =====
-- Two processes that look for the binary at once, the first of which ends while it unpacks.
use native.Mathlib.Decide.{ℕ_discrete}
use near_sandbox_rs.Base.{
  Bool, true, false, String, inl, inr, ◌⊎◌, ◌≡◌, ◌≢◌, ◌+◌, [], ◌∷◌, Ended, ℕ, Option, refl, none,
  some, update,
}
use near_sandbox_rs.Runner.Install.Race.{
  File, missing, partial, whole, Folder, Pc, looking, opening, waiting, locked, searching, fetching,
  unpacking, placing, unlocking, gone, not_there, create_lock, lock, not_written, no_version,
  unpack, unpacked, found, rename, fail, Processes, pick, empty, Reach, at_start, later,
}
use near_sandbox_rs.Json.Tree.{tree_json}
use near_sandbox_rs.Sandbox.Ports.{Os}
use near_sandbox_rs.Runner.Host.{Host, Machine, linux_x86_64}
use near_sandbox_rs.Runner.Paths.{version_dir, ◌//◌}
use near_sandbox_rs.Runner.Install.{ensure_sandbox_bin_with_version}
use near_sandbox_rs.Runner.Install.Race.Follows.{Acts, At, Stopped}
use near_sandbox_rs.Runner.Install.Race.Refines.{ensure_refines}
use near_sandbox_rs.Tests.Hosts.{test_folder}
use near_sandbox_rs.Runner.Install.Race.Exclusive.{Orderly, Reach-Orderly}

abbrev initial : Processes
initial = record { folder = empty partial; pc = λ _. looking }

abbrev then : Processes → ℕ → Folder → Pc → Processes
then s i d p = record { folder = d; pc = update s.pc i p }

-- The folder with this beside the binary, and with this holder of the lock.
abbrev with_tmp : File → Option ℕ → Folder
with_tmp tmp holder = record (empty tmp) { holder = holder }

-- Both wait for the lock, and the first one gets it.
abbrev both : Processes
both =
    then
      (then (then (then initial 0 (empty partial) opening) 1 (empty partial) opening) 0
        (empty partial) waiting)
      1 (empty partial) waiting

both-Reach : Reach partial both
unfolding ℕ_discrete
both-Reach =
    later
      (later (later (later at_start (pick 0 (not_there refl))) (pick 1 (not_there refl)))
        (pick 0 create_lock))
      (pick 1 create_lock)

abbrev first_gone : Processes
first_gone =
    then
      (then
        (then
          (then (then both 0 (with_tmp partial (some 0)) locked) 0 (with_tmp partial (some 0))
            searching)
          0 (with_tmp partial (some 0)) fetching)
        0 (with_tmp partial (some 0)) unpacking)
      0 (with_tmp partial none) gone

first_gone-Reach : Reach partial first_gone
unfolding ℕ_discrete
first_gone-Reach =
    later
      (later
        (later (later (later both-Reach (pick 0 (lock refl))) (pick 0 (not_written refl)))
          (pick 0 (no_version refl)))
        (pick 0 unpack))
      (pick 0 (fail unpacking))

abbrev placed : Folder
placed = record { binary = whole; tmp = missing; holder = some 1; installs = 1 }

abbrev installed : Processes
installed =
    then
      (then
        (then
          (then
            (then (then first_gone 1 (with_tmp partial (some 1)) locked) 1
              (with_tmp partial (some 1)) searching)
            1 (with_tmp partial (some 1)) fetching)
          1 (with_tmp partial (some 1)) unpacking)
        1 (with_tmp whole (some 1)) placing)
      1 placed unlocking

installed-Reach : Reach partial installed
unfolding ℕ_discrete
installed-Reach =
    later
      (later
        (later
          (later (later (later first_gone-Reach (pick 1 (lock refl))) (pick 1 (not_written refl)))
            (pick 1 (no_version refl)))
          (pick 1 unpack))
        (pick 1 unpacked))
      (pick 1 rename)

Reach-Orderly_example : Orderly installed
Reach-Orderly_example = Reach-Orderly partial installed installed-Reach

-- A host whose world is such a folder.
abbrev folder_os : Os
folder_os = record {
  World = Folder;
  Socket = ℕ;
  File = String;
  new_v4 = λ w. (inr 0, w);
  set_reuseaddr = λ s w. (inr s, w);
  bind = λ s port w. (inr port, w);
  local_port = λ s w. inr s;
  create = λ name w. (inr name, w);
  try_lock = λ file w. (inr true, w);
  discard = λ s file w. w;
}

abbrev is_present : File → Bool
is_present missing = false
is_present _ = true

abbrev taken : Option ℕ → Folder → (String ⊎ Unit {0}) × Folder
taken none w = (inr tt, record w { holder = some 0 })
taken (some j) w = (inl "locked", w)

instance abbrev folder_host : Host tree_json
folder_host = record {
  os = folder_os;
  Child = ℕ;
  LockFile = String;
  Body = String;
  Entry = String;
  target = linux_x86_64;
  global_install = false;
  singleton_cleanup = true;
  out_dir = "/out";
  home_dir = none;
  overflow_checks = true;
  exists = λ path w. is_present w.binary;
  create_dir_all = λ path w. (inr tt, w);
  create_lock_file = λ path w. (inr path, w);
  lock_exclusive = λ lock w. taken w.holder w;
  unlock = λ lock w. (inr tt, record w { holder = none });
  close_lock = λ lock w. record w { holder = none };
  set_executable = λ path w. (inr tt, w);
  rename = λ from to w. (
    inr tt,
    record { binary = w.tmp; tmp = missing; holder = w.holder; installs = w.installs + 1 },
  );
  remove_dir_all = λ path w. (inr tt, w);
  temp_dir = λ w. (inr "/tmp/home", w);
  folder = λ home w. test_folder;
  put_folder = λ home files w. w;
  download = λ url w. (inr url, w);
  entries = λ body. inr (inr "near-sandbox" ∷ []);
  entry_name = λ entry. inr (some entry);
  is_file = λ entry. true;
  unpack = λ entry path w. (inr tt, record w { tmp = whole });
  close = λ s w. w;
  close_file = λ f w. w;
  spawn = λ command w. (inr 0, w);
  id = λ child w. none;
  kill = λ child w. (inr tt, w);
  wait = λ child w. (inr tt, w);
  start_kill = λ child w. (inr tt, w);
  try_wait = λ child w. (inr tt, w);
  now = λ w. 0;
  wait_until = λ t w. w;
  get = λ url w. (inr true, w);
}

present-ne_missing : (f : File) → is_present f ≡ true → f ≢ missing
present-ne_missing missing h e = absurd (cc)
present-ne_missing f h e = absurd (cc)

not_present : (f : File) → is_present f ≡ false → f ≡ missing
not_present missing h = refl
not_present f h = absurd (cc)

taken-free :
    (o : Option ℕ) (w : Folder)
    → (taken o w).0 ≡ inr tt
    → (o ≡ none) × ((taken o w).1 ≡ record w { holder = some 0 })
taken-free none w h = (refl, refl)
taken-free (some j) w h = absurd (cc)

taken-fails : (o : Option ℕ) (w : Folder) (e : String) → (taken o w).0 ≡ inl e → (taken o w).1 ≡ w
taken-fails none w e h = absurd (cc)
taken-fails (some j) w e h = refl

abbrev binary_path : String
binary_path = version_dir "/out" "2.10.7" // "near-sandbox"

folder_host-Acts : Acts ⦃H = folder_host⦄ 0 (λ w. w) binary_path
folder_host-Acts = record {
  there = λ w h. present-ne_missing w.binary h;
  away = λ w h. not_present w.binary h;
  makes = λ dir w. refl;
  creates = λ name w. refl;
  locks = λ file w h. taken-free w.holder w h;
  unlocks = λ file w h. refl;
  closes = λ file w. refl;
  downloads = λ url w. refl;
  unpacks = λ entry w h. refl;
  permits = λ to w. refl;
  renames = λ w h. refl;
  not_locked = λ file w e h. taken-fails w.holder w e h;
  not_unlocked = λ file w e h. absurd (cc);
  not_unpacked = λ entry w e h. absurd (cc);
  not_renamed = λ w e h. absurd (cc);
}

abbrev alone : Machine folder_host
alone = record {
  world = empty partial;
  env = [];
  registry = record { pids = []; installed = false; killed = [] };
  probes = [];
  events = [];
}

ensure_refines_example :
    let r = ensure_sandbox_bin_with_version "2.10.7" alone in
    Ended
      (λ _. At 0 (λ w. w) (empty partial) found)
      (λ _. Stopped 0 (λ w. w) (empty partial))
      (λ _. Stopped 0 (λ w. w) (empty partial))
      r.0
      r.1
ensure_refines_example = ensure_refines 0 (λ w. w) "/out" "2.10.7" alone refl folder_host-Acts refl
