-- ===== src/Runner/Install/Race.antt =====
-- src/runner/mod.rs: several processes that look for the binary of one version at once, with no
-- variable that names it. Each goes through `ensure_sandbox_bin_with_version`, and between two of its
-- calls the others may do anything of the same.
pub mod Exclusive
pub mod Follows
pub mod Search
pub mod Refines
use near_sandbox_rs.Base.{ℕ, suc, ◌+◌, Option, none, some, ◌≡◌, ◌≢◌, update}

-- A file in the folder of the version, which an interrupted `unpack` leaves in part.
pub data File : Type 0 where
  missing partial whole : File

-- The binary, what is unpacked beside it, who holds the lock on the lock file, and how often a file
-- was renamed to the binary.
pub record Folder : Type 0 where
  pub binary : File
  pub tmp : File
  pub holder : Option ℕ
  pub installs : ℕ

-- Where a process is: in `installable` before the first test, before the lock file is created, at
-- `lock_exclusive`, and before the second test; in `install_with_version` before
-- `check_for_version`, before `unpack`, in it, and before `rename`; before `unlock`; and at the end,
-- with a path or without one.
pub data Pc : Type 0 where
  looking opening waiting locked searching fetching unpacking placing unlocking found gone : Pc

-- What is dropped when a process ends: the lock, if it has it.
abbrev pub released : Pc → Option ℕ → Option ℕ
released looking holder = holder
released opening holder = holder
released waiting holder = holder
released found holder = holder
released gone holder = holder
released p holder = none

-- A move of the process `i`.
pub data Move (i : ℕ) (d : Folder) : Pc → Folder → Pc → Type 0 where
  -- `if bin_path.exists()`
  is_there : d.binary ≢ missing → Move i d looking d found
  not_there : d.binary ≡ missing → Move i d looking d opening
  -- `File::create(lockpath)?`, and `lockfile.lock_exclusive()?`, which waits
  create_lock : Move i d opening d waiting
  lock : d.holder ≡ none → Move i d waiting (record d { holder = some i }) locked
  -- the second test, where the lock file is dropped if the binary is there
  written : d.binary ≢ missing → Move i d locked (record d { holder = none }) found
  not_written : d.binary ≡ missing → Move i d locked d searching
  -- `check_for_version`
  has_version : d.binary ≢ missing → Move i d searching d unlocking
  no_version : d.binary ≡ missing → Move i d searching d fetching
  -- from the download on, an entry of the archive that is the binary
  unpack : Move i d fetching (record d { tmp = partial }) unpacking
  unpacked : Move i d unpacking (record d { tmp = whole }) placing
  rename :
      Move i d placing
        (record d { binary = d.tmp; tmp = missing; installs = d.installs + 1 })
        unlocking
  unlock : Move i d unlocking (record d { holder = none }) found
  -- an error that `?` returns, or the end of the process, wherever it is
  fail : (p : Pc) → Move i d p (record d { holder = released p d.holder }) gone

-- The moves of one process, one after another.
pub data Moves (i : ℕ) (d : Folder) (p : Pc) : Folder → Pc → Type 0 where
  stay : Moves i d p d p
  then_move : {e f : Folder} {q r : Pc} → Moves i d p e q → Move i e q f r → Moves i d p f r

pub record Processes : Type 0 where
  pub folder : Folder
  pub pc : ℕ → Pc

pub data Step (s : Processes) : Processes → Type 0 where
  pick :
      (i : ℕ) {d : Folder} {p : Pc}
      → Move i s.folder (s.pc i) d p
      → Step s (record { folder = d; pc = update s.pc i p })

-- Without a binary, and whatever an earlier attempt has left beside it.
abbrev pub empty : File → Folder
empty tmp = record { binary = missing; tmp = tmp; holder = none; installs = 0 }

pub data Reach (tmp : File) : Processes → Type 0 where
  at_start : Reach tmp (record { folder = empty tmp; pc = λ _. looking })
  later : {s t : Processes} → Reach tmp s → Step s t → Reach tmp t
