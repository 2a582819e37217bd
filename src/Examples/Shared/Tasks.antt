-- ===== src/Examples/Shared/Tasks.antt =====
-- examples/singleton_sandbox.rs: tasks of one program that share its statics, interleaved in any
-- order. A task asks for the shared environment or makes one of its own, and generates accounts.
-- `get_shared_env` is one step, since a `OnceCell` lets one task at a time initialise it.
use near_sandbox_rs.Base.{
  ℕ, ◌+◌, Bool, true, false, String, List, [], ◌∷◌, Option, none, some, Outcome, ok, err, panic,
  ◌≡◌, update,
}
use near_sandbox_rs.ErrorKind.{SandboxError}
use near_sandbox_rs.Json.{Json}
use near_sandbox_rs.Runner.Host.{Host, Machine}
use near_sandbox_rs.Examples.Api.{Api}
use near_sandbox_rs.Examples.Shared.{
  SharedEnv, Statics, init, get_shared_env, fetch_add, create_numbered,
}

module _ ⦃J : Json⦄ ⦃H : Host J⦄ ⦃A : Api H⦄ where
  -- `running shared env stage`: the environment is the shared one or the task's own. An account is
  -- generated in two steps, `fetch_add` and the rest; after that the task can generate the next.
  pub data Stage : Type 0 where
    ready : Stage
    numbered : ℕ → Stage

  pub data Task : Type 0 where
    idle ended : Task
    running : Bool → SharedEnv → Stage → Task

  -- `calls` counts how often a number was taken, and `accounts` has the number and the name of each
  -- account that was generated, the newest first.
  pub record Tasks : Type 0 where
    pub statics : Statics
    pub calls : ℕ
    pub task : ℕ → Task
    pub accounts : List (ℕ × String)

  -- What a call leads to. A task that panics has ended.
  abbrev pub joined : Bool → Outcome SandboxError (Option SharedEnv) → Task
  joined shared (ok (some env)) = running shared env ready
  joined shared (ok none) = ended
  joined shared (err e) = ended
  joined shared (panic m) = ended

  abbrev pub made : Bool → SharedEnv → ℕ → Outcome SandboxError (String × A.Signer) → Task
  made shared env n (ok (id, signer)) = running shared env ready
  made shared env n (err e) = ended
  made shared env n (panic m) = ended

  abbrev pub generated :
      ℕ → Outcome SandboxError (String × A.Signer) → List (ℕ × String) → List (ℕ × String)
  generated n (ok (id, signer)) accounts = (n, id) ∷ accounts
  generated n (err e) accounts = accounts
  generated n (panic m) accounts = accounts

  abbrev pub to : Tasks → ℕ → Statics → Task → Tasks
  to s i statics t = record s { statics = statics; task = update s.task i t }

  -- What creating the account with the number leads to.
  abbrev pub with_account :
      Tasks → ℕ → ℕ → Bool → SharedEnv → Outcome SandboxError (String × A.Signer) × Statics → Tasks
  with_account s i n shared env r = record (to s i r.1 (made shared env n r.0)) {
    accounts = generated n r.0 s.accounts;
  }

  -- `elsewhere` is what else happens to the machine.
  pub data Step (s : Tasks) : Tasks → Type 0 where
    share :
        (i fuel : ℕ)
        → s.task i ≡ idle
        → Step s (
            to s i
              (get_shared_env fuel s.statics).1
              (joined true (get_shared_env fuel s.statics).0))
    start :
        (i fuel : ℕ)
        → s.task i ≡ idle
        → Step s (to s i (init fuel s.statics).1 (joined false (init fuel s.statics).0))
    number :
        (i n : ℕ) (shared : Bool) (env : SharedEnv) (after : Statics)
        → s.task i ≡ running shared env ready
        → fetch_add s.statics ≡ (ok n, after)
        → Step s (record {
          statics = after;
          calls = s.calls + 1;
          task = update s.task i (running shared env (numbered n));
          accounts = s.accounts;
        })
    create :
        (i n balance : ℕ) (shared : Bool) (env : SharedEnv)
        → s.task i ≡ running shared env (numbered n)
        → Step s (with_account s i n shared env (create_numbered env balance n s.statics))
    elsewhere : (m : Machine H) → Step s (record s { statics = record s.statics { machine = m } })

  -- From the start of the program, where the cell is empty and the counter 0.
  pub data Reach (m : Machine H) : Tasks → Type 0 where
    at_start : Reach m (record {
      statics = record { machine = m; shared_sandbox = none; account_counter = 0 };
      calls = 0;
      task = λ _. idle;
      accounts = [];
    })
    later : {s t : Tasks} → Reach m s → Step s t → Reach m t
