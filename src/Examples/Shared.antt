-- ===== src/Examples/Shared.antt =====
-- examples/singleton_sandbox.rs: one sandbox that many tests share.
pub mod Tasks
pub mod Accounts
pub mod Keeps
pub mod Apart
pub mod Steps
pub mod Reached
pub mod Shares
use near_sandbox_rs.Base.{
  ℕ, ◌+◌, ◌%◌, ◌^◌, Bool, ◌⊎◌, inl, inr, String, ◌<>◌, Option, none, some, decimal, Outcome, ok,
  err, panic, Exec, pure, unwind, lift, ◌>>=◌, ◌>>◌, if◌then◌else◌,
}
use near_sandbox_rs.ErrorKind.{SandboxError}
use near_sandbox_rs.Json.{Json}
use near_sandbox_rs.Config.Account.{default_genesis_account, default_genesis_account_private_key}
use near_sandbox_rs.Runner.Host.{Host, Machine, Act, Call, or_panic}
use near_sandbox_rs.Sandbox.Startup.{Started, start_sandbox}
use near_sandbox_rs.Examples.Api.{Api, NewAccount}

-- `unwrap` on an error
abbrev pub unwrap_message : String
unwrap_message = "called `Result::unwrap()` on an `Err` value"

module _ ⦃J : Json⦄ ⦃H : Host J⦄ ⦃A : Api H⦄ where
  pub record SharedEnv : Type 0 where
    pub sandbox : Started
    pub network : A.NetworkConfig
    pub root_acc : String
    pub root_signer : A.Signer

  -- The machine and the two statics: `SHARED_SANDBOX` and `ACCOUNT_COUNTER`.
  pub record Statics : Type 0 where
    pub machine : Machine H
    pub shared_sandbox : Option SharedEnv
    pub account_counter : ℕ

  abbrev pub Test : Type 0 → Type 0
  Test = Exec Statics SandboxError

  -- `expect` on what the library returns
  abbrev expected : {X : Type 0} → String → Outcome SandboxError X → Outcome SandboxError X
  expected message (ok a) = ok a
  expected message (err e) = panic message
  expected message (panic m) = panic m

  abbrev starting : ℕ → Test (Option Started)
  starting fuel s =
      let r = start_sandbox fuel s.machine in
      (expected "Failed to start sandbox" r.0, record s { machine = r.1 })

  -- A call of `near_api` with `expect`.
  abbrev called : {X : Type 0} → String → Call H.os.World X → Test X
  called message c s =
      let r = c s.machine.world in
      (or_panic message r.0, record s { machine = record s.machine { world = r.1 } })

  -- The environment of a sandbox that runs.
  unfoldable pub env_of : Started → Test SharedEnv
  env_of sandbox = do
    url ← lift (or_panic unwrap_message (A.parse_url sandbox.rpc_addr))
    key ← lift (
        or_panic "Valid genesis secret key"
          (A.parse_secret_key default_genesis_account_private_key))
    root_signer ←
        lift (or_panic "Unable to create valid signer from secret key" (A.from_secret_key key))
    pure (record {
      sandbox = sandbox;
      network = A.from_rpc_url "sandbox" url;
      root_acc = default_genesis_account;
      root_signer = root_signer;
    })

  -- `none`: the search for a free port has used up its fuel.
  unfoldable pub init : ℕ → Test (Option SharedEnv)
  unfolding env_of
  init fuel = do
    started ← starting fuel
    elim started [ none ↦ pure none | some sandbox ↦ do env ← env_of sandbox; pure (some env) ]

  -- `ACCOUNT_COUNTER.fetch_add(1, …)`, which wraps
  unfoldable pub fetch_add : Test ℕ
  fetch_add s =
      (ok s.account_counter, record s { account_counter = (s.account_counter + 1) % 2 ^ 64 })

  -- `.parse().unwrap()` to an account id
  abbrev parsed_id : String → Option String → Outcome SandboxError String
  parsed_id id none = ok id
  parsed_id id (some e) = panic unwrap_message

  -- `generate_account` from the number on.
  unfoldable pub create_numbered : SharedEnv → ℕ → ℕ → Test (String × A.Signer)
  create_numbered env initial_balance counter = do
    account_id ← lift (
        parsed_id (decimal counter <> "." <> env.root_acc)
          (A.account_error (decimal counter <> "." <> env.root_acc)))
    secret_key ← called "Failed to generate secret key" A.generate_secret_key
    account_signer ← lift (or_panic "Failed to create signer" (A.from_secret_key secret_key))
    succeeded ← called "Failed to create subaccount" (
        A.send_to
          (record {
            account_id = account_id;
            funded_by = env.root_acc;
            initial_balance = initial_balance;
            public_key = A.public_key secret_key;
            signer = env.root_signer;
          })
          env.network)
    if succeeded then pure (account_id, account_signer) else unwind "the transaction has failed"

  unfoldable pub generate_account : SharedEnv → ℕ → Test (String × A.Signer)
  unfolding fetch_add create_numbered
  generate_account env initial_balance = do
    counter ← fetch_add
    create_numbered env initial_balance counter

  -- `get_or_init` keeps what was made, if it was made.
  abbrev kept : Option SharedEnv → Test (Option SharedEnv)
  kept none s = (ok none, s)
  kept (some env) s = (ok (some env), record s { shared_sandbox = some env })

  abbrev get_or_init : ℕ → Option SharedEnv → Test (Option SharedEnv)
  get_or_init fuel (some env) = pure (some env)
  get_or_init fuel none = do made ← init fuel; kept made

  unfoldable pub get_shared_env : ℕ → Test (Option SharedEnv)
  unfolding init
  get_shared_env fuel s = get_or_init fuel s.shared_sandbox s
