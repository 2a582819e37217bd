-- ===== src/Tests/Shared.antt =====
-- The theorems on the shared sandbox, each at a run of two tasks.
use native.Mathlib.Decide.{ℕ_discrete}
use near_sandbox_rs.Base.{
  update, ℕ, ◌+◌, true, [], ◌∷◌, ◌≡◌, refl, subst, inr, none, some, Outcome, ok, ◌>>=◌, decimal,
  String, Option, arith,
}
use near_sandbox_rs.ErrorKind.{SandboxError}
use near_sandbox_rs.Json.Tree.{tree_json}
use near_sandbox_rs.Runner.Host.{Machine}
use near_sandbox_rs.Sandbox.Startup.{start_sandbox}
use near_sandbox_rs.Examples.Api.{Api}
use near_sandbox_rs.Examples.Shared.{
  SharedEnv, Statics, init, env_of, fetch_add, create_numbered, get_shared_env,
}
use near_sandbox_rs.Examples.Shared.Accounts.{NoRepeats}
use near_sandbox_rs.Examples.Shared.Tasks.{
  ready, numbered, idle, running as running_task, Tasks, joined, to, with_account, Step, share,
  number, create, Reach, at_start, later,
}
use near_sandbox_rs.Examples.Shared.Reached.{accounts_distinct}
use near_sandbox_rs.Examples.Shared.Shares.{env_shared}
use near_sandbox_rs.Tests.Hosts.{test_host, machine}
use near_sandbox_rs.Tests.Starts.{environment, handle, running, second_attempt}

instance abbrev test_api : Api test_host
test_api = record {
  Url = String;
  NetworkConfig = String;
  SecretKey = String;
  PublicKey = String;
  Signer = String;
  parse_url = λ url. inr url;
  from_rpc_url = λ name url. url;
  account_error = λ id. none;
  parse_secret_key = λ text. inr text;
  generate_secret_key = λ w. (inr "secret", w);
  public_key = λ key. key;
  from_secret_key = λ key. inr key;
  send_to = λ account network w. (inr true, w);
}

abbrev env : SharedEnv
env = record {
  sandbox = handle;
  network = "http://127.0.0.1:4000";
  root_acc = "sandbox";
  root_signer =
      "ed25519:3tgdk2wPraJzT4nsTuf86UX41xgPNk3MHnq8epARMdBNs29AFEztAuaQ7iHddDfXG9F2RzV1XNQYgJyAyoW51UBB";
}

abbrev statics : Option SharedEnv → ℕ → Machine test_host → Statics
statics cell n m = record { machine = m; shared_sandbox = cell; account_counter = n }

first_call :
    get_shared_env 5 (statics none 0 (machine environment))
    ≡ (ok (some env), statics (some env) 0 running)
unfolding get_shared_env init env_of start_sandbox ◌>>=◌
first_call = rw second_attempt refl

-- A step whose call is known.
share_to :
    (s : Tasks) (i fuel : ℕ) (r : Outcome SandboxError (Option SharedEnv)) (after : Statics)
    → s.task i ≡ idle
    → get_shared_env fuel s.statics ≡ (r, after)
    → Step s (to s i after (joined true r))
share_to s i fuel r after h e =
    subst (λ x. Step s (to s i x.1 (joined true x.0))) e (share i fuel h)

create_to :
    (s : Tasks) (i n : ℕ) (r : Outcome SandboxError (String × String)) (after : Statics)
    → s.task i ≡ running_task true env (numbered n)
    → create_numbered env 5 n s.statics ≡ (r, after)
    → Step s (with_account s i n true env (r, after))
create_to s i n r after h e =
    subst (λ x. Step s (with_account s i n true env x)) e (create i n 5 true env h)

abbrev initial : Machine test_host
initial = machine environment

abbrev begun : Tasks
begun = record { statics = statics none 0 initial; calls = 0; task = λ _. idle; accounts = [] }

abbrev shared : ℕ → Statics
shared n = statics (some env) n running

abbrev with_number : Tasks → ℕ → ℕ → Statics → Tasks
with_number s i n after = record {
  statics = after;
  calls = s.calls + 1;
  task = update s.task i (running_task true env (numbered n));
  accounts = s.accounts;
}

number_to :
    (s : Tasks) (i n : ℕ) (after : Statics)
    → s.task i ≡ running_task true env ready
    → fetch_add s.statics ≡ (ok n, after)
    → Step s (with_number s i n after)
number_to s i n after h e = number i n true env after h e

abbrev both : Tasks
both =
    to (to begun 0 (shared 0) (running_task true env ready)) 1 (shared 0)
      (running_task true env ready)

-- Two tasks get the environment and take a number each. The second one creates its account, takes
-- another number and creates another account; then the first one creates its own.
abbrev taken : Tasks
taken = with_number (with_number both 0 0 (shared 1)) 1 1 (shared 2)

abbrev second : Tasks
second = with_account taken 1 1 true env (ok ("1.sandbox", "secret"), shared 2)

abbrev third : Tasks
third =
    with_account (with_number second 1 2 (shared 3)) 1 2 true env
      (ok ("2.sandbox", "secret"), shared 3)

abbrev finished : Tasks
finished = with_account third 0 0 true env (ok ("0.sandbox", "secret"), shared 3)

both-Reach : Reach initial both
unfolding get_shared_env ℕ_discrete
both-Reach = later (later at_start (share_to begun 0 5 _ _ refl first_call)) (
    share_to (to begun 0 (statics (some env) 0 running) (running_task true env ready)) 1 5
      (ok (some env)) (statics (some env) 0 running) refl refl)

finished-Reach : Reach initial finished
unfolding fetch_add create_numbered decimal ◌>>=◌ ℕ_discrete
finished-Reach =
    later
      (later
        (later
          (later
            (later (later both-Reach (number_to both 0 0 (shared 1) refl refl))
              (number_to (with_number both 0 0 (shared 1)) 1 1 (shared 2) refl refl))
            (create_to taken 1 1 (ok ("1.sandbox", "secret")) (shared 2) refl refl))
          (number_to second 1 2 (shared 3) refl refl))
        (create_to (with_number second 1 2 (shared 3)) 1 2 (ok ("2.sandbox", "secret")) (shared 3)
          refl refl))
      (create_to third 0 0 (ok ("0.sandbox", "secret")) (shared 3) refl refl)

both_have :
    (both.task 0 ≡ running_task true env ready) × (both.task 1 ≡ running_task true env ready)
unfolding ℕ_discrete
both_have = (refl, refl)

-- The names "0.sandbox", "2.sandbox" and "1.sandbox".
accounts_distinct_example : NoRepeats ((0, "0.sandbox") ∷ (2, "2.sandbox") ∷ (1, "1.sandbox") ∷ [])
accounts_distinct_example = accounts_distinct initial finished finished-Reach (omega arith)

env_shared_example : (env ≡ env) × (get_shared_env 5 both.statics ≡ (ok (some env), both.statics))
env_shared_example =
    env_shared initial both 0 1 5 env env ready ready both-Reach both_have.0 both_have.1
