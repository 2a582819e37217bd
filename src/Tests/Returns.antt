-- ===== src/Tests/Returns.antt =====
-- A host on which nothing fails: its world is the number of GETs so far, one folder, which `neard`
-- fills, and the address of the node that runs, which answers from its third GET on.
use near_sandbox_rs.Base.{
  ℕ, ◌+◌, ◌-◌, ◌*◌, ◌<◌, Bool, true, false, leb, ◌==◌, ◌≡◌, refl, ap, subst, ◌∙◌, eq_refl, ◌⊎◌, inl,
  inr, String, List, Option, none, some, [], ◌∷◌, str_eq, ok, if◌then◌else◌, arith, parse_unsigned,
}
use near_sandbox_rs.Disk.{Disk}
use near_sandbox_rs.Json.Tree.{Tree, tree_json, tree_json-IsLawful}
use near_sandbox_rs.Config.Account.{default_config}
use near_sandbox_rs.Config.Genesis.{supply_of}
use near_sandbox_rs.Config.Genesis.Prepared.{IsPrepared}
use near_sandbox_rs.Sandbox.Ports.{Os}
use near_sandbox_rs.Sandbox.Ready.{timeout_secs}
use near_sandbox_rs.Sandbox.Startup.{start_sandbox_with_config_and_version}
use near_sandbox_rs.Sandbox.Startup.Cooperative.{IsCooperative, status_url}
use near_sandbox_rs.Sandbox.Startup.Returns.{Returned, start_returns}
use near_sandbox_rs.Runner.Host.{Host, Machine, Command, linux_x86_64}
use near_sandbox_rs.Tests.Hosts.{test_folder}

record World : Type 0 where
  gets : ℕ
  files : Disk Tree
  address : Option String

-- The address in the arguments of a node
abbrev address_of : List String → Option String
address_of (home_flag ∷ home ∷ run ∷ rpc_flag ∷ rpc ∷ rest) = some rpc
address_of args = none

-- Whether the node at the address answers, and no other.
abbrev responds : Option String → String → ℕ → Bool
responds none url n = false
responds (some rpc) url n = if str_eq url (status_url rpc) then leb 2 n else false

abbrev known_id : Option String → Option ℕ
known_id none = none
known_id (some rpc) = some 107

abbrev good_os : Os
good_os = record {
  World = World;
  Socket = ℕ;
  File = String;
  new_v4 = λ w. (inr 0, w);
  set_reuseaddr = λ s w. (inr s, w);
  bind = λ s port w. (inr (if port == 0 then 4000 else port), w);
  local_port = λ s w. inr s;
  create = λ name w. (inr name, w);
  try_lock = λ file w. (inr true, w);
  discard = λ s file w. w;
}

instance abbrev good_host : Host tree_json
good_host = record {
  os = good_os;
  Child = ℕ;
  LockFile = String;
  Body = String;
  Entry = String;
  target = linux_x86_64;
  global_install = false;
  singleton_cleanup = true;
  out_dir = "/out";
  home_dir = none;
  overflow_checks = true;
  exists = λ path w. str_eq path "/bin/near-sandbox";
  create_dir_all = λ path w. (inr tt, w);
  create_lock_file = λ path w. (inr path, w);
  lock_exclusive = λ lock w. (inr tt, w);
  unlock = λ lock w. (inr tt, w);
  close_lock = λ lock w. w;
  set_executable = λ path w. (inr tt, w);
  rename = λ from to w. (inr tt, w);
  remove_dir_all = λ path w. (inr tt, w);
  temp_dir = λ w. (inr "/tmp/home", w);
  folder = λ home w. w.files;
  put_folder = λ home files w. record w { files = files };
  download = λ url w. (inr url, w);
  entries = λ body. inr [];
  entry_name = λ entry. inr (some entry);
  is_file = λ entry. true;
  unpack = λ entry path w. (inr tt, w);
  close = λ s w. w;
  close_file = λ f w. w;
  spawn = λ command w. (inr w.gets, record w { gets = 0; address = address_of command.args });
  id = λ child w. known_id w.address;
  kill = λ child w. (inr tt, w);
  wait = λ child w. (inr tt, record w { files = test_folder; address = none });
  start_kill = λ child w. (inr tt, w);
  try_wait = λ child w. (inr tt, w);
  now = λ w. 0;
  wait_until = λ t w. w;
  get = λ url w. (inr (responds w.address url w.gets), record w { gets = w.gets + 1 });
}

prepared : IsPrepared default_config test_folder
unfolding supply_of parse_unsigned
prepared = record {
  has_genesis = record {
    writable = (λ name. refl, λ name. refl);
    bytes = _;
    genesis = _;
    fields = _;
    supply = _;
    array = _;
    records = _;
    there = refl;
    parses = refl;
    is_object = refl;
    has_supply = refl;
    has_records = refl;
    is_array = refl;
    fits = omega arith;
  };
  node_bytes = _;
  node_config = _;
  node_there = refl;
  node_parses = refl;
}

-- The requests that stay without a response from here on.
abbrev silence : String → World → ℕ
silence rpc w = 2 - w.gets

abbrev Serving : ℕ → String → World → Type 0
Serving child rpc w = w.address ≡ some rpc

abbrev spawned_world : Command → World → World
spawned_world command v = record v { gets = 0; address = address_of command.args }

cooperates : IsCooperative default_config "/bin/near-sandbox" (2 * 2) silence Serving
cooperates = record {
  opens = λ w. (0, refl);
  reuses = λ s w. (s, refl);
  binds = λ s port w. (_, refl);
  named = λ s w. (s, refl);
  creates = λ name w. (name, refl);
  locks = λ file w. refl;
  has_temp = λ w. ("/tmp/home", refl);
  spawns = λ command w. (w.gets, refl);
  installed = λ w. refl;
  prepares = λ home command c v w args e. (refl, prepared);
  keeps = λ home d w. refl;
  stays = λ s u w p q h k. cc;
  launches = λ home rpc net command c v w args e.
      let after : spawned_world command v ≡ w = ap (λ r. r.1) e in
      subst (λ u. Serving c rpc u × (silence rpc u < 4)) after (ap address_of args, omega arith);
  has_id = λ c rpc w serves. (107, ap known_id serves);
  answers =
      λ c rpc w serves. (serves, by_count rpc (leb 2 w.gets) w (responding rpc w serves) refl);
  waits = λ c rpc t w serves. (serves, omega arith);
}
  where
    responding :
        (rpc : String) (w : World)
        → w.address ≡ some rpc
        → responds w.address (status_url rpc) w.gets ≡ leb 2 w.gets
    responding rpc w serves =
        ap (λ a. responds a (status_url rpc) w.gets) serves
        ∙ ap (λ b. if b then leb 2 w.gets else false) (eq_refl (status_url rpc))

    by_count :
        (rpc : String) (b : Bool) (w : World)
        → responds w.address (status_url rpc) w.gets ≡ leb 2 w.gets
        → leb 2 w.gets ≡ b
        → let answer : String ⊎ Bool = inr (responds w.address (status_url rpc) w.gets) in
          (answer ≡ inr true) ⊎ ((answer ≡ inr false) × (2 - (w.gets + 1) < 2 - w.gets))
    by_count rpc true w r e = inl (ap inr (r ∙ e))
    by_count rpc false w r e = inr (ap inr (r ∙ e), ground (arith, e))

abbrev initial : Machine good_host
initial = record {
  world = record {
    gets = 0;
    files = record {
      files = [];
      create_error = λ name. none;
      write_error = λ name. none;
      left_over = λ name bytes. bytes;
    };
    address = none;
  };
  env = ("NEAR_SANDBOX_BIN_PATH", "/bin/near-sandbox") ∷ ("NEAR_RPC_TIMEOUT_SECS", "2") ∷ [];
  registry = record { pids = []; installed = false; killed = [] };
  probes = [];
  events = [];
}

two_seconds : timeout_secs initial.env ≡ ok 2
unfolding timeout_secs parse_unsigned
two_seconds = refl

start_returns_example :
    let r = start_sandbox_with_config_and_version 1 default_config "2.10.7" initial in
    Returned Serving [] r.0 r.1
start_returns_example =
    start_returns default_config "/bin/near-sandbox" 2 silence Serving cooperates (omega arith)
      tree_json-IsLawful 0 "2.10.7" initial refl two_seconds
