-- ===== src/Tests/Hosts.antt =====
-- A machine for the tests. Its world is a number of GETs so far, from 1000 on with a binary that was
-- installed, and the node answers from the third GET on.
use near_sandbox_rs.Base.{
  ℕ, ◌+◌, true, false, leb, ◌==◌, ◌||◌, inr, String, none, some, [], ◌∷◌, str_eq, if◌then◌else◌,
  arith,
}
use near_sandbox_rs.Base.Dict.{Dict}
use near_sandbox_rs.Disk.{Disk}
use near_sandbox_rs.Json.Tree.{Tree, Fields, Items, tree_json}
use near_sandbox_rs.Sandbox.Ports.{Os}
use near_sandbox_rs.Runner.Host.{Host, Machine, linux_x86_64}
use near_sandbox_rs.Runner.Install.Given.{IsFiles}

abbrev test_os : Os
test_os = record {
  World = ℕ;
  Socket = ℕ;
  File = String;
  new_v4 = λ w. (inr 0, w);
  set_reuseaddr = λ s w. (inr s, w);
  bind = λ s port w. (inr (if port == 0 then 4000 else port), w);
  local_port = λ s w. inr s;
  create = λ name w. (inr name, w);
  try_lock = λ file w. (inr true, w);
  discard = λ s file w. w;
}

abbrev pub test_folder : Disk Tree
test_folder = record {
  files =
      ("config.json", Tree.object Fields.end)
      ∷ (
        "genesis.json",
        Tree.object (
            Fields.field "total_supply" (Tree.string "7")
              (Fields.field "records" (Tree.array Items.nil) Fields.end)),
      )
      ∷ [];
  create_error = λ name. none;
  write_error = λ name. none;
  left_over = λ name bytes. bytes;
}

instance abbrev pub test_host : Host tree_json
test_host = record {
  os = test_os;
  Child = ℕ;
  LockFile = String;
  Body = String;
  Entry = String;
  target = linux_x86_64;
  global_install = false;
  singleton_cleanup = true;
  out_dir = "/out";
  home_dir = none;
  overflow_checks = true;
  exists = λ path w. str_eq path "/bin/near-sandbox" || leb 1000 w;
  create_dir_all = λ path w. (inr tt, w);
  create_lock_file = λ path w. (inr path, w);
  lock_exclusive = λ lock w. (inr tt, w);
  unlock = λ lock w. (inr tt, w);
  close_lock = λ lock w. w;
  set_executable = λ path w. (inr tt, w);
  rename = λ from to w. (inr tt, 1000);
  remove_dir_all = λ path w. (inr tt, w);
  temp_dir = λ w. (inr "/tmp/home", w);
  folder = λ home w. test_folder;
  put_folder = λ home files w. w;
  download = λ url w. (inr url, w);
  entries = λ body. inr (inr "near-sandbox" ∷ []);
  entry_name = λ entry. inr (some entry);
  is_file = λ entry. true;
  unpack = λ entry path w. (inr tt, w);
  close = λ s w. w;
  close_file = λ f w. w;
  spawn = λ command w. (inr w, w);
  id = λ child w. some (child + 100);
  kill = λ child w. (inr tt, w);
  wait = λ child w. (inr tt, w);
  start_kill = λ child w. (inr tt, w);
  try_wait = λ child w. (inr tt, w);
  now = λ w. 0;
  wait_until = λ t w. w;
  get = λ url w. (inr (leb 2 w), w + 1);
}

-- The machine before anything has happened, with these variables.
abbrev pub machine : Dict String → Machine test_host
machine env = record {
  world = 0;
  env = env;
  registry = record { pids = []; installed = false; killed = [] };
  probes = [];
  events = [];
}

pub test_host-IsFiles : IsFiles ⦃H = test_host⦄
test_host-IsFiles = record {
  renamed = λ from to w h. ground arith;
  unlocked = λ path lock w h. h;
  closed = λ path lock w h. h;
}
