-- ===== src/Tests/Node.antt =====
-- A scripted node over plain trees: it answers each POST with the next reply of a list, and time
-- passes only where the program waits for it.
use near_sandbox_rs.Base.{ℕ, ◌⊎◌, inl, inr, String, List, [], ◌∷◌, leb, if◌then◌else◌, arith}
use near_sandbox_rs.Json.Tree.{Tree, tree_json, Fields, Items}
use near_sandbox_rs.Net.{Net, IsClock, Wire}
use near_sandbox_rs.Sandbox.Handle.{Sandbox}

pub record Script : Type 0 where
  pub replies : List (String ⊎ (String ⊎ Tree))
  pub time : ℕ

abbrev pub answer : List (String ⊎ (String ⊎ Tree)) → ℕ → (String ⊎ (String ⊎ Tree)) × Script
answer [] t = (inr (inl "connection refused"), record { replies = []; time = t })
answer (r ∷ rs) t = (r, record { replies = rs; time = t })

abbrev wait_until : ℕ → Script → Script
wait_until t w = record w { time = if leb t w.time then w.time else t }

instance abbrev pub script_net : Net tree_json
script_net = record {
  World = Script;
  Response = Tree;
  post = λ url body w. answer w.replies w.time;
  read_json = λ r. inr r;
  now = λ w. w.time;
  wait_until = wait_until;
}

pub script_net-IsClock : IsClock script_net
script_net-IsClock = record { now-wait_until = λ t w. ground arith }

abbrev replies_of : List Tree → List (String ⊎ (String ⊎ Tree))
replies_of [] = []
replies_of (t ∷ ts) = inr (inr t) ∷ replies_of ts

-- The state before any request, for the answers that will come.
abbrev pub scripted : List Tree → Wire tree_json script_net
scripted answers = record { world = record { replies = replies_of answers; time = 0 }; sent = [] }

abbrev pub sandbox : Sandbox
sandbox = record {
  home_dir = "/tmp/home";
  rpc_addr = "http://localhost:3030";
  rpc_port_lock = "near-sandbox-port3030.lock";
  net_port_lock = "near-sandbox-port3031.lock";
  process = 7;
}

abbrev pub one_field : String → Tree → Tree
one_field k v = Tree.object (Fields.field k v Fields.end)

-- `{"result": …}`
abbrev pub result : Tree → Tree
result v = one_field "result" v

abbrev pub status : ℕ → Tree
status n = result (one_field "sync_info" (one_field "latest_block_height" (Tree.number n)))

abbrev pub some_account : Tree
some_account =
    Tree.object
      (Fields.field "amount" (Tree.string "5") (Fields.field "locked" (Tree.string "0") Fields.end))

-- the answers to fetching all four parts
abbrev pub key_answer : Tree
key_answer = Tree.object (
    Fields.field "public_key" (Tree.string "ed25519:k")
      (Fields.field "access_key" (Tree.string "full") Fields.end))

abbrev pub full_answers : List Tree
full_answers =
    result some_account
    ∷ result (one_field "code_base64" (Tree.string "AGFzbQ=="))
    ∷ result (one_field "values" (Tree.array Items.nil))
    ∷ result (one_field "keys" (Tree.array (Items.cons key_answer Items.nil)))
    ∷ []
