-- ===== src/Tests/Runs.antt =====
-- The theorems on requests, patches and accounts, each at a run of the scripted node.
use near_sandbox_rs.Base.{
  ℕ, ◌≡◌, ◌≢◌, refl, String, none, some, List, [], ◌∷◌, ◌++◌, ok, ◌>>=◌, ◌⊎◌, if◌then◌else◌, str_eq,
}
use near_sandbox_rs.Json.{get}
use near_sandbox_rs.Json.Tree.{Tree, Fields, tree_json, tree_json-IsLawful}
use near_sandbox_rs.Net.{Wire}
use near_sandbox_rs.Sandbox.Rpc.{
  send_request, check_error, get_block_height, fast_forward, poll, reached, add_u64,
  latest_block_height, request,
}
use near_sandbox_rs.Sandbox.Rpc.Laws.{get-send_request}
use near_sandbox_rs.Sandbox.Rpc.FastForward.{fast_forward_ends, fast_forward_reached, Saw}
use near_sandbox_rs.Sandbox.Patch.FetchData
use near_sandbox_rs.Sandbox.Patch.FetchData.{FetchData}
use near_sandbox_rs.Sandbox.Patch.StateRecord.{StateRecord}
use near_sandbox_rs.Sandbox.Patch.Builder
use near_sandbox_rs.Sandbox.Patch.Builder.{PatchState}
use near_sandbox_rs.Sandbox.Patch.Fetch.{
  fetch_from_account, fetch_account, fetch_code, fetch_storage, fetch_access_keys, add_access_keys,
  entries_of,
}
use near_sandbox_rs.Sandbox.Patch.Fetch.Adds.{extend}
use near_sandbox_rs.Sandbox.Patch.Fetch.Choice.{fetch_from_account_exact, Fetched, requests}
use near_sandbox_rs.Sandbox.Patch.Send.{
  send, set_amount, amend_account, process_initial_balance, fetch_balance_account,
}
use near_sandbox_rs.Sandbox.Patch.Send.Amend.{amend_account-Amends, set_amount_fields, Amends}
use near_sandbox_rs.Sandbox.Patch.Send.Twice.{send_twice, ToSend, balance_requests, patch_twice}
use near_sandbox_rs.Tests.Node.{
  script_net, script_net-IsClock, scripted, sandbox, status, result, some_account, full_answers,
}

abbrev patch : PatchState Tree
patch = record {
  destination_account = "alice";
  state = StateRecord.contract "alice" "AGFzbQ==" ∷ [];
  sandbox = sandbox;
  initial_balance = some 9;
}

abbrev before : Wire tree_json script_net
before = scripted (result some_account ∷ result (Tree.string "") ∷ result (Tree.string "") ∷ [])

abbrev after : Wire tree_json script_net
after = (send patch before).1

send_runs : send patch before ≡ (ok tt, after)
unfolding send process_initial_balance fetch_balance_account amend_account set_amount send_request
    check_error ◌>>=◌
send_runs = refl

send_twice_example :
    (rs : List (StateRecord Tree)) × ToSend patch (some 9) rs
    × (after.sent ≡ before.sent ++ (balance_requests patch (some 9) ++ patch_twice patch rs))
send_twice_example = send_twice tree_json-IsLawful patch before after send_runs

-- fetching all four parts
abbrev to_fetch : PatchState Tree
to_fetch = record {
  destination_account = "bob";
  state = [];
  sandbox = sandbox;
  initial_balance = none;
}

abbrev fetched : PatchState Tree
fetched = record {
  destination_account = "bob";
  state =
      StateRecord.account "bob" some_account
      ∷ StateRecord.contract "bob" "AGFzbQ=="
      ∷ StateRecord.access_key "bob" "ed25519:k" (Tree.string "full")
      ∷ [];
  sandbox = sandbox;
  initial_balance = none;
}

abbrev fetching : Wire tree_json script_net
fetching = scripted full_answers

abbrev fetch_end : Wire tree_json script_net
fetch_end = (fetch_from_account to_fetch "alice" "rpc" FetchData.all fetching).1

fetch_runs :
    fetch_from_account to_fetch "alice" "rpc" FetchData.all fetching ≡ (ok fetched, fetch_end)
unfolding fetch_from_account fetch_account fetch_code fetch_storage fetch_access_keys
    add_access_keys entries_of send_request check_error ◌>>=◌ Builder.account Builder.code
    Builder.storage_entries Builder.access_key
fetch_runs = refl

fetch_from_account_exact_example :
    (rs : List (StateRecord Tree)) × (fetched ≡ extend to_fetch rs)
    × Fetched "alice" "rpc" FetchData.all "bob" rs
    × (fetch_end.sent ≡ fetching.sent ++ requests "alice" "rpc" FetchData.all)
fetch_from_account_exact_example =
    fetch_from_account_exact "alice" "rpc" to_fetch fetched FetchData.all fetching fetch_end
      fetch_runs

status_runs : (send_request "rpc" (request "status" []) fetching).0 ≡ ok (result some_account)
unfolding send_request check_error ◌>>=◌
status_runs = refl

get-send_request_example : get (result some_account) "error" ≡ none
get-send_request_example =
    get-send_request "rpc" (request "status" []) (result some_account) fetching status_runs

-- The height is 10, then 11, and then 15.
abbrev waiting : Wire tree_json script_net
waiting = scripted (status 10 ∷ result (Tree.string "") ∷ status 11 ∷ status 15 ∷ [])

abbrev waited : Wire tree_json script_net
waited = (fast_forward sandbox 5 waiting).1

fast_forward_runs : fast_forward sandbox 5 waiting ≡ (ok (some tt), waited)
unfolding fast_forward poll reached get_block_height latest_block_height add_u64 send_request
    check_error ◌>>=◌
fast_forward_runs = refl

fast_forward_reached_example :
    (initial : ℕ) × (target : ℕ) × (u : Wire tree_json script_net) × (get_block_height sandbox
        waiting
      ≡ (ok initial, u))
    × (add_u64 initial 5 ≡ ok target)
    × Saw sandbox target waited
fast_forward_reached_example = fast_forward_reached sandbox 5 waiting waited fast_forward_runs

fast_forward_ends_example : (fast_forward sandbox 5 waiting).0 ≢ ok none
fast_forward_ends_example = fast_forward_ends script_net-IsClock sandbox 5 waiting

abbrev two_records : List (StateRecord Tree)
two_records =
    StateRecord.contract "alice" "AGFzbQ==" ∷ StateRecord.account "alice" some_account ∷ []

amend_account-Amends_example :
    Amends (Tree.number 9) two_records (amend_account (Tree.number 9) two_records)
amend_account-Amends_example = amend_account-Amends (Tree.number 9) two_records

abbrev richer : Tree
richer =
    Tree.object
      (Fields.field "amount" (Tree.number 9) (Fields.field "locked" (Tree.string "0") Fields.end))

set_amount_runs : set_amount (Tree.number 9) some_account ≡ ok richer
unfolding set_amount
set_amount_runs = refl

set_amount_fields_example :
    ((tree_json.as_object some_account ≡ none) × (richer ≡ some_account))
    ⊎ ((k : String)
        → get richer k ≡ (if str_eq "amount" k then some (Tree.number 9) else get some_account k))
set_amount_fields_example =
    set_amount_fields tree_json-IsLawful (Tree.number 9) some_account richer set_amount_runs
