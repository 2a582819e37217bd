-- ===== src/Tests/Accounts.antt =====
-- The theorems on creating and importing accounts, each at a run of the scripted node.
use near_sandbox_rs.Base.{◌≡◌, refl, none, some, List, [], ◌∷◌, ◌++◌, ok, ◌>>=◌}
use near_sandbox_rs.Json.Tree.{Tree, tree_json, tree_json-IsLawful}
use near_sandbox_rs.Net.{Wire}
use near_sandbox_rs.Sandbox.Rpc.{send_request, check_error}
use near_sandbox_rs.Sandbox.Patch.FetchData
use near_sandbox_rs.Sandbox.Patch.FetchData.{FetchData}
use near_sandbox_rs.Sandbox.Patch.StateRecord.{StateRecord}
use near_sandbox_rs.Sandbox.Patch.Builder
use near_sandbox_rs.Sandbox.Patch.Builder.{with_default_access_key}
use near_sandbox_rs.Sandbox.Patch.Fetch.{
  fetch_from, fetch_from_account, fetch_account, fetch_code, fetch_storage, fetch_access_keys,
  add_access_keys, entries_of,
}
use near_sandbox_rs.Sandbox.Patch.Fetch.Choice.{Fetched, requests}
use near_sandbox_rs.Sandbox.Patch.Send.{
  send as send_patch, set_amount, amend_account, process_initial_balance,
}
use near_sandbox_rs.Sandbox.Account.Creation
use near_sandbox_rs.Sandbox.Account.Creation.{AccountCreation}
use near_sandbox_rs.Sandbox.Account.Import
use near_sandbox_rs.Sandbox.Account.Import.{AccountImport}
use near_sandbox_rs.Sandbox.Entry.{create_account, import_account}
use near_sandbox_rs.Sandbox.Account.Sent.{Carries}
use near_sandbox_rs.Sandbox.Account.Create.{create_account_posts, created, Cloned}
use near_sandbox_rs.Sandbox.Account.ImportLaws.{import_account_posts, imported}
use near_sandbox_rs.Tests.Node.{script_net, scripted, sandbox, result, some_account, full_answers}

abbrev creation : AccountCreation
creation = record { account_id = "dev"; sandbox = sandbox; balance = some 9; public_key = none }

abbrev creating : Wire tree_json script_net
creating = scripted (result some_account ∷ result (Tree.string "") ∷ result (Tree.string "") ∷ [])

abbrev creation_end : Wire tree_json script_net
creation_end = (Creation.send creation creating).1

create_runs : Creation.send creation creating ≡ (ok tt, creation_end)
unfolding Creation.send fetch_from_account fetch_account send_patch process_initial_balance
    amend_account set_amount send_request check_error ◌>>=◌ Builder.new Builder.account
    Builder.initial_balance with_default_access_key FetchData.account
create_runs = refl

create_account_posts_example :
    (v : Tree) × (v' : Tree) × Cloned creation v
    × Carries (some 9) v v'
    × (creation_end.sent ≡ creating.sent ++ created creation v')
create_account_posts_example =
    create_account_posts tree_json-IsLawful creation creating creation_end create_runs

abbrev import_of : AccountImport
import_of = record {
  account_id = "bob";
  sandbox = sandbox;
  from_rpc = "https://rpc.example";
  fetch_data = FetchData.all;
  initial_balance = some 9;
  public_key = some "ed25519:other";
}

abbrev importing : Wire tree_json script_net
importing = scripted (full_answers ++ result (Tree.string "") ∷ result (Tree.string "") ∷ [])

abbrev import_end : Wire tree_json script_net
import_end = (Import.send import_of importing).1

import_runs : Import.send import_of importing ≡ (ok tt, import_end)
unfolding Import.send fetch_from fetch_from_account fetch_account fetch_code fetch_storage
    fetch_access_keys add_access_keys entries_of send_patch process_initial_balance amend_account
    set_amount send_request check_error ◌>>=◌ Builder.new Builder.account Builder.code
    Builder.storage_entries Builder.access_key Builder.initial_balance
import_runs = refl

import_account_posts_example :
    (v : Tree) × (v' : Tree) × (rest : List (StateRecord Tree)) × Fetched "bob"
      "https://rpc.example" FetchData.all "bob"
      (StateRecord.account "bob" v ∷ rest)
    × Carries (some 9) v v'
    × (import_end.sent
        ≡ importing.sent
          ++ (requests "bob" "https://rpc.example" FetchData.all ++ imported import_of v' rest))
import_account_posts_example =
    import_account_posts tree_json-IsLawful import_of importing import_end refl import_runs

-- The two builders, as the methods of the handle begin them.
creation_begins : Creation.initial_balance 9 (create_account sandbox "dev") ≡ creation
unfolding create_account Creation.new Creation.initial_balance
creation_begins = refl

import_begins :
    Import.public_key "ed25519:other" (
      Import.initial_balance 9 (
        Import.with_access_keys
          (Import.with_storage (import_account sandbox "https://rpc.example" "bob"))))
    ≡ import_of
unfolding import_account Import.new Import.with_storage Import.with_access_keys FetchData.account
    FetchData.code FetchData.storage FetchData.access_keys Import.initial_balance Import.public_key
import_begins = refl
