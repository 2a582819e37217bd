-- ===== src/Tests/Genesis.antt =====
-- The theorems on genesis.json and the key files, at a folder where one account is called `genesis`.
use near_sandbox_rs.Base.{
  ◌≡◌, refl, String, some, [], ◌∷◌, ok, str_eq, if◌then◌else◌, ◌>>=◌, parse_unsigned, decimal, Bool,
  ◌-◌, ◌^◌, arith, ◌+◌, ◌<◌, none, Any, Ended,
}
use near_sandbox_rs.Json.{Json, get}
use near_sandbox_rs.Config.Genesis.Extend.{add_balances-wraps, balance_sum}
use near_sandbox_rs.Config.Genesis.Twice.{extend_genesis_twice}
use near_sandbox_rs.Json.Tree.{Fields, Items, tree_json-IsLawful, Tree, tree_json}
use near_sandbox_rs.Base.Dict
use near_sandbox_rs.Disk.{Disk, read, create, write}
use near_sandbox_rs.Config.Account
use near_sandbox_rs.Config.Account.{GenesisAccount, SandboxConfig, default_config}
use near_sandbox_rs.Config.Genesis.{
  set_sandbox_genesis_with_config, overwrite_genesis, extend_genesis, supply_of, add_balances,
  add_u128, push_records, account_json, access_key_json, save_account_keys, key_json,
}
use near_sandbox_rs.Config.Genesis.KeyFiles.{kept_or_key}
use near_sandbox_rs.Config.Genesis.Folder.{Holds}
use near_sandbox_rs.Config.Genesis.Interrupted.{Interrupted, set_sandbox_genesis_outcomes}
use near_sandbox_rs.Config.Genesis.Whole.{
  held_in, ComesOf, set_sandbox_genesis_exact, set_sandbox_genesis-clobbers,
}
use near_sandbox_rs.Tests.Hosts.{test_folder}

abbrev account : GenesisAccount
account = record {
  account_id = "genesis";
  public_key = "ed25519:A";
  private_key = "ed25519:B";
  balance = 3;
}

abbrev config : SandboxConfig Tree
config = record default_config { additional_accounts = account ∷ [] }

abbrev after : Disk Tree
after = (set_sandbox_genesis_with_config config test_folder).1

genesis_runs : set_sandbox_genesis_with_config config test_folder ≡ (ok tt, after)
unfolding set_sandbox_genesis_with_config overwrite_genesis extend_genesis supply_of add_balances
    add_u128 push_records account_json access_key_json save_account_keys key_json read create write
    parse_unsigned decimal ◌>>=◌
genesis_runs = refl

set_sandbox_genesis_exact_example :
    (bytes : Tree) × ComesOf config test_folder bytes
    × ((name : String)
        → Dict.at_key after.files name
          ≡ kept_or_key (Account.default ∷ account ∷ []) name (
              if str_eq "genesis.json" name
              then some bytes
              else Dict.at_key test_folder.files name))
set_sandbox_genesis_exact_example = set_sandbox_genesis_exact config test_folder after genesis_runs

set_sandbox_genesis-clobbers_example :
    Dict.at_key after.files "genesis.json" ≡ some (key_json account)
set_sandbox_genesis-clobbers_example =
    set_sandbox_genesis-clobbers config test_folder after [] account genesis_runs refl refl

-- A build that does not check for overflow.
abbrev unchecked_json : Json
unchecked_json = record tree_json { overflow_checks = Bool.false }

add_balances-wraps_example : add_balances ⦃J = unchecked_json⦄ (2 ^ 128 - 1) (account ∷ []) ≡ ok 2
add_balances-wraps_example =
    add_balances-wraps ⦃J = unchecked_json⦄ (2 ^ 128 - 1) (account ∷ []) refl (omega arith)

-- A genesis of supply 7, extended by one account after another.
abbrev fields : Fields
fields =
    Fields.field "total_supply" (Tree.string "7")
      (Fields.field "records" (Tree.array Items.nil) Fields.end)

seven : supply_of (Tree.string "7") ≡ 7
unfolding supply_of parse_unsigned
seven = refl

seven-fits :
    supply_of (Tree.string "7") + (balance_sum (account ∷ []) + balance_sum (account ∷ []))
    < 2 ^ 128
seven-fits = omega (arith, seven)

extend_genesis_twice_example :
    (g h both : Tree) × (extend_genesis (Tree.object fields) (account ∷ []) ≡ ok g)
    × (extend_genesis g (account ∷ []) ≡ ok h)
    × (extend_genesis (Tree.object fields) (account ∷ account ∷ []) ≡ ok both)
    × ((k : String) → get h k ≡ get both k)
extend_genesis_twice_example =
    extend_genesis_twice tree_json-IsLawful (Tree.object fields) (Tree.string "7")
      (Tree.array Items.nil) fields [] (account ∷ []) (account ∷ []) refl refl refl refl seven-fits

-- A folder where the key file of the default account cannot be written in full.
abbrev no_keys : Disk Tree
no_keys = record test_folder {
  write_error = λ name. if str_eq name "sandbox.json" then some "disk full" else none;
  left_over = λ name bytes. Tree.string "{";
}

set_sandbox_genesis_outcomes_example :
    let r = set_sandbox_genesis_with_config config no_keys in
    Ended (λ _. Any) (λ _. Interrupted config no_keys) (λ _. Holds (held_in config no_keys)) r.0 r.1
set_sandbox_genesis_outcomes_example = set_sandbox_genesis_outcomes config no_keys
