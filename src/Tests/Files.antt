-- ===== src/Tests/Files.antt =====
-- The theorems on the files of a node, each at a concrete genesis or folder.
use near_sandbox_rs.Base.{
  ◌+◌, ◌-◌, ◌^◌, ◌<◌, ◌≡◌, refl, String, some, [], ◌∷◌, ◌++◌, ok, panic, arith, if◌then◌else◌,
  str_eq, decimal, parse_unsigned, none, false, Outcome, ◌*◌,
}
use near_sandbox_rs.Json.{get}
use near_sandbox_rs.Json.Tree.{Tree, Fields, Items, tree_json, tree_json-IsLawful}
use near_sandbox_rs.Config.Account.{default, default_config}
use near_sandbox_rs.Config.Genesis.{add_balances, supply_of, extend_genesis}
use near_sandbox_rs.Config.Genesis.Extend.{
  extend_genesis_exact, add_balances-overflows, balance_sum, records_of,
}
use near_sandbox_rs.Base.Dict
use near_sandbox_rs.Base.Dict.{Dict}
use near_sandbox_rs.Disk.{Disk}
use near_sandbox_rs.ErrorKind.{SandboxConfigError}
use near_sandbox_rs.Config.Node.{overwrite, setting, set_sandbox_configs_with_config}
use near_sandbox_rs.Config.Node.Limits.{
  overwrite_outcomes, FileAfter, Limited, set_sandbox_configs_limits,
}

add_balances-overflows_example :
    add_balances (2 ^ 128 - 1) (default ∷ []) ≡ panic "attempt to add with overflow"
add_balances-overflows_example =
    add_balances-overflows (2 ^ 128 - 1) (default ∷ []) refl (omega arith) (omega arith)

abbrev genesis_fields : Fields
genesis_fields =
    Fields.field "total_supply" (Tree.string "7")
      (Fields.field "records" (Tree.array (Items.cons Tree.null Items.nil)) Fields.end)

abbrev genesis : Tree
genesis = Tree.object genesis_fields

supply-value : supply_of (Tree.string "7") ≡ 7
unfolding supply_of parse_unsigned
supply-value = refl

supply-fits : supply_of (Tree.string "7") + balance_sum (default ∷ []) < 2 ^ 128
supply-fits = omega (arith, supply-value)

extend_genesis_exact_example :
    (g : Tree) × (extend_genesis genesis (default ∷ []) ≡ ok g)
    × ((k : String)
        → get g k ≡ (
            if str_eq "records" k
            then some (tree_json.array (Tree.null ∷ [] ++ records_of (default ∷ [])))
            else if str_eq "total_supply" k
            then some
                (Tree.string (decimal (supply_of (Tree.string "7") + balance_sum (default ∷ []))))
            else get genesis k))
extend_genesis_exact_example =
    extend_genesis_exact tree_json-IsLawful genesis (Tree.string "7")
      (Tree.array (Items.cons Tree.null Items.nil)) genesis_fields (Tree.null ∷ []) (default ∷ [])
      refl refl refl refl supply-fits

-- A folder with a config.json, where everything works.
abbrev old_config : Tree
old_config = Tree.object (Fields.field "network" (Tree.string "localnet") Fields.end)

abbrev folder : Disk Tree
folder = record {
  files = ("config.json", old_config) ∷ ("genesis.json", Tree.null) ∷ [];
  create_error = λ name. none;
  write_error = λ name. none;
  left_over = λ name bytes. bytes;
}

overwrite_outcomes_example :
    ((name : String)
      → str_eq "config.json" name ≡ false
      → Dict.at_key (overwrite Tree.null folder).1.files name ≡ Dict.at_key folder.files name)
    × FileAfter Tree.null folder
overwrite_outcomes_example = overwrite_outcomes Tree.null folder

abbrev environment : Dict String
environment = ("NEAR_SANDBOX_MAX_FILES", "17") ∷ []

abbrev configured : Outcome SandboxConfigError (Unit {0}) × Disk Tree
configured = set_sandbox_configs_with_config environment default_config folder

set_sandbox_configs_limits_example :
    (configured.0 ≡ ok tt)
    × ((new : Tree) × Limited
          (setting environment none "NEAR_SANDBOX_MAX_PAYLOAD_SIZE" (1024 * 1024 * 1024))
          (setting environment none "NEAR_SANDBOX_MAX_FILES" 3000)
          old_config
          new
        × (Dict.at_key configured.1.files "config.json" ≡ some new))
set_sandbox_configs_limits_example =
    set_sandbox_configs_limits tree_json-IsLawful environment default_config folder old_config
      old_config refl refl refl refl refl
