-- ===== src/Config/Genesis.antt =====
-- src/config.rs: `set_sandbox_genesis_with_config`, which rewrites genesis.json and saves keys.
pub mod Extend
pub mod Folder
pub mod KeyFiles
pub mod Whole
pub mod Twice
pub mod Prepared
pub mod Interrupted
use near_sandbox_rs.Base.{
  ℕ, ◌+◌, ◌%◌, ◌^◌, String, ◌<>◌, Option, none, some, List, [], ◌∷◌, ◌++◌, ltb, if◌then◌else◌,
  Outcome, ok, err, panic, pure, lift, ◌>>=◌, ◌>>◌, expect, unwrap_or, parse_unsigned, decimal,
}
use near_sandbox_rs.ErrorKind.{
  SandboxConfigError, file_error as config_file_error, json_parse_error,
}
use near_sandbox_rs.Json.{Json, obj}
use near_sandbox_rs.Disk.{Fs, read, create, write}
use near_sandbox_rs.Config.Account
use near_sandbox_rs.Config.Account.{
  GenesisAccount, SandboxConfig, default_config, default_with_name,
}
use near_sandbox_rs.Config.Node.{parsed, merge_additional}
use near_sandbox_rs.Sandbox.Account.Creation.{default_account_for_cloning}

module _ ⦃J : Json⦄ where
  abbrev pub Step : Type 0 → Type 0
  Step = Outcome SandboxConfigError

  infixl 5 ◌then◌
  abbrev ◌then◌ : {A B : Type 0} → Step A → (A → Step B) → Step B
  ok a then f = f a
  err e then f = err e
  panic m then f = panic m

  -- `+=` on `u128`
  unfoldable pub add_u128 : ℕ → ℕ → Step ℕ
  add_u128 a b =
      if ltb (a + b) (2 ^ 128)
      then ok (a + b)
      else if J.overflow_checks
      then panic "attempt to add with overflow"
      else ok ((a + b) % 2 ^ 128)

  -- The loop that adds the balances.
  unfoldable pub add_balances : ℕ → List GenesisAccount → Step ℕ
  add_balances total [] = ok total
  add_balances total (a ∷ rest) = add_u128 total a.balance then λ t. add_balances t rest

  -- `u128::from_str(v.as_str().unwrap_or_default()).unwrap_or_default()`
  unfoldable pub supply_of : J.Value → ℕ
  supply_of v = unwrap_or (parse_unsigned (2 ^ 128) (unwrap_or (J.as_str v) "")) 0

  unfoldable pub account_json : GenesisAccount → J.Value
  account_json a = obj (
      (
        "Account",
        obj (
            ("account_id", J.string a.account_id)
            ∷ (
              "account",
              obj (
                  ("amount", J.token_to_value a.balance)
                  ∷ ("locked", J.string "0")
                  ∷ ("code_hash", J.string "11111111111111111111111111111111")
                  ∷ ("storage_usage", J.number 182)
                  ∷ []),
            )
            ∷ []),
      )
      ∷ [])

  unfoldable pub access_key_json : GenesisAccount → J.Value
  access_key_json a = obj (
      (
        "AccessKey",
        obj (
            ("account_id", J.string a.account_id)
            ∷ ("public_key", J.string a.public_key)
            ∷ (
              "access_key",
              obj (("nonce", J.number 0) ∷ ("permission", J.string "FullAccess") ∷ []),
            )
            ∷ []),
      )
      ∷ [])

  -- The loop that pushes two records for each account.
  unfoldable pub push_records : List J.Value → List GenesisAccount → List J.Value
  push_records records [] = records
  push_records records (a ∷ rest) =
      push_records ((records ++ account_json a ∷ []) ++ access_key_json a ∷ []) rest

  -- The changes to the genesis: the supply, and the records.
  unfoldable pub extend_genesis : J.Value → List GenesisAccount → Step J.Value
  extend_genesis genesis accounts = expect (J.as_object genesis) "expected to be object" then λ m.
      expect (J.map_get m "total_supply") "expected exist total_supply" then λ supply.
      add_balances (supply_of supply) accounts then λ total.
      let m' = J.map_insert m "total_supply" (J.string (decimal total)) in
      expect (J.map_get m' "records") "expect exist records" then λ records.
      expect (J.as_array records) "expected to be array" then λ array.
      ok (J.object (J.map_insert m' "records" (J.array (push_records array accounts))))

  abbrev pub accounts_to_add : SandboxConfig J.Value → List GenesisAccount
  accounts_to_add config =
      Account.default ∷ default_with_name default_account_for_cloning ∷ config.additional_accounts

  unfoldable pub overwrite_genesis : SandboxConfig J.Value → Fs (Unit {0})
  overwrite_genesis config = do
    bytes ← read config_file_error "genesis.json"
    genesis ← lift (parsed bytes)
    extended ← lift (extend_genesis genesis (accounts_to_add config))
    create config_file_error "genesis.json"
    write json_parse_error "genesis.json"
        (J.write (merge_additional config.additional_genesis extended))

  unfoldable pub key_json : GenesisAccount → J.Value
  key_json a = obj (
      ("account_id", J.string a.account_id)
      ∷ ("public_key", J.string a.public_key)
      ∷ ("private_key", J.string a.private_key)
      ∷ [])

  abbrev pub key_file : GenesisAccount → String
  key_file a = a.account_id <> ".json"

  unfoldable pub save_account_keys : List GenesisAccount → Fs (Unit {0})
  save_account_keys [] = pure tt
  save_account_keys (a ∷ rest) = do
    create config_file_error (key_file a)
    write config_file_error (key_file a) (J.write (key_json a))
    save_account_keys rest

  unfoldable pub set_sandbox_genesis_with_config : SandboxConfig J.Value → Fs (Unit {0})
  set_sandbox_genesis_with_config config = do
    overwrite_genesis config
    save_account_keys (Account.default ∷ config.additional_accounts)

  unfoldable pub set_sandbox_genesis : Fs (Unit {0})
  unfolding set_sandbox_genesis_with_config
  set_sandbox_genesis = set_sandbox_genesis_with_config default_config
