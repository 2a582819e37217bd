-- ===== src/Config/Account.antt =====
-- src/config.rs: `GenesisAccount` and `SandboxConfig`. What the random number generator, the clock
-- and the key generator give is an argument.
use near_sandbox_rs.Base.{
  ℕ, ◌*◌, ◌^◌, String, ◌<>◌, Option, none, List, [], ◌∷◌, zero, suc, decimal,
}
use near_sandbox_rs.Sandbox.Patch.Builder.{default_genesis_account_public_key}

abbrev pub default_genesis_account : String
default_genesis_account = "sandbox"

abbrev pub default_genesis_account_private_key : String
default_genesis_account_private_key =
    "ed25519:3tgdk2wPraJzT4nsTuf86UX41xgPNk3MHnq8epARMdBNs29AFEztAuaQ7iHddDfXG9F2RzV1XNQYgJyAyoW51UBB"

-- 10,000 NEAR
abbrev pub default_genesis_account_balance : ℕ
default_genesis_account_balance = 10000 * 10 ^ 24

pub record GenesisAccount : Type 0 where
  pub account_id : String
  pub public_key : String
  pub private_key : String
  pub balance : ℕ

abbrev pub default_with_name : String → GenesisAccount
default_with_name name = record {
  account_id = name;
  public_key = default_genesis_account_public_key;
  private_key = default_genesis_account_private_key;
  balance = default_genesis_account_balance;
}

-- `GenesisAccount::default`
abbrev pub default : GenesisAccount
default = record {
  account_id = default_genesis_account;
  public_key = default_genesis_account_public_key;
  private_key = default_genesis_account_private_key;
  balance = default_genesis_account_balance;
}

-- The text that `random_account_id` parses, from the time and the random number.
unfoldable pub random_account_text : String → ℕ → String
random_account_text time n = "dev-acc-" <> time <> "-" <> decimal n <> ".sandbox"

-- `[SECRET_KEY_LENGTH..]`: what follows the first bytes.
abbrev after_secret : ℕ → List ℕ → List ℕ
after_secret zero bytes = bytes
after_secret (suc n) [] = []
after_secret (suc n) (b ∷ bytes) = after_secret n bytes

-- The private and the public key, from the 64 bytes of a generated key pair; `encode` is
-- `bs58::encode`.
unfoldable pub random_key_pair : (List ℕ → String) → List ℕ → String × String
random_key_pair encode keypair_bytes =
    ("ed25519:" <> encode keypair_bytes, "ed25519:" <> encode (after_secret 32 keypair_bytes))

-- A pair is the private key and the public key, as `random_key_pair` returns them.
unfoldable pub generate_with_name_and_balance : String × String → String → ℕ → GenesisAccount
generate_with_name_and_balance (private_key, public_key) name balance = record {
  account_id = name;
  public_key = public_key;
  private_key = private_key;
  balance = balance;
}

unfoldable pub generate_with_name : String × String → String → GenesisAccount
generate_with_name (private_key, public_key) name = record {
  account_id = name;
  public_key = public_key;
  private_key = private_key;
  balance = default_genesis_account_balance;
}

-- The name is what `random_account_id` gives.
unfoldable pub generate_with_balance : String × String → String → ℕ → GenesisAccount
generate_with_balance (private_key, public_key) random_id balance = record {
  account_id = random_id;
  public_key = public_key;
  private_key = private_key;
  balance = balance;
}

unfoldable pub generate_random : String × String → String → GenesisAccount
generate_random (private_key, public_key) random_id = record {
  account_id = random_id;
  public_key = public_key;
  private_key = private_key;
  balance = default_genesis_account_balance;
}

-- `None` is a field that is not set. `V` is the type of JSON values.
pub record SandboxConfig (V : Type 0) : Type 0 where
  pub max_payload_size : Option ℕ
  pub max_open_files : Option ℕ
  pub additional_config : Option V
  pub additional_accounts : List GenesisAccount
  pub additional_genesis : Option V
  pub rpc_port : Option ℕ
  pub net_port : Option ℕ
  pub port_transfer_retries : Option ℕ

-- `SandboxConfig::default`
abbrev pub default_config : {V : Type 0} → SandboxConfig V
default_config = record {
  max_payload_size = none;
  max_open_files = none;
  additional_config = none;
  additional_accounts = [];
  additional_genesis = none;
  rpc_port = none;
  net_port = none;
  port_transfer_retries = none;
}
