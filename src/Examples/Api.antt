-- ===== src/Examples/Api.antt =====
-- What the examples ask of `near_api` and `near_account_id`, as an interface.
use near_sandbox_rs.Base.{ℕ, Bool, ◌⊎◌, String, Option}
use near_sandbox_rs.Json.{Json}
use near_sandbox_rs.Runner.Host.{Host, Call}

-- `Account::create_account(…)` with the funding account, its balance, the key and who signs
pub record NewAccount (PublicKey Signer : Type 0) : Type 0 where
  pub account_id : String
  pub funded_by : String
  pub initial_balance : ℕ
  pub public_key : PublicKey
  pub signer : Signer

pub record Api {J : Json} (H : Host J) : Type 1 where
  pub Url : Type 0
  pub NetworkConfig : Type 0
  pub SecretKey : Type 0
  pub PublicKey : Type 0
  pub Signer : Type 0
  pub parse_url : String → String ⊎ Url
  pub from_rpc_url : String → Url → NetworkConfig
  -- An account id is its text, if parsing it reports no error.
  pub account_error : String → Option String
  pub parse_secret_key : String → String ⊎ SecretKey
  pub generate_secret_key : Call H.os.World SecretKey
  pub public_key : SecretKey → PublicKey
  pub from_secret_key : SecretKey → String ⊎ Signer
  -- `send_to`: whether the transaction has succeeded
  pub send_to : NewAccount PublicKey Signer → NetworkConfig → Call H.os.World Bool
