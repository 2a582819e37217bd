-- ===== src/Sandbox/Account/Import.antt =====
-- src/sandbox/account.rs: `AccountImport`
use near_sandbox_rs.Base.{ℕ, String, Option, none, some, ◌>>=◌}
use near_sandbox_rs.Json.{Json}
use near_sandbox_rs.Net.{Net}
use near_sandbox_rs.Sandbox.Handle.{Sandbox}
use near_sandbox_rs.Sandbox.Rpc.{Rpc}
use near_sandbox_rs.Sandbox.Account.Creation.{with_balance, with_key}
use near_sandbox_rs.Sandbox.Patch.FetchData
use near_sandbox_rs.Sandbox.Patch.FetchData.{FetchData}
use near_sandbox_rs.Sandbox.Patch.Builder
use near_sandbox_rs.Sandbox.Patch.Fetch.{fetch_from}
use near_sandbox_rs.Sandbox.Patch.Send.{send as send_patch}

pub record AccountImport : Type 0 where
  pub account_id : String
  pub sandbox : Sandbox
  pub from_rpc : String
  pub fetch_data : FetchData
  pub initial_balance : Option ℕ
  pub public_key : Option String

unfoldable pub new : String → String → Sandbox → AccountImport
new id from_rpc sb = record {
  account_id = id;
  sandbox = sb;
  from_rpc = from_rpc;
  fetch_data = FetchData.code (FetchData.account FetchData.none);
  initial_balance = none;
  public_key = none;
}

unfoldable pub with_storage : AccountImport → AccountImport
with_storage i = record i { fetch_data = FetchData.storage i.fetch_data }

unfoldable pub with_access_keys : AccountImport → AccountImport
with_access_keys i = record i { fetch_data = FetchData.access_keys i.fetch_data }

unfoldable pub initial_balance : ℕ → AccountImport → AccountImport
initial_balance b i = record i { initial_balance = some b }

unfoldable pub public_key : String → AccountImport → AccountImport
public_key k i = record i { public_key = some k }

module _ ⦃J : Json⦄ ⦃N : Net J⦄ where
  unfoldable pub send : AccountImport → Rpc (Unit {0})
  send i = do
    patch ← fetch_from (Builder.new i.account_id i.sandbox) i.from_rpc i.fetch_data
    send_patch (with_balance i.initial_balance (with_key i.public_key patch))
