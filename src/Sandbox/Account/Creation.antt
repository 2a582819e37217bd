-- ===== src/Sandbox/Account/Creation.antt =====
-- src/sandbox/account.rs: `AccountCreation`
use near_sandbox_rs.Base.{ℕ, String, Option, none, some, ◌>>=◌}
use near_sandbox_rs.Json.{Json}
use near_sandbox_rs.Net.{Net}
use near_sandbox_rs.Sandbox.Handle.{Sandbox}
use near_sandbox_rs.Sandbox.Rpc.{Rpc}
use near_sandbox_rs.Sandbox.Patch.FetchData
use near_sandbox_rs.Sandbox.Patch.Builder
use near_sandbox_rs.Sandbox.Patch.Builder.{PatchState, full_access, with_default_access_key}
use near_sandbox_rs.Sandbox.Patch.Fetch.{fetch_from_account}
use near_sandbox_rs.Sandbox.Patch.Send.{send as send_patch}

pub record AccountCreation : Type 0 where
  pub account_id : String
  pub sandbox : Sandbox
  pub balance : Option ℕ
  pub public_key : Option String

-- `config::DEFAULT_ACCOUNT_FOR_CLONING`
abbrev pub default_account_for_cloning : String
default_account_for_cloning = "clone"

unfoldable pub new : String → Sandbox → AccountCreation
new id sb = record { account_id = id; sandbox = sb; balance = none; public_key = none }

unfoldable pub initial_balance : ℕ → AccountCreation → AccountCreation
initial_balance b c = record c { balance = some b }

unfoldable pub public_key : String → AccountCreation → AccountCreation
public_key k c = record c { public_key = some k }

module _ ⦃J : Json⦄ where
  -- `if let Some(balance) = … { patch = patch.initial_balance(balance); }`
  abbrev pub with_balance : Option ℕ → PatchState J.Value → PatchState J.Value
  with_balance none p = p
  with_balance (some b) p = Builder.initial_balance b p

  -- a full access key: the one that was asked for, or the default one
  abbrev pub with_key : Option String → PatchState J.Value → PatchState J.Value
  with_key none p = with_default_access_key p
  with_key (some k) p = Builder.access_key k full_access p

module _ ⦃J : Json⦄ ⦃N : Net J⦄ where
  unfoldable pub send : AccountCreation → Rpc (Unit {0})
  send c = do
    patch ←
        fetch_from_account (Builder.new c.account_id c.sandbox) default_account_for_cloning
          c.sandbox.rpc_addr (FetchData.account FetchData.none)
    send_patch (with_key c.public_key (with_balance c.balance patch))
