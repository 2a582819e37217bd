-- ===== src/Sandbox/Entry.antt =====
-- src/sandbox/mod.rs: the methods of the handle that begin a patch, an import or a new account.
use near_sandbox_rs.Base.{String}
use near_sandbox_rs.Sandbox.Handle.{Sandbox}
use near_sandbox_rs.Sandbox.Patch.Builder
use near_sandbox_rs.Sandbox.Patch.Builder.{PatchState}
use near_sandbox_rs.Sandbox.Account.Creation
use near_sandbox_rs.Sandbox.Account.Creation.{AccountCreation}
use near_sandbox_rs.Sandbox.Account.Import
use near_sandbox_rs.Sandbox.Account.Import.{AccountImport}

unfoldable pub patch_state : {V : Type 0} → Sandbox → String → PatchState V
patch_state sandbox account_id = Builder.new account_id sandbox

unfoldable pub import_account : Sandbox → String → String → AccountImport
import_account sandbox from_rpc account_id = Import.new account_id from_rpc sandbox

unfoldable pub create_account : Sandbox → String → AccountCreation
create_account sandbox account_id = Creation.new account_id sandbox
