-- ===== src/Sandbox/Patch/Builder.antt =====
-- src/sandbox/patch.rs: `PatchState` and its builder methods. A value that the source takes as
-- `impl Serialize` is the `Value` that it serialises to.
use near_sandbox_rs.Base.{ℕ, String, Option, none, some, List, [], ◌∷◌, ◌++◌, map}
use near_sandbox_rs.Json.{Json, obj}
use near_sandbox_rs.Sandbox.Handle.{Sandbox}
use near_sandbox_rs.Sandbox.Patch.StateRecord.{StateRecord}

pub record PatchState (V : Type 0) : Type 0 where
  pub destination_account : String
  pub state : List (StateRecord V)
  pub sandbox : Sandbox
  pub initial_balance : Option ℕ

abbrev pub default_genesis_account_public_key : String
default_genesis_account_public_key = "ed25519:5BGSaf6YjVm7565VzWQHNxoyEjwr3jUpRJSGjREvU9dB"

unfoldable pub new : {V : Type 0} → String → Sandbox → PatchState V
new id sb = record { destination_account = id; state = []; sandbox = sb; initial_balance = none }

module _ {V : Type 0} where
  -- `Vec::push` on the records
  unfoldable pub state_record : StateRecord V → PatchState V → PatchState V
  state_record r p = record p { state = p.state ++ r ∷ [] }

  unfoldable pub account : V → PatchState V → PatchState V
  account v p = record p { state = p.state ++ StateRecord.account p.destination_account v ∷ [] }

  unfoldable pub storage : String → String → PatchState V → PatchState V
  storage key value p = record p {
    state = p.state ++ StateRecord.entry p.destination_account key value ∷ [];
  }

  unfoldable pub storage_entries : List (String × String) → PatchState V → PatchState V
  storage_entries entries p = record p {
    state = p.state ++ map (λ e. StateRecord.entry p.destination_account e.0 e.1) entries;
  }

  unfoldable pub code : String → PatchState V → PatchState V
  code c p = record p { state = p.state ++ StateRecord.contract p.destination_account c ∷ [] }

  unfoldable pub access_key : String → V → PatchState V → PatchState V
  access_key key v p = record p {
    state = p.state ++ StateRecord.access_key p.destination_account key v ∷ [];
  }

  unfoldable pub received_data : String → Option String → PatchState V → PatchState V
  received_data hash d p = record p {
    state = p.state ++ StateRecord.received_data p.destination_account hash d ∷ [];
  }

  unfoldable pub initial_balance : ℕ → PatchState V → PatchState V
  initial_balance balance p = record p { initial_balance = some balance }

module _ ⦃J : Json⦄ where
  -- `{"nonce": 0, "permission": "FullAccess"}`
  abbrev pub full_access : J.Value
  full_access = obj (("nonce", J.number 0) ∷ ("permission", J.string "FullAccess") ∷ [])

  unfoldable pub with_default_access_key : PatchState J.Value → PatchState J.Value
  with_default_access_key p = record p {
    state =
        p.state
        ++ StateRecord.access_key p.destination_account default_genesis_account_public_key
            full_access
          ∷ [];
  }
