-- ===== src/Sandbox/Patch/StateRecord.antt =====
-- src/sandbox/patch.rs: `StateRecord`, and the JSON that its `Serialize` derives.
use near_sandbox_rs.Base.{String, Option, none, some, [], ◌∷◌}
use near_sandbox_rs.Json.{Json, obj}

-- The fields stand in the source's order, account ids first. `entry` is the source's `Data`, which
-- is a reserved word here.
pub data StateRecord (V : Type 0) : Type 0 where
  account : String → V → StateRecord V
  entry : String → String → String → StateRecord V
  contract : String → String → StateRecord V
  access_key : String → String → V → StateRecord V
  postponed_receipt : V → StateRecord V
  received_data : String → String → Option String → StateRecord V
  delayed_receipt : V → StateRecord V

module _ ⦃J : Json⦄ where
  abbrev optional : Option String → J.Value
  optional none = J.null
  optional (some s) = J.string s

  abbrev tagged : String → J.Value → J.Value
  tagged tag body = obj ((tag, body) ∷ [])

  -- An externally tagged enum with the `rename` attributes of its fields.
  unfoldable pub to_value : StateRecord J.Value → J.Value
  to_value (account id v) =
      tagged "Account" (obj (("account_id", J.string id) ∷ ("account", v) ∷ []))
  to_value (entry id key value) = tagged "Data" (
      obj
        (("account_id", J.string id) ∷ ("data_key", J.string key) ∷ ("value", J.string value) ∷ []))
  to_value (contract id code) =
      tagged "Contract" (obj (("account_id", J.string id) ∷ ("code", J.string code) ∷ []))
  to_value (access_key id key v) =
      tagged "AccessKey"
        (obj (("account_id", J.string id) ∷ ("public_key", J.string key) ∷ ("access_key", v) ∷ []))
  to_value (postponed_receipt v) = tagged "PostponedReceipt" v
  to_value (received_data id hash d) =
      tagged "ReceivedData"
        (obj (("account_id", J.string id) ∷ ("data_id", J.string hash) ∷ ("data", optional d) ∷ []))
  to_value (delayed_receipt v) = tagged "DelayedReceipt" v
