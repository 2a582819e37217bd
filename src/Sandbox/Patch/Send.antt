-- ===== src/Sandbox/Patch/Send.antt =====
-- src/sandbox/patch.rs: `send` and `process_initial_balance`.
pub mod Amend
pub mod Twice
use near_sandbox_rs.Base.{
  ℕ, String, Option, none, some, List, [], ◌∷◌, map, ok, err, panic, pure, lift, ◌>>=◌, ◌>>◌,
}
use near_sandbox_rs.Json.{Json, put, obj}
use near_sandbox_rs.Net.{Net}
use near_sandbox_rs.Sandbox.Rpc.{Rpc, request, send_request}
use near_sandbox_rs.Sandbox.Patch.StateRecord.{StateRecord, to_value}
use near_sandbox_rs.Sandbox.Patch.Builder.{PatchState}
use near_sandbox_rs.Sandbox.Patch.Fetch.{query, require, Answer}

module _ ⦃J : Json⦄ where
  abbrev pub Records : Type 0
  Records = List (StateRecord J.Value)

  -- `obj["amount"] = …` on the map of an object, which panics where the key is absent; a value
  -- that is no object stays as it is.
  unfoldable pub set_amount : J.Value → J.Value → Answer J.Value
  set_amount amount v = elim (J.as_object v) [
    | none ↦ ok v
    | some m ↦ elim (J.map_get m "amount") [
      | none ↦ panic "no entry found for key"
      | some _ ↦ ok (J.object (J.map_insert m "amount" amount))
    ]
  ]

  -- `with_head r o` puts `r` back in front of the records that were amended.
  abbrev with_head : StateRecord J.Value → Option (Answer Records) → Option (Answer Records)
  with_head r none = none
  with_head r (some (ok rs)) = some (ok (r ∷ rs))
  with_head r (some (err e)) = some (err e)
  with_head r (some (panic m)) = some (panic m)

  abbrev replaced : String → Records → Answer J.Value → Answer Records
  replaced id rs (ok v) = ok (StateRecord.account id v ∷ rs)
  replaced id rs (err e) = err e
  replaced id rs (panic m) = panic m

  -- `find_map` for the first account record, whose amount is then set; `none` without one.
  unfoldable pub amend_account : J.Value → Records → Option (Answer Records)
  unfolding set_amount
  amend_account amount [] = none
  amend_account amount (StateRecord.account id v ∷ rs) = some (replaced id rs (set_amount amount v))
  amend_account amount (StateRecord.entry a b c ∷ rs) =
      with_head (StateRecord.entry a b c) (amend_account amount rs)
  amend_account amount (StateRecord.contract a b ∷ rs) =
      with_head (StateRecord.contract a b) (amend_account amount rs)
  amend_account amount (StateRecord.access_key a b v ∷ rs) =
      with_head (StateRecord.access_key a b v) (amend_account amount rs)
  amend_account amount (StateRecord.postponed_receipt v ∷ rs) =
      with_head (StateRecord.postponed_receipt v) (amend_account amount rs)
  amend_account amount (StateRecord.received_data a b c ∷ rs) =
      with_head (StateRecord.received_data a b c) (amend_account amount rs)
  amend_account amount (StateRecord.delayed_receipt v ∷ rs) =
      with_head (StateRecord.delayed_receipt v) (amend_account amount rs)

  unfoldable pub patch_request : Records → J.Value
  patch_request records =
      request "sandbox_patch_state"
        (("params", obj (("records", J.array (map to_value records)) ∷ [])) ∷ [])

module _ ⦃J : Json⦄ ⦃N : Net J⦄ where
  -- The branch without an account record: it is fetched, amended and put in front.
  unfoldable pub fetch_balance_account : PatchState J.Value → ℕ → Rpc Records
  unfolding set_amount
  fetch_balance_account p balance = do
    account ← send_request p.sandbox.rpc_addr (query "view_account" p.destination_account [])
    result ← lift (require account "result")
    amended ← lift (set_amount (J.string (J.token_to_string balance)) result)
    found ← lift (require (put account "result" amended) "result")
    pure (StateRecord.account p.destination_account found ∷ p.state)

  unfoldable pub process_initial_balance : PatchState J.Value → ℕ → Rpc Records
  unfolding amend_account fetch_balance_account
  process_initial_balance p balance = elim (amend_account (J.token_to_value balance) p.state) [
    | none ↦ fetch_balance_account p balance
    | some amended ↦ lift amended
  ]

  abbrev pub records_to_send : PatchState J.Value → Option ℕ → Rpc Records
  records_to_send p none = pure p.state
  records_to_send p (some balance) = process_initial_balance p balance

  unfoldable pub send : PatchState J.Value → Rpc (Unit {0})
  send p = do
    records ← records_to_send p p.initial_balance
    send_request p.sandbox.rpc_addr (patch_request records)
    send_request p.sandbox.rpc_addr (patch_request records)
    pure tt
