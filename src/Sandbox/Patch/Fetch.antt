-- ===== src/Sandbox/Patch/Fetch.antt =====
-- src/sandbox/patch.rs: `fetch_from`, `fetch_from_account` and the four requests behind them.
pub mod Adds
pub mod Keys
pub mod Choice
use near_sandbox_rs.Base.{
  String, Bool, Option, none, some, List, [], ◌∷◌, if◌then◌else◌, Outcome, pure, lift, ◌>>=◌, ok_or,
  unwrap_or, and_then,
}
use near_sandbox_rs.ErrorKind.{SandboxRpcError, unexpected_response}
use near_sandbox_rs.Json.{Json, get, obj}
use near_sandbox_rs.Net.{Net}
use near_sandbox_rs.Sandbox.Rpc.{Rpc, request, send_request}
use near_sandbox_rs.Sandbox.Patch.FetchData.{FetchData}
use near_sandbox_rs.Sandbox.Patch.Builder
use near_sandbox_rs.Sandbox.Patch.Builder.{PatchState}

module _ ⦃J : Json⦄ where
  -- The request `query` of a type, for an account.
  abbrev pub query : String → String → List (String × J.Value) → J.Value
  query kind id more = request "query" (
      (
        "params",
        obj (
            ("finality", J.string "optimistic")
            ∷ ("request_type", J.string kind)
            ∷ ("account_id", J.string id)
            ∷ more),
      )
      ∷ [])

  abbrev pub Answer : Type 0 → Type 0
  Answer = Outcome SandboxRpcError

  -- `get(k).ok_or(UnexpectedResponse)?`
  abbrev pub require : J.Value → String → Answer J.Value
  require v k = ok_or (get v k) unexpected_response

  -- The key and the value of a storage entry, if both are there and are strings.
  unfoldable pub entry_of : J.Value → Option (String × String)
  entry_of state = and_then (get state "key") λ k.
      and_then (J.as_str k)
        λ key. and_then (get state "value") λ v. and_then (J.as_str v) λ value. some (key, value)

  -- `iter().flat_map(…)` into options
  unfoldable pub entries_of : List J.Value → List (String × String)
  unfolding entry_of
  entries_of [] = []
  entries_of (v ∷ vs) = elim (entry_of v) [ none ↦ entries_of vs | some e ↦ e ∷ entries_of vs ]

module _ ⦃J : Json⦄ ⦃N : Net J⦄ where
  unfoldable pub fetch_account : PatchState J.Value → String → String → Rpc (PatchState J.Value)
  fetch_account p id from_rpc = do
    response ← send_request from_rpc (query "view_account" id [])
    result ← lift (require response "result")
    pure (Builder.account result p)

  unfoldable pub fetch_storage : PatchState J.Value → String → String → Rpc (PatchState J.Value)
  fetch_storage p id from_rpc = do
    response ← send_request from_rpc (
        query "view_state" id
          (("include_proof", J.boolean Bool.false) ∷ ("prefix_base64", J.string "") ∷ []))
    result ← lift (require response "result")
    values ← lift (require result "values")
    pure (Builder.storage_entries (entries_of (unwrap_or (J.as_array values) [])) p)

  unfoldable pub fetch_code : PatchState J.Value → String → String → Rpc (PatchState J.Value)
  fetch_code p id from_rpc = do
    response ← send_request from_rpc (query "view_code" id [])
    result ← lift (require response "result")
    code ← lift (require result "code_base64")
    pure (Builder.code (unwrap_or (J.as_str code) "") p)

  -- The loop over the keys; the first bad one ends it.
  unfoldable pub add_access_keys : List J.Value → PatchState J.Value → Rpc (PatchState J.Value)
  add_access_keys [] p = pure p
  add_access_keys (k ∷ ks) p = do
    public_key ← lift (require k "public_key")
    key ← lift (require k "access_key")
    add_access_keys ks (Builder.access_key (unwrap_or (J.as_str public_key) "") key p)

  unfoldable pub fetch_access_keys : PatchState J.Value → String → String → Rpc (PatchState J.Value)
  fetch_access_keys p id from_rpc = do
    response ← send_request from_rpc (query "view_access_key_list" id [])
    result ← lift (require response "result")
    keys ← lift (require result "keys")
    add_access_keys (unwrap_or (J.as_array keys) []) p

  -- `if flag { self = self.fetch_…(…).await?; }`
  abbrev pub fetch_if :
      Bool
      → (PatchState J.Value → String → String → Rpc (PatchState J.Value))
      → PatchState J.Value
      → String
      → String
      → Rpc (PatchState J.Value)
  fetch_if flag fetch p id rpc = if flag then fetch p id rpc else pure p

  unfoldable pub fetch_from_account :
      PatchState J.Value → String → String → FetchData → Rpc (PatchState J.Value)
  fetch_from_account p id rpc d = do
    p1 ← fetch_if d.fetch_account fetch_account p id rpc
    p2 ← fetch_if d.fetch_code fetch_code p1 id rpc
    p3 ← fetch_if d.fetch_storage fetch_storage p2 id rpc
    fetch_if d.fetch_access_keys fetch_access_keys p3 id rpc

  unfoldable pub fetch_from : PatchState J.Value → String → FetchData → Rpc (PatchState J.Value)
  fetch_from p rpc d = fetch_from_account p p.destination_account rpc d
