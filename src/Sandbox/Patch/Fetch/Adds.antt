-- ===== src/Sandbox/Patch/Fetch/Adds.antt =====
-- What each of the four requests adds to a patch.
use near_sandbox_rs.Base.{
  ◌≡◌, refl, sym, String, Bool, true, false, List, [], ◌∷◌, ◌++◌, ok, Triple, Triple-bind,
  Triple-lift, Triple-pure, Triple-assume, map, subst, unwrap_or,
}
use near_sandbox_rs.Json.{Json}
use near_sandbox_rs.Net.{Net, Wire}
use near_sandbox_rs.Sandbox.Rpc.{Rpc}
use near_sandbox_rs.Sandbox.Rpc.Log.{Sent, Answered, send_request-Answered}
use near_sandbox_rs.Sandbox.Patch.StateRecord.{StateRecord, account, contract, entry, access_key}
use near_sandbox_rs.Sandbox.Patch.Builder
use near_sandbox_rs.Sandbox.Patch.Builder.{PatchState}
use near_sandbox_rs.Sandbox.Patch.Fetch.{
  fetch_account, fetch_code, fetch_storage, query, entries_of, require,
}

module _ {V : Type 0} where
  -- What a choice adds: nothing where it is off.
  abbrev pub Portion : Bool → (List (StateRecord V) → Type 0) → List (StateRecord V) → Type 0
  Portion true P rs = P rs
  Portion false P rs = rs ≡ []

  abbrev pub extend : PatchState V → List (StateRecord V) → PatchState V
  extend p rs = record p { state = p.state ++ rs }

module _ ⦃J : Json⦄ ⦃N : Net J⦄ where
  abbrev pub Records : Type 0
  Records = List (StateRecord J.Value)

  -- The request of `fetch_storage`.
  abbrev pub storage_query : String → J.Value
  storage_query id =
      query "view_state" id
        (("include_proof", J.boolean false) ∷ ("prefix_base64", J.string "") ∷ [])

  -- The field `result` of an answer to a request.
  abbrev pub Resulted : String → J.Value → J.Value → Type 0
  Resulted rpc body result =
      (response : J.Value) × Answered rpc body response × (require response "result" ≡ ok result)

  -- The records for the account `dest` that come of querying the account `id` at a node, each with
  -- what the node answered: one account, one contract, all entries that can be read, all keys.
  module _ (id rpc dest : String) where
    abbrev pub IsAccount : Records → Type 0
    IsAccount rs =
        (v : J.Value) × Resulted rpc (query "view_account" id []) v × (rs ≡ account dest v ∷ [])

    abbrev pub IsCode : Records → Type 0
    IsCode rs =
        (result : J.Value) × (c : J.Value) × Resulted rpc (query "view_code" id []) result
        × (require result "code_base64" ≡ ok c)
        × (rs ≡ contract dest (unwrap_or (J.as_str c) "") ∷ [])

    abbrev pub AreEntries : Records → Type 0
    AreEntries rs =
        (result : J.Value) × (values : J.Value) × Resulted rpc (storage_query id) result
        × (require result "values" ≡ ok values)
        × (rs ≡ map (λ e. entry dest e.0 e.1) (entries_of (unwrap_or (J.as_array values) [])))

    -- A record for each key of a list, in order.
    abbrev pub ForKeys : List J.Value → Records → Type 0
    ForKeys [] rs = rs ≡ []
    ForKeys (k ∷ ks) rs =
        (name : J.Value) × (key : J.Value) × (rest : Records) × (require k "public_key" ≡ ok name)
        × (require k "access_key" ≡ ok key)
        × (rs ≡ access_key dest (unwrap_or (J.as_str name) "") key ∷ rest)
        × ForKeys ks rest

    abbrev pub AreKeys : Records → Type 0
    AreKeys rs =
        (result : J.Value) × (keys : J.Value) × Resulted rpc (query "view_access_key_list" id [])
          result
        × (require result "keys" ≡ ok keys)
        × ForKeys (unwrap_or (J.as_array keys) []) rs

  abbrev pub Requests : Type 0
  Requests = List (String × J.Value)

  -- `q` is `p` with records that have `P` behind its own, and the requests read `log`.
  abbrev pub Adds :
      (Records → Type 0) → Requests → PatchState J.Value → PatchState J.Value → Wire J N → Type 0
  Adds P log p q t = (rs : Records) × (q ≡ extend p rs) × P rs × Sent log t

  pub Adds-open :
      {B : Type 0} {P : Records → Type 0} {Q : B → Wire J N → Type 0} (log : Requests)
      (p q : PatchState J.Value) (f : PatchState J.Value → Rpc B)
      → ((rs : Records) → P rs → Triple (Sent log) (f (extend p rs)) Q)
      → Triple (Adds P log p q) (f q) Q
  Adds-open {Q} log p q f h = record {
    at = λ s t b (rs, e, holds, sent) ran.
        (subst (λ x. Triple (Sent log) (f x) Q) (sym e) (h rs holds)).at s t b sent ran;
  }

module _ ⦃J : Json⦄ ⦃N : Net J⦄ (p : PatchState J.Value) (id rpc : String) (log : Requests) where
  abbrev dest : String
  dest = p.destination_account

  pub fetch_account-Adds :
      let log' : Requests = log ++ (rpc, query "view_account" id []) ∷ [] in
      Triple (Sent log) (fetch_account p id rpc) (Adds (IsAccount id rpc dest) log' p)
  unfolding fetch_account Builder.account
  fetch_account-Adds = Triple-bind _ _ _ (send_request-Answered rpc _ log) λ response.
      Triple-assume λ answered. Triple-bind _ _ _ (Triple-lift _) λ result.
        Triple-pure _ λ s sent. (_, refl, (result, (response, answered, sent.1), refl), sent.0)

  pub fetch_code-Adds :
      let log' : Requests = log ++ (rpc, query "view_code" id []) ∷ [] in
      Triple (Sent log) (fetch_code p id rpc) (Adds (IsCode id rpc dest) log' p)
  unfolding fetch_code Builder.code
  fetch_code-Adds = Triple-bind _ _ _ (send_request-Answered rpc _ log) λ response.
      Triple-assume λ answered. Triple-bind _ _ _ (Triple-lift _) λ result.
        Triple-bind _ _ _ (Triple-lift _) λ code. Triple-pure _ λ s sent.
          (_, refl, (result, code, (response, answered, sent.0.1), sent.1, refl), sent.0.0)

  pub fetch_storage-Adds :
      Triple
        (Sent log)
        (fetch_storage p id rpc)
        (Adds (AreEntries id rpc dest) (log ++ (rpc, storage_query id) ∷ []) p)
  unfolding fetch_storage Builder.storage_entries
  fetch_storage-Adds = Triple-bind _ _ _ (send_request-Answered rpc _ log) λ response.
      Triple-assume λ answered. Triple-bind _ _ _ (Triple-lift _) λ result.
        Triple-bind _ _ _ (Triple-lift _) λ values. Triple-pure _ λ s sent.
          (_, refl, (result, values, (response, answered, sent.0.1), sent.1, refl), sent.0.0)
