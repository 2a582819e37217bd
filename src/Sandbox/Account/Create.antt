-- ===== src/Sandbox/Account/Create.antt =====
-- `AccountCreation::send`
use near_sandbox_rs.Base.{
  ◌≡◌, refl, ap, ◌∙◌, sym, String, [], ◌∷◌, ◌++◌, ok, append_assoc, subst, Triple, Triple-bind,
  Triple-weaken,
}
use near_sandbox_rs.Json.{Json, IsLawful}
use near_sandbox_rs.Net.{Net, Wire}
use near_sandbox_rs.Sandbox.Rpc.Log.{Sent}
use near_sandbox_rs.Sandbox.Patch.FetchData
use near_sandbox_rs.Sandbox.Patch.StateRecord.{account}
use near_sandbox_rs.Sandbox.Patch.Builder
use near_sandbox_rs.Sandbox.Patch.Builder.{PatchState}
use near_sandbox_rs.Sandbox.Patch.Fetch.{query}
use near_sandbox_rs.Sandbox.Patch.Fetch.Adds.{Resulted, Requests, Adds-open}
use near_sandbox_rs.Sandbox.Patch.Fetch.Choice.{Fetched, fetch_from_account-Fetched, requests}
use near_sandbox_rs.Sandbox.Patch.Send.{Records, send as send_patch}
use near_sandbox_rs.Sandbox.Patch.Send.Twice.{patch_twice}
use near_sandbox_rs.Sandbox.Account.Creation
use near_sandbox_rs.Sandbox.Account.Creation.{
  AccountCreation, with_key, with_balance, default_account_for_cloning,
}
use near_sandbox_rs.Sandbox.Account.Sent.{
  Carries, send-SentAccount, key_record, finished, with_key-with_balance,
}

module _ ⦃J : Json⦄ ⦃N : Net J⦄ where
  -- Of the choice `account` alone, one account record is all that there is.
  only_account :
      (id from rpc : String) (rs : Records)
      → Fetched from rpc (FetchData.account FetchData.none) id rs
      → (v : J.Value) × Resulted rpc (query "view_account" from []) v × (rs ≡ account id v ∷ [])
  unfolding FetchData.account
  only_account id from rpc rs f =
      let (v, answered, e) = f.has_account in
      (v, answered, f.parts ∙ rw (e, f.has_code, f.has_entries, f.has_keys))

  -- `v` is the account to clone, as the sandbox has answered.
  abbrev pub Cloned : AccountCreation → J.Value → Type 0
  Cloned c v = Resulted c.sandbox.rpc_addr (query "view_account" default_account_for_cloning []) v

  -- The requests of a creation: the account to clone, and the patch of the account and its key.
  abbrev pub created : AccountCreation → J.Value → Requests
  created c v' =
      let url = c.sandbox.rpc_addr in
      let patch : PatchState J.Value = finished c.account_id c.sandbox [] c.public_key c.balance in
      (url, query "view_account" default_account_for_cloning [])
      ∷ patch_twice patch (account c.account_id v' ∷ key_record c.account_id c.public_key ∷ [])

  abbrev Created : AccountCreation → Requests → Unit {0} → Wire J N → Type 0
  Created c log _ t =
      (v : J.Value) × (v' : J.Value) × Cloned c v
      × Carries c.balance v v'
      × Sent (log ++ created c v') t

  send-Created :
      IsLawful
      → (c : AccountCreation) (log : Requests) → Triple (Sent log) (Creation.send c) (Created c log)
  unfolding Creation.send Builder.new FetchData.account
  send-Created L c log =
      let start = Builder.new c.account_id c.sandbox in
      let asked : Requests =
        requests default_account_for_cloning c.sandbox.rpc_addr
          (FetchData.account FetchData.none) in
      Triple-bind _ _ _
        (fetch_from_account-Fetched default_account_for_cloning c.sandbox.rpc_addr start
          (FetchData.account FetchData.none) log)
        λ q.
          Adds-open (log ++ asked) start q
            (λ p. send_patch (with_key c.public_key (with_balance c.balance p)))
            λ rs fetched.
              let (v, answered, one) =
                only_account c.account_id default_account_for_cloning c.sandbox.rpc_addr rs
                  fetched in
              let key = key_record c.account_id c.public_key in
              let whole = finished c.account_id c.sandbox rs c.public_key c.balance in
              subst (λ p. Triple (Sent (log ++ asked)) (send_patch p) (Created c log))
                (sym (with_key-with_balance c.account_id c.sandbox rs c.public_key c.balance))
                (Triple-weaken _
                  (send-SentAccount L whole c.account_id v (key ∷ []) (log ++ asked)
                    (ap (λ x. x ++ key ∷ []) one))
                  λ _ t (v', carries, sent). (
                    v,
                    v',
                    answered,
                    carries,
                    sent
                        ∙ append_assoc log asked
                            (patch_twice whole (account c.account_id v' ∷ key ∷ [])),
                  ))

  -- A successful creation has posted, in this order and nothing else: the query of the account
  -- `clone`, and twice one patch of two records, an account and a full access key, the one given or
  -- the default one. The account is what the sandbox answered to the query, with the balance that
  -- was asked for.
  pub create_account_posts :
      IsLawful
      → (c : AccountCreation) (s t : Wire J N) → Creation.send c s ≡ (ok tt, t)
      → (v : J.Value) × (v' : J.Value) × Cloned c v
        × Carries c.balance v v'
        × (t.sent ≡ s.sent ++ created c v')
  create_account_posts L c s t e = (send-Created L c s.sent).at s t tt refl e
