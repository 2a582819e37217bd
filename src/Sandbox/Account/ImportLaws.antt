-- ===== src/Sandbox/Account/ImportLaws.antt =====
-- `AccountImport::send`
use near_sandbox_rs.Base.{
  ◌≡◌, refl, ap, ◌∙◌, sym, String, true, [], ◌∷◌, ◌++◌, ok, append_assoc, subst, Triple,
  Triple-bind, Triple-weaken,
}
use near_sandbox_rs.Json.{Json, IsLawful}
use near_sandbox_rs.Net.{Net, Wire}
use near_sandbox_rs.Sandbox.Rpc.Log.{Sent}
use near_sandbox_rs.Sandbox.Patch.FetchData.{FetchData}
use near_sandbox_rs.Sandbox.Patch.StateRecord.{account}
use near_sandbox_rs.Sandbox.Patch.Builder
use near_sandbox_rs.Sandbox.Patch.Builder.{PatchState}
use near_sandbox_rs.Sandbox.Patch.Fetch.{fetch_from}
use near_sandbox_rs.Sandbox.Patch.Fetch.Adds.{Requests, Adds-open, Portion, IsAccount}
use near_sandbox_rs.Sandbox.Patch.Fetch.Choice.{Fetched, fetch_from_account-Fetched, requests}
use near_sandbox_rs.Sandbox.Patch.Send.{Records, send as send_patch}
use near_sandbox_rs.Sandbox.Patch.Send.Twice.{patch_twice}
use near_sandbox_rs.Sandbox.Account.Import
use near_sandbox_rs.Sandbox.Account.Import.{AccountImport}
use near_sandbox_rs.Sandbox.Account.Creation.{with_key, with_balance}
use near_sandbox_rs.Sandbox.Account.Sent.{
  Carries, send-SentAccount, key_record, finished, with_balance-with_key,
}

module _ ⦃J : Json⦄ ⦃N : Net J⦄ where
  first_account :
      (d : FetchData) (id from rpc : String) (rs : Records)
      → d.fetch_account ≡ true
      → Fetched from rpc d id rs
      → (v : J.Value) × (rest : Records) × (rs ≡ account id v ∷ rest)
  first_account d id from rpc rs on f =
      let (v, answered, e) =
        subst (λ b. Portion b (IsAccount from rpc id) f.account) on f.has_account in
      (
        v,
        f.code ++ (f.entries ++ f.keys),
        f.parts ∙ ap (λ a. a ++ (f.code ++ (f.entries ++ f.keys))) e,
      )

  -- The two patches that end an import, over what else was fetched.
  abbrev pub imported : AccountImport → J.Value → Records → Requests
  imported i v' rest =
      patch_twice (finished i.account_id i.sandbox [] i.public_key i.initial_balance)
        (account i.account_id v' ∷ (rest ++ key_record i.account_id i.public_key ∷ []))

  abbrev Imported : AccountImport → Requests → Unit {0} → Wire J N → Type 0
  Imported i log _ t =
      (v : J.Value) × (v' : J.Value) × (rest : Records) × Fetched i.account_id i.from_rpc
        i.fetch_data i.account_id (account i.account_id v ∷ rest)
      × Carries i.initial_balance v v'
      × Sent (log ++ (requests i.account_id i.from_rpc i.fetch_data ++ imported i v' rest)) t

  send-Imported :
      IsLawful
      → (i : AccountImport) (log : Requests) → i.fetch_data.fetch_account ≡ true
      → Triple (Sent log) (Import.send i) (Imported i log)
  unfolding Import.send Builder.new fetch_from
  send-Imported L i log on =
      let start = Builder.new i.account_id i.sandbox in
      let asked : Requests = requests i.account_id i.from_rpc i.fetch_data in
      Triple-bind _ _ _ (fetch_from_account-Fetched i.account_id i.from_rpc start i.fetch_data log)
        λ q.
          Adds-open (log ++ asked) start q
            (λ p. send_patch (with_balance i.initial_balance (with_key i.public_key p)))
            λ rs fetched.
              let (v, rest, first) =
                first_account i.fetch_data i.account_id i.account_id i.from_rpc rs on fetched in
              let key = key_record i.account_id i.public_key in
              let whole = finished i.account_id i.sandbox rs i.public_key i.initial_balance in
              subst (λ p. Triple (Sent (log ++ asked)) (send_patch p) (Imported i log))
                (sym
                  (with_balance-with_key i.account_id i.sandbox rs i.public_key i.initial_balance))
                (Triple-weaken _
                  (send-SentAccount L whole i.account_id v (rest ++ key ∷ []) (log ++ asked)
                    (ap (λ x. x ++ key ∷ []) first))
                  λ _ t (v', carries, sent). (
                    v,
                    v',
                    rest,
                    subst (Fetched i.account_id i.from_rpc i.fetch_data i.account_id) first fetched,
                    carries,
                    sent
                        ∙ append_assoc log asked
                            (patch_twice whole (account i.account_id v' ∷ (rest ++ key ∷ []))),
                  ))

  -- A successful import of an account (with the account among the fetched data, as `new` sets it)
  -- has posted the chosen queries to the other node, and then twice one patch to the sandbox: the
  -- account that was answered, with the balance that was asked for; the other records that come of
  -- the answers; and a full access key, the one given or the default one.
  pub import_account_posts :
      IsLawful
      → (i : AccountImport) (s t : Wire J N) → i.fetch_data.fetch_account ≡ true
      → Import.send i s ≡ (ok tt, t)
      → (v : J.Value) × (v' : J.Value) × (rest : Records) × Fetched i.account_id i.from_rpc
          i.fetch_data i.account_id
          (account i.account_id v ∷ rest)
        × Carries i.initial_balance v v'
        × (t.sent ≡ s.sent ++ (requests i.account_id i.from_rpc i.fetch_data ++ imported i v' rest))
  import_account_posts L i s t on e = (send-Imported L i s.sent on).at s t tt refl e
