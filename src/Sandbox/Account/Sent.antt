-- ===== src/Sandbox/Account/Sent.antt =====
-- What creating and importing an account posts.
use near_sandbox_rs.Base.{
  ℕ, ◌≡◌, refl, ap, ◌∙◌, String, Option, none, some, false, [], ◌∷◌, ◌++◌, ok, ◌⊎◌, inl, inr,
  if◌then◌else◌, subst, Triple, Triple-weaken, str_eq, unwrap_or,
}
use near_sandbox_rs.Json.{Json, IsLawful, get}
use near_sandbox_rs.Net.{Net, Wire}
use near_sandbox_rs.Sandbox.Handle.{Sandbox}
use near_sandbox_rs.Sandbox.Rpc.Log.{Sent}
use near_sandbox_rs.Sandbox.Patch.StateRecord.{StateRecord, account, access_key}
use near_sandbox_rs.Sandbox.Patch.Builder
use near_sandbox_rs.Sandbox.Patch.Builder.{
  PatchState, full_access, with_default_access_key, default_genesis_account_public_key,
}
use near_sandbox_rs.Sandbox.Patch.Fetch.Adds.{Requests, extend}
use near_sandbox_rs.Sandbox.Patch.Send.{Records, set_amount, send as send_patch}
use near_sandbox_rs.Sandbox.Patch.Send.Amend.{Amended, here, later, set_amount_fields, has_account}
use near_sandbox_rs.Sandbox.Patch.Send.Twice.{ToSend, send-SentPatch, patch_twice, balance_requests}
use near_sandbox_rs.Sandbox.Account.Creation.{with_key, with_balance}

module _ ⦃J : Json⦄ where
  -- `v'` is the account `v` with the balance that was asked for: an object gets the field
  -- `amount` and keeps all others; without a balance nothing changes.
  abbrev pub Carries : Option ℕ → J.Value → J.Value → Type 0
  Carries none v v' = v' ≡ v
  Carries (some b) v v' =
      ((J.as_object v ≡ none) × (v' ≡ v))
      ⊎ ((k : String)
          → get v' k ≡ (if str_eq "amount" k then some (J.token_to_value b) else get v k))

  Amended-first :
      {amount v : J.Value} {id : String} {rest out : Records}
      → Amended amount (account id v ∷ rest) out
      → (v' : J.Value) × (set_amount amount v ≡ ok v') × (out ≡ account id v' ∷ rest)
  Amended-first (here e) = (_, e, refl)
  Amended-first (later e h) = absurd (cc e)

module _ ⦃J : Json⦄ ⦃N : Net J⦄ where
  ToSend-first :
      IsLawful
      → (p : PatchState J.Value) (balance : Option ℕ) (id : String) (v : J.Value)
        (rest out : Records)
      → p.state ≡ account id v ∷ rest
      → ToSend p balance out
      → (v' : J.Value) × Carries balance v v' × (out ≡ account id v' ∷ rest)
  ToSend-first L p none id v rest out e h = (v, refl, h ∙ e)
  ToSend-first L p (some b) id v rest out e (inl h) =
      let (v', set, eq) = Amended-first (subst (λ x. Amended (J.token_to_value b) x out) e h) in
      (v', set_amount_fields L (J.token_to_value b) v v' set, eq)
  ToSend-first L p (some b) id v rest out e (inr (found, w, answered, h, set, q)) =
      absurd (cc (subst (λ x. has_account x ≡ false) e h))

  balance_requests-eq-nil :
      (p : PatchState J.Value) (balance : Option ℕ) (id : String) (v : J.Value) (rest : Records)
      → p.state ≡ account id v ∷ rest
      → balance_requests p balance ≡ []
  balance_requests-eq-nil p none id v rest e = refl
  balance_requests-eq-nil p (some b) id v rest e = rw e

  -- A patch that begins with an account record is posted twice, and nothing else is.
  abbrev pub SentAccount :
      PatchState J.Value → String → J.Value → Records → Requests → Wire J N → Type 0
  SentAccount p id v rest log t =
      (v' : J.Value) × Carries p.initial_balance v v'
      × Sent (log ++ patch_twice p (account id v' ∷ rest)) t

  pub send-SentAccount :
      IsLawful
      → (p : PatchState J.Value) (id : String) (v : J.Value) (rest : Records) (log : Requests)
      → p.state ≡ account id v ∷ rest
      → Triple (Sent log) (send_patch p) (λ _. SentAccount p id v rest log)
  send-SentAccount L p id v rest log e =
      Triple-weaken _ (send-SentPatch L p log) λ _ t (out, chosen, sent).
        let (v', carries, eq) = ToSend-first L p p.initial_balance id v rest out e chosen in
        (
          v',
          carries,
          sent
              ∙ ap (λ x. log ++ (x ++ patch_twice p out))
                  (balance_requests-eq-nil p p.initial_balance id v rest e)
              ∙ ap (λ x. log ++ patch_twice p x) eq,
        )

module _ ⦃J : Json⦄ where
  -- The access key that is added: the one that was asked for, or the default one.
  abbrev pub key_record : String → Option String → StateRecord J.Value
  key_record id key = access_key id (unwrap_or key default_genesis_account_public_key) full_access

  -- A new patch with the records `rs`, the key and the balance.
  abbrev pub finished : String → Sandbox → Records → Option String → Option ℕ → PatchState J.Value
  finished id sb rs key balance = record {
    destination_account = id;
    state = rs ++ key_record id key ∷ [];
    sandbox = sb;
    initial_balance = balance;
  }

  pub with_key-with_balance :
      (id : String) (sb : Sandbox) (rs : Records) (key : Option String) (balance : Option ℕ)
      → with_key key (with_balance balance (extend (Builder.new id sb) rs))
        ≡ finished id sb rs key balance
  unfolding Builder.new with_default_access_key Builder.access_key Builder.initial_balance
  with_key-with_balance id sb rs none none = refl
  with_key-with_balance id sb rs none (some b) = refl
  with_key-with_balance id sb rs (some k) none = refl
  with_key-with_balance id sb rs (some k) (some b) = refl

  pub with_balance-with_key :
      (id : String) (sb : Sandbox) (rs : Records) (key : Option String) (balance : Option ℕ)
      → with_balance balance (with_key key (extend (Builder.new id sb) rs))
        ≡ finished id sb rs key balance
  unfolding Builder.new with_default_access_key Builder.access_key Builder.initial_balance
  with_balance-with_key id sb rs none none = refl
  with_balance-with_key id sb rs none (some b) = refl
  with_balance-with_key id sb rs (some k) none = refl
  with_balance-with_key id sb rs (some k) (some b) = refl
