-- ===== src/Sandbox/Patch/Send/Amend.antt =====
-- `process_initial_balance`: which record it changes, and how.
use near_sandbox_rs.Base.{
  ◌≡◌, refl, String, Bool, Option, none, some, true, false, List, [], ◌∷◌, ok, err, panic, ◌⊎◌, inl,
  inr, if◌then◌else◌, str_eq, arith, ◌||◌, ◌≢◌, Option-cases,
}
use near_sandbox_rs.Json.{Json, IsLawful, get}
use near_sandbox_rs.Json.Laws.{get-insert}
use near_sandbox_rs.Sandbox.Patch.StateRecord.{StateRecord, account, entry}
use near_sandbox_rs.Sandbox.Patch.Send.{
  Records, set_amount, amend_account, Answer, replaced, with_head,
}
use near_sandbox_rs.ErrorKind.{SandboxRpcError}

abbrev pub is_account : {V : Type 0} → StateRecord V → Bool
is_account (account id v) = true
is_account _ = false

abbrev pub has_account : {V : Type 0} → List (StateRecord V) → Bool
has_account [] = false
has_account (r ∷ rs) = is_account r || has_account rs

module _ ⦃J : Json⦄ where
  -- `rs'` is `rs` with the amount of its first account record set, and nothing else changed.
  pub data Amended (amount : J.Value) : Records → Records → Type 0 where
    here :
        {id : String} {v v' : J.Value} {rs : Records}
        → set_amount amount v ≡ ok v'
        → Amended amount (account id v ∷ rs) (account id v' ∷ rs)
    later :
        {r : StateRecord J.Value} {rs rs' : Records}
        → is_account r ≡ false
        → Amended amount rs rs'
        → Amended amount (r ∷ rs) (r ∷ rs')

  -- What `amend_account` returns: `none` exactly without an account record.
  abbrev pub Amends : J.Value → Records → Option (Answer Records) → Type 0
  Amends amount rs none = has_account rs ≡ false
  Amends amount rs (some (ok rs')) = Amended amount rs rs'
  Amends amount rs (some (err e)) = ⊥
  Amends amount rs (some (panic m)) = has_account rs ≡ true

  set_amount-ne-err : (amount v : J.Value) (x : SandboxRpcError) → set_amount amount v ≢ err x
  unfolding set_amount
  set_amount-ne-err amount v x = ground arith

  replaced-Amends :
      (amount v : J.Value) (id : String) (rs : Records) (r : Answer J.Value)
      → set_amount amount v ≡ r
      → Amends amount (account id v ∷ rs) (some (replaced id rs r))
  replaced-Amends amount v id rs (ok v') e = here e
  replaced-Amends amount v id rs (err x) e = set_amount-ne-err amount v x e
  replaced-Amends amount v id rs (panic m) e = refl

  with_head-Amends :
      (amount : J.Value) (r : StateRecord J.Value) (rs : Records) (o : Option (Answer Records))
      → is_account r ≡ false
      → Amends amount rs o
      → Amends amount (r ∷ rs) (with_head r o)
  with_head-Amends amount r rs none e h = rw e h
  with_head-Amends amount r rs (some (ok rs')) e h = later e h
  with_head-Amends amount r rs (some (err x)) e h = h
  with_head-Amends amount r rs (some (panic m)) e h = rw e h

  -- The outcome of `amend_account` is `none` only if there is no account record; it is never an
  -- error; a panic needs an account record; and a success has set the amount of the first account
  -- record and changed nothing else.
  pub amend_account-Amends :
      (amount : J.Value) (rs : Records) → Amends amount rs (amend_account amount rs)
  unfolding amend_account
  amend_account-Amends amount [] = refl
  amend_account-Amends amount (account id v ∷ rs) = replaced-Amends amount v id rs _ refl
  amend_account-Amends amount (entry a b c ∷ rs) =
      with_head-Amends amount _ rs _ refl (amend_account-Amends amount rs)
  amend_account-Amends amount (_ ∷ rs) =
      with_head-Amends amount _ rs _ refl (amend_account-Amends amount rs)

  set_amount-object :
      (amount v v' : J.Value) (m : J.Map)
      → J.as_object v ≡ some m
      → set_amount amount v ≡ ok v'
      → v' ≡ J.object (J.map_insert m "amount" amount)
  unfolding set_amount
  set_amount-object amount v v' m o e = ground arith

  set_amount-other :
      (amount v v' : J.Value) → J.as_object v ≡ none → set_amount amount v ≡ ok v' → v' ≡ v
  unfolding set_amount
  set_amount-other amount v v' o e = ground arith

  -- What a new amount does to an account: nothing if it is no object; else the field `amount`
  -- gets the new value, and every other field keeps its own.
  pub set_amount_fields :
      IsLawful
      → (amount v v' : J.Value) → set_amount amount v ≡ ok v'
      → ((J.as_object v ≡ none) × (v' ≡ v))
        ⊎ ((k : String) → get v' k ≡ (if str_eq "amount" k then some amount else get v k))
  set_amount_fields L amount v v' e = elim (Option-cases (J.as_object v)) [
    | inl o ↦ inl (o, set_amount-other amount v v' o e)
    | inr (m, o) ↦
        inr
          (λ k. rw (set_amount-object amount v v' m o e, o, get) (get-insert L m "amount" k amount))
  ]
