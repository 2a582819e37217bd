-- ===== src/Sandbox/Patch/Send/Twice.antt =====
-- `send`: the records that go out, and how often.
use near_sandbox_rs.Base.{
  ℕ, ◌≡◌, refl, ◌∙◌, sym, String, Option, none, some, true, false, [], ◌∷◌, ◌++◌, ok, err, panic,
  ◌⊎◌, inl, inr, if◌then◌else◌, append-nil, append_assoc, arith, eq_refl, subst, Option-cases,
  Triple, Triple-assume, Triple-bind, Triple-lift, Triple-pure, lift, ok_or,
}
use near_sandbox_rs.ErrorKind.{unexpected_response}
use near_sandbox_rs.Json.{Json, IsLawful, get, put}
use near_sandbox_rs.Json.Laws.{get-insert}
use near_sandbox_rs.Net.{Net, Wire}
use near_sandbox_rs.Sandbox.Rpc.{Rpc}
use near_sandbox_rs.Sandbox.Rpc.Log.{Sent, send_request-Sent, send_request-Answered}
use near_sandbox_rs.Sandbox.Patch.StateRecord.{account}
use near_sandbox_rs.Sandbox.Patch.Builder.{PatchState}
use near_sandbox_rs.Sandbox.Patch.Fetch.{query, Answer, require}
use near_sandbox_rs.Sandbox.Patch.Fetch.Adds.{Requests, Resulted}
use near_sandbox_rs.Sandbox.Patch.Send.{
  Records, process_initial_balance, fetch_balance_account, records_to_send, send, patch_request,
  set_amount,
}
use near_sandbox_rs.Sandbox.Patch.Send.Amend.{
  has_account, Amended, here, later, Amends, amend_account-Amends,
}

module _ ⦃J : Json⦄ where
  -- A field that was there, overwritten and read back.
  get-put :
      IsLawful → (v x w : J.Value) (k : String) → get v k ≡ some w → get (put v k x) k ≡ some x
  get-put L v x w k h = elim (Option-cases (J.as_object v)) [
    | inl o ↦ absurd (ground arith)
    | inr (m, o) ↦ rw (o, put) (get-insert L m k k x ∙ rw (eq_refl k))
  ]

  require-eq-ok : (v w : J.Value) (k : String) → require v k ≡ ok w → get v k ≡ some w
  require-eq-ok v w k e = found (get v k) e
    where
      found : (o : Option J.Value) → ok_or o unexpected_response ≡ ok w → o ≡ some w
      found none e = cc
      found (some x) e = cc

  -- What is read back after the amount was set is what was set.
  overwritten :
      IsLawful
      → (response result amended found amount : J.Value) → require response "result" ≡ ok result
      → set_amount amount result ≡ ok amended
      → require (put response "result" amended) "result" ≡ ok found
      → set_amount amount result ≡ ok found
  overwritten L response result amended found amount e1 e2 e3 = cc (
    get-put L response amended result "result" (require-eq-ok response result "result" e1),
    require-eq-ok (put response "result" amended) found "result" e3,
  )

  Amended-has_account :
      {amount : J.Value} {rs rs' : Records} → Amended amount rs rs' → has_account rs ≡ true
  Amended-has_account (here e) = refl
  Amended-has_account (later e h) = rw (e, Amended-has_account h)

module _ ⦃J : Json⦄ ⦃N : Net J⦄ where
  -- The records that are sent: those of the patch, if no balance was asked for. Otherwise the
  -- first account record has its amount set, or, where there is none, an account that was fetched
  -- stands in front, with its amount set to the text of the balance.
  abbrev pub ToSend : PatchState J.Value → Option ℕ → Records → Type 0
  ToSend p none rs = rs ≡ p.state
  ToSend p (some b) rs =
      Amended (J.token_to_value b) p.state rs
      ⊎ ((found : J.Value) × (v : J.Value) × Resulted p.sandbox.rpc_addr
            (query "view_account" p.destination_account []) found
          × (has_account p.state ≡ false)
          × (set_amount (J.string (J.token_to_string b)) found ≡ ok v)
          × (rs ≡ account p.destination_account v ∷ p.state))

  abbrev account_request : PatchState J.Value → Requests
  account_request p = (p.sandbox.rpc_addr, query "view_account" p.destination_account []) ∷ []

  -- The request that is made before the patch.
  abbrev pub balance_requests : PatchState J.Value → Option ℕ → Requests
  balance_requests p none = []
  balance_requests p (some b) = if has_account p.state then [] else account_request p

  fetch_balance_account-ToSend :
      IsLawful
      → (p : PatchState J.Value) (b : ℕ) (log : Requests) → has_account p.state ≡ false
      → Triple
          (Sent log)
          (fetch_balance_account p b)
          (λ rs t. ToSend p (some b) rs × Sent (log ++ account_request p) t)
  unfolding fetch_balance_account
  fetch_balance_account-ToSend L p b log h =
      Triple-bind _ _ _ (send_request-Answered _ _ log) λ response. Triple-assume λ answered.
        Triple-bind _ _ _ (Triple-lift _) λ result. Triple-bind _ _ _ (Triple-lift _) λ amended.
          Triple-bind _ _ _ (Triple-lift _) λ found. Triple-pure _ λ s (((sent, e1), e2), e3). (
            inr (
              result,
              found,
              (response, answered, e1),
              h,
              overwritten L response result amended found _ e1 e2 e3,
              refl,
            ),
            sent,
          )

  -- The two branches of `process_initial_balance`.
  branch-ToSend :
      IsLawful
      → (p : PatchState J.Value) (b : ℕ) (log : Requests) (o : Option (Answer Records))
      → Amends (J.token_to_value b) p.state o
      → let m : Rpc Records = elim o [ none ↦ fetch_balance_account p b | some r ↦ lift r ] in
        Triple
          (Sent log)
          m
          (λ rs t. ToSend p (some b) rs × Sent (log ++ balance_requests p (some b)) t)
  branch-ToSend L p b log none h =
      subst
        (λ c.
          Triple (Sent log) (fetch_balance_account p b)
            (λ rs t. ToSend p (some b) rs × Sent (log ++ (if c then [] else account_request p)) t))
        (sym h) (fetch_balance_account-ToSend L p b log h)
  branch-ToSend L p b log (some (ok rs)) h =
      Triple-pure rs λ s sent. (inl h, sent ∙ rw (Amended-has_account h) (sym (append-nil log)))
  branch-ToSend L p b log (some (err e)) h = absurd h
  branch-ToSend L p b log (some (panic m)) h = record { at = λ s t rs sent e. absurd (cc e) }

  records_to_send-ToSend :
      IsLawful
      → (p : PatchState J.Value) (balance : Option ℕ) (log : Requests)
      → Triple
          (Sent log)
          (records_to_send p balance)
          (λ rs t. ToSend p balance rs × Sent (log ++ balance_requests p balance) t)
  unfolding process_initial_balance
  records_to_send-ToSend L p none log =
      Triple-pure p.state λ s sent. (refl, sent ∙ sym (append-nil log))
  records_to_send-ToSend L p (some b) log =
      branch-ToSend L p b log _ (amend_account-Amends (J.token_to_value b) p.state)

  abbrev pub patch_twice : PatchState J.Value → Records → Requests
  patch_twice p rs = let r : String × J.Value = (p.sandbox.rpc_addr, patch_request rs) in r ∷ r ∷ []

  -- What `send` leaves when it succeeds.
  abbrev pub SentPatch : PatchState J.Value → Requests → Unit {0} → Wire J N → Type 0
  SentPatch p log _ t =
      (rs : Records) × ToSend p p.initial_balance rs
      × Sent (log ++ (balance_requests p p.initial_balance ++ patch_twice p rs)) t

  pub send-SentPatch :
      IsLawful
      → (p : PatchState J.Value) (log : Requests) → Triple (Sent log) (send p) (SentPatch p log)
  unfolding send
  send-SentPatch L p log =
      Triple-bind _ _ _ (records_to_send-ToSend L p p.initial_balance log) λ rs.
        Triple-assume λ chosen. Triple-bind _ _ _ (send_request-Sent _ _ _) λ _.
          Triple-bind _ _ _ (send_request-Sent _ _ _)
            λ _. Triple-pure tt λ s sent. (rs, chosen, sent ∙ regroup log _ _ _)
    where
      regroup :
          (a b : Requests) (x y : String × J.Value)
          → ((a ++ b) ++ x ∷ []) ++ y ∷ [] ≡ a ++ (b ++ x ∷ y ∷ [])
      regroup a b x y = simp append_assoc

  -- A successful `send` has posted the same patch twice, at the end, with the records that the
  -- patch and its balance stand for; before that it has fetched the account exactly if a balance
  -- was asked for and the patch has no account record.
  pub send_twice :
      IsLawful
      → (p : PatchState J.Value) (s t : Wire J N) → send p s ≡ (ok tt, t)
      → (rs : Records) × ToSend p p.initial_balance rs
        × (t.sent ≡ s.sent ++ (balance_requests p p.initial_balance ++ patch_twice p rs))
  send_twice L p s t e = (send-SentPatch L p s.sent).at s t tt refl e
