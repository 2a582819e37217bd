-- ===== src/Sandbox/Patch/Fetch/Choice.antt =====
-- `fetch_from_account`: what is fetched is what was chosen.
use near_sandbox_rs.Base.{
  ◌≡◌, refl, ap, ◌∙◌, sym, String, Bool, true, false, List, [], ◌∷◌, ◌++◌, ok, ◌>>=◌, append-nil,
  append_assoc, Triple, Triple-bind, Triple-pure, Triple-weaken,
}
use near_sandbox_rs.Json.{Json}
use near_sandbox_rs.Net.{Net, Wire}
use near_sandbox_rs.Sandbox.Rpc.{Rpc}
use near_sandbox_rs.Sandbox.Rpc.Log.{Sent}
use near_sandbox_rs.Sandbox.Patch.FetchData.{FetchData}
use near_sandbox_rs.Sandbox.Patch.Builder.{PatchState}
use near_sandbox_rs.Sandbox.Patch.Fetch.{
  fetch_if, fetch_from_account, fetch_account, fetch_code, fetch_storage, fetch_access_keys, query,
}
use near_sandbox_rs.Sandbox.Patch.Fetch.Adds.{
  Records, Requests, Adds, Adds-open, AreKeys, AreEntries, IsAccount, IsCode, Portion, extend,
  storage_query, fetch_account-Adds, fetch_code-Adds, fetch_storage-Adds,
}
use near_sandbox_rs.Sandbox.Patch.Fetch.Keys.{fetch_access_keys-Adds}

-- A request that is made if it was chosen.
abbrev pub if_chosen {ℓ} : {A : Type ℓ} → Bool → A → List A
if_chosen true a = a ∷ []
if_chosen false a = []

-- The records that a choice stands for, in the order in which they are fetched: those that come of
-- the answers about the account `id` at the node `rpc`, for the account `dest`.
pub record Fetched ⦃J : Json⦄ ⦃N : Net J⦄ (id rpc : String) (d : FetchData) (dest : String)
    (rs : Records) : Type 0 where
  pub account : Records
  pub code : Records
  pub entries : Records
  pub keys : Records
  pub parts : rs ≡ account ++ (code ++ (entries ++ keys))
  pub has_account : Portion d.fetch_account (IsAccount id rpc dest) account
  pub has_code : Portion d.fetch_code (IsCode id rpc dest) code
  pub has_entries : Portion d.fetch_storage (AreEntries id rpc dest) entries
  pub has_keys : Portion d.fetch_access_keys (AreKeys id rpc dest) keys

module _ ⦃J : Json⦄ ⦃N : Net J⦄ (id rpc : String) where
  fetch_if-Adds :
      (flag : Bool) (fetch : PatchState J.Value → String → String → Rpc (PatchState J.Value))
      (P : Records → Type 0) (body : J.Value) (log : Requests) (p : PatchState J.Value)
      → Triple (Sent log) (fetch p id rpc) (Adds P (log ++ (rpc, body) ∷ []) p)
      → Triple
          (Sent log)
          (fetch_if flag fetch p id rpc)
          (Adds (Portion flag P) (log ++ if_chosen flag (rpc, body)) p)
  fetch_if-Adds true fetch P body log p h = h
  fetch_if-Adds false fetch P body log p h = Triple-pure p λ s sent. (
    [],
    ap (λ x. record p { state = x }) (sym (append-nil p.state)),
    refl,
    sent ∙ sym (append-nil log),
  )

  -- The requests that a choice stands for.
  abbrev pub requests : FetchData → Requests
  requests d =
      if_chosen d.fetch_account (rpc, query "view_account" id [])
      ++ (if_chosen d.fetch_code (rpc, query "view_code" id [])
          ++ (if_chosen d.fetch_storage (rpc, storage_query id)
              ++ if_chosen d.fetch_access_keys (rpc, query "view_access_key_list" id [])))

  -- Records of one kind, and then others.
  abbrev Seq : (Records → Type 0) → (Records → Type 0) → Records → Type 0
  Seq P Q rs = (a : Records) × (b : Records) × (rs ≡ a ++ b) × P a × Q b

  stage :
      (flag : Bool) (fetch : PatchState J.Value → String → String → Rpc (PatchState J.Value))
      (rest : PatchState J.Value → Rpc (PatchState J.Value)) (P Q : Records → Type 0)
      (body : J.Value) (log more : Requests) (p : PatchState J.Value)
      → Triple (Sent log) (fetch p id rpc) (Adds P (log ++ (rpc, body) ∷ []) p)
      → let log' : Requests = log ++ if_chosen flag (rpc, body) in
        ((a : Records)
          → Triple (Sent log') (rest (extend p a)) (Adds Q (log' ++ more) (extend p a)))
        → Triple
            (Sent log)
            (fetch_if flag fetch p id rpc >>= rest)
            (Adds (Seq (Portion flag P) Q) (log ++ (if_chosen flag (rpc, body) ++ more)) p)
  stage flag fetch rest P Q body log more p h k =
      Triple-bind _ _ _ (fetch_if-Adds flag fetch P body log p h) λ p1.
        Adds-open _ p p1 rest λ a ha. Triple-weaken _ (k a) λ q t (b, e, hb, sent). (
          a ++ b,
          e ∙ ap (λ x. record p { state = x }) (append_assoc p.state a b),
          (a, b, refl, ha, hb),
          sent ∙ append_assoc log _ more,
        )

  abbrev then_keys : FetchData → PatchState J.Value → Rpc (PatchState J.Value)
  then_keys d p = fetch_if d.fetch_access_keys fetch_access_keys p id rpc

  abbrev then_storage : FetchData → PatchState J.Value → Rpc (PatchState J.Value)
  then_storage d p = fetch_if d.fetch_storage fetch_storage p id rpc >>= then_keys d

  abbrev then_code : FetchData → PatchState J.Value → Rpc (PatchState J.Value)
  then_code d p = fetch_if d.fetch_code fetch_code p id rpc >>= then_storage d

  fetch_from_account-Seq :
      (p : PatchState J.Value) (d : FetchData) (log : Requests)
      → let dest = p.destination_account in
        Triple (Sent log) (fetch_from_account p id rpc d) (
          Adds
            (Seq (Portion d.fetch_account (IsAccount id rpc dest)) (
              Seq (Portion d.fetch_code (IsCode id rpc dest)) (
                Seq
                  (Portion d.fetch_storage (AreEntries id rpc dest))
                  (Portion d.fetch_access_keys (AreKeys id rpc dest)))))
            (log ++ requests d)
            p)
  unfolding fetch_from_account
  fetch_from_account-Seq p d log =
      stage d.fetch_account fetch_account (then_code d) _ _ _ log _ p
        (fetch_account-Adds p id rpc log)
        λ a.
          stage d.fetch_code fetch_code (then_storage d) _ _ _ _ _ _ (fetch_code-Adds _ id rpc _)
            λ c.
              stage d.fetch_storage fetch_storage (then_keys d) _ _ _ _ _ _
                (fetch_storage-Adds _ id rpc _)
                λ e.
                  fetch_if-Adds d.fetch_access_keys fetch_access_keys _ _ _ _
                    (fetch_access_keys-Adds _ _ id rpc)

  pub fetch_from_account-Fetched :
      (p : PatchState J.Value) (d : FetchData) (log : Requests)
      → Triple
          (Sent log)
          (fetch_from_account p id rpc d)
          (Adds (Fetched id rpc d p.destination_account) (log ++ requests d) p)
  fetch_from_account-Fetched p d log =
      Triple-weaken _ (fetch_from_account-Seq p d log)
        λ q t (rs, e, (a, _, ea, ha, (c, _, ec, hc, (n, k, en, hn, hk))), sent). (
          rs,
          e,
          record {
            account = a;
            code = c;
            entries = n;
            keys = k;
            parts = ea ∙ ap (λ x. a ++ x) (ec ∙ ap (λ x. c ++ x) en);
            has_account = ha;
            has_code = hc;
            has_entries = hn;
            has_keys = hk;
          },
          sent,
        )

  -- A successful `fetch_from_account` has made the chosen requests, in the order account, code,
  -- storage, access keys, and no other; and it has changed the patch only by appending records for
  -- the patch's destination account, which are those that come of the answers: the account, the
  -- code, the storage entries that have a key and a value, all access keys, each if chosen.
  pub fetch_from_account_exact :
      (p q : PatchState J.Value) (d : FetchData) (s t : Wire J N)
      → fetch_from_account p id rpc d s ≡ (ok q, t)
      → (rs : Records) × (q ≡ extend p rs)
        × Fetched id rpc d p.destination_account rs
        × (t.sent ≡ s.sent ++ requests d)
  fetch_from_account_exact p q d s t e = (fetch_from_account-Fetched p d s.sent).at s t q refl e
