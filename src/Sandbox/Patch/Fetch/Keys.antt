-- ===== src/Sandbox/Patch/Fetch/Keys.antt =====
-- The loop that adds access keys, and the request that feeds it.
use near_sandbox_rs.Base.{
  refl, ap, ◌∙◌, sym, String, List, [], ◌∷◌, ◌++◌, append-nil, append_assoc, Triple, Triple-bind,
  Triple-lift, Triple-pure, Triple-assume,
}
use near_sandbox_rs.Json.{Json}
use near_sandbox_rs.Net.{Net}
use near_sandbox_rs.Sandbox.Rpc.Log.{Sent, send_request-Answered}
use near_sandbox_rs.Sandbox.Patch.Builder
use near_sandbox_rs.Sandbox.Patch.Builder.{PatchState}
use near_sandbox_rs.Sandbox.Patch.Fetch.{fetch_access_keys, add_access_keys, query}
use near_sandbox_rs.Sandbox.Patch.Fetch.Adds.{Requests, Adds, AreKeys, ForKeys}

module _ ⦃J : Json⦄ ⦃N : Net J⦄ where
  add_access_keys-Adds :
      (id rpc : String) (log : Requests) (ks : List J.Value) (p : PatchState J.Value)
      → Triple
          (Sent log)
          (add_access_keys ks p)
          (Adds (ForKeys id rpc p.destination_account ks) log p)
  unfolding add_access_keys Builder.access_key
  add_access_keys-Adds id rpc log [] p =
      Triple-pure p
        λ s sent. ([], ap (λ x. record p { state = x }) (sym (append-nil p.state)), refl, sent)
  add_access_keys-Adds id rpc log (k ∷ ks) p = Triple-bind _ _ _ (Triple-lift _) λ name.
      Triple-bind _ _ _ (Triple-lift _) λ key. record {
        at = λ s t q ((sent, e1), e2) ran.
            let (rs, e, keys, sent') = (add_access_keys-Adds id rpc log ks _).at s t q sent ran in
            (
              _ ∷ rs,
              e ∙ ap (λ x. record p { state = x }) (append_assoc p.state (_ ∷ []) rs),
              (name, key, rs, e1, e2, refl, keys),
              sent',
            );
      }

  pub fetch_access_keys-Adds :
      (log : Requests) (p : PatchState J.Value) (id rpc : String)
      → Triple (Sent log) (fetch_access_keys p id rpc) (
          Adds
            (AreKeys id rpc p.destination_account)
            (log ++ (rpc, query "view_access_key_list" id []) ∷ [])
            p)
  unfolding fetch_access_keys
  fetch_access_keys-Adds log p id rpc =
      Triple-bind _ _ _ (send_request-Answered rpc _ log) λ response. Triple-assume λ answered.
        Triple-bind _ _ _ (Triple-lift _) λ result. Triple-bind _ _ _ (Triple-lift _) λ keys.
          record {
            at = λ s t q ((sent, e1), e2) ran.
                let (rs, e, found, sent') = (add_access_keys-Adds id rpc _ _ p).at s t q sent ran in
                (rs, e, (result, keys, (response, answered, e1), e2, found), sent');
          }
