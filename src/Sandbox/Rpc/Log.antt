-- ===== src/Sandbox/Rpc/Log.antt =====
-- The requests that a computation has sent, as conditions on the states before and after it.
use near_sandbox_rs.Base.{◌≡◌, ap, ◌∙◌, sym, String, List, [], ◌∷◌, ◌++◌, ok, Triple}
use near_sandbox_rs.Json.{Json}
use near_sandbox_rs.Net.{Net, Wire}
use near_sandbox_rs.Sandbox.Rpc.{send_request}
use near_sandbox_rs.Sandbox.Rpc.Laws.{sent-send_request}

module _ ⦃J : Json⦄ ⦃N : Net J⦄ where
  -- The record of requests reads `log`.
  abbrev pub Sent : List (String × J.Value) → Wire J N → Type 0
  Sent log s = s.sent ≡ log

  pub send_request-Sent :
      (url : String) (body : J.Value) (log : List (String × J.Value))
      → Triple (Sent log) (send_request url body) (λ _. Sent (log ++ (url, body) ∷ []))
  send_request-Sent url body log = record {
    at = λ s t a p e.
        ap (λ r. r.1.sent) (sym e)
        ∙ ap (λ (w : Wire J N). w.sent) (sent-send_request url body s)
        ∙ ap (λ (l : List (String × J.Value)). l ++ (url, body) ∷ []) p;
  }

  -- `answer` is what this request returned in some state.
  abbrev pub Answered : String → J.Value → J.Value → Type 0
  Answered url body answer =
      (s : Wire J N) × (t : Wire J N) × (send_request url body s ≡ (ok answer, t))

  pub send_request-Answered :
      (url : String) (body : J.Value) (log : List (String × J.Value))
      → Triple
          (Sent log)
          (send_request url body)
          (λ answer t. Answered url body answer × Sent (log ++ (url, body) ∷ []) t)
  send_request-Answered url body log = record {
    at = λ s t a p e. ((s, t, e), (send_request-Sent url body log).at s t a p e);
  }
