-- ===== src/Sandbox/Rpc/Laws.antt =====
-- `send_request`
use near_sandbox_rs.Base.{◌≡◌, String, none, ◌∷◌, [], ◌++◌, arith, ok, ◌>>=◌}
use near_sandbox_rs.Json.{Json, get}
use near_sandbox_rs.Net.{Net, Wire}
use near_sandbox_rs.Sandbox.Rpc.{send_request}

module _ ⦃J : Json⦄ ⦃N : Net J⦄ where
  -- Whatever comes back, one request more is on record, with the world that the POST left.
  pub sent-send_request :
      (url : String) (body : J.Value) (s : Wire J N)
      → (send_request url body s).1
        ≡ record { world = (N.post url body s.world).1; sent = s.sent ++ (url, body) ∷ [] }
  unfolding send_request ◌>>=◌
  sent-send_request url body s = ground arith

  -- An answer that is returned has no field `error`.
  pub get-send_request :
      (url : String) (body answer : J.Value) (s : Wire J N)
      → (send_request url body s).0 ≡ ok answer
      → get answer "error" ≡ none
  unfolding send_request ◌>>=◌
  get-send_request url body answer s h = ground arith
