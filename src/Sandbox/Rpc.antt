-- ===== src/Sandbox/Rpc.antt =====
-- src/sandbox/mod.rs: `send_request`, `get_block_height` and `fast_forward`.
pub mod Laws
pub mod FastForward
pub mod Log
use near_sandbox_rs.Base.{
  ℕ, zero, suc, ◌+◌, ◌-◌, ◌*◌, ◌%◌, ◌^◌, ◌⊎◌, inl, inr, String, ◌<>◌, Option, none, some, List, [],
  ◌∷◌, ◌++◌, ltb, leb, if◌then◌else◌, Outcome, ok, err, panic, Exec, pure, fail, lift, attempt,
  ◌>>=◌, ◌>>◌, ok_or, unwrap_or, and_then, decimal,
}
use near_sandbox_rs.ErrorKind.{
  SandboxRpcError, request_error, unexpected_response, sandbox_rpc_error,
}
use near_sandbox_rs.Json.{Json, get, obj}
use near_sandbox_rs.Net.{Net, Wire}
use near_sandbox_rs.Sandbox.Handle.{Sandbox}

module _ ⦃J : Json⦄ where
  -- `{"jsonrpc": "2.0", "id": "0", "method": …}` and the fields after it
  abbrev pub request : String → List (String × J.Value) → J.Value
  request name more =
      obj (("jsonrpc", J.string "2.0") ∷ ("id", J.string "0") ∷ ("method", J.string name) ∷ more)

  -- A body with a field `error` is an error; any other is the answer.
  unfoldable pub check_error : J.Value → Outcome SandboxRpcError J.Value
  check_error body = elim (get body "error") [
    | none ↦ ok body
    | some error ↦ err (sandbox_rpc_error (J.to_string error))
  ]

  -- `result.sync_info.latest_block_height`, if it is there and is a number
  unfoldable pub latest_block_height : J.Value → Option ℕ
  latest_block_height response =
      and_then (get response "result") λ r.
        and_then (get r "sync_info") λ s. and_then (get s "latest_block_height") λ h. J.as_u64 h

module _ ⦃J : Json⦄ ⦃N : Net J⦄ where
  abbrev pub Rpc : Type 0 → Type 0
  Rpc = Exec (Wire J N) SandboxRpcError

  -- The POST itself: the world moves on, and the request is on record.
  abbrev pub transmit : String → J.Value → Rpc (String ⊎ (String ⊎ N.Response))
  transmit url body s =
      let r = N.post url body s.world in
      (ok r.0, record { world = r.1; sent = s.sent ++ (url, body) ∷ [] })

  -- the two `?` on the result of the blocking task
  abbrev pub response_of : String ⊎ (String ⊎ N.Response) → Outcome SandboxRpcError N.Response
  response_of (inl join) = err (request_error join)
  response_of (inr (inl e)) = err (request_error e)
  response_of (inr (inr response)) = ok response

  abbrev pub body_of : String ⊎ J.Value → Outcome SandboxRpcError J.Value
  body_of (inl e) = err (request_error e)
  body_of (inr body) = ok body

  unfoldable pub send_request : String → J.Value → Rpc J.Value
  unfolding check_error
  send_request url body = do
    r ← transmit url body
    response ← lift (response_of r)
    answer ← lift (body_of (N.read_json response))
    lift (check_error answer)

  unfoldable pub get_block_height : Sandbox → Rpc ℕ
  get_block_height sb = do
    response ← send_request sb.rpc_addr (request "status" [])
    lift (ok_or (latest_block_height response) unexpected_response)

  -- `+` on `u64`
  unfoldable pub add_u64 : ℕ → ℕ → Outcome SandboxRpcError ℕ
  add_u64 a b =
      if ltb (a + b) (2 ^ 64)
      then ok (a + b)
      else if J.overflow_checks
      then panic "attempt to add with overflow"
      else ok ((a + b) % 2 ^ 64)

  -- `interval.tick()` for the deadline `t`
  abbrev pub tick : ℕ → Rpc (Unit {0})
  tick t s = (ok tt, record s { world = N.wait_until t s.world })

  abbrev pub clock : Rpc ℕ
  clock s = (ok (N.now s.world), s)

  timeout_failure : Sandbox → ℕ → Rpc (Option (Unit {0}))
  timeout_failure sb target = do
    current ← attempt (get_block_height sb)
    fail (
        sandbox_rpc_error (
          "fast_forward timeout: expected height "
          <> decimal target
          <> " but current height is "
          <> decimal (unwrap_or current 0)))

  -- One poll after the tick: whether the height has been reached.
  unfoldable pub reached : Sandbox → ℕ → Rpc (Option ℕ)
  reached sb target = do
    height ← attempt (get_block_height sb)
    pure (and_then height λ h. if leb target h then some h else none)

  -- The loop, from its `k`-th tick on; the ticks count from the same reading of the clock as the
  -- timeout. `none`: the fuel is used up.
  unfoldable pub poll : ℕ → Sandbox → ℕ → ℕ → ℕ → Rpc (Option (Unit {0}))
  unfolding timeout_failure
  poll zero sb target start k = pure none
  poll (suc fuel) sb target start k = do
    tick (start + 100 * k)
    t ← clock
    if ltb 30000 (t - start) then timeout_failure sb target else do
      found ← reached sb target
      elim found [ some h ↦ pure (some tt) | none ↦ poll fuel sb target start (k + 1) ]

  -- 302 rounds: the last of them comes after 30100 milliseconds.
  abbrev pub rounds : ℕ
  rounds = 302

  unfoldable pub fast_forward : Sandbox → ℕ → Rpc (Option (Unit {0}))
  unfolding add_u64
  fast_forward sb blocks = do
    initial ← get_block_height sb
    target ← lift (add_u64 initial blocks)
    send_request sb.rpc_addr (
        request "sandbox_fast_forward"
          (("params", obj (("delta_height", J.number blocks) ∷ [])) ∷ []))
    start ← clock
    poll rounds sb target start 0
