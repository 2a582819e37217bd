-- ===== src/Net.antt =====
-- What lies between the program and a node, as an interface: `ureq`, `tokio::task`, the clock.
use near_sandbox_rs.Base.{ℕ, ◌≤◌, ◌⊎◌, String, List}
use near_sandbox_rs.Json.{Json}

pub record Net (J : Json) : Type 1 where
  -- everything outside of the program, the node and the time among it
  pub World : Type 0
  pub Response : Type 0
  -- `spawn_blocking(… ureq::post(url).send_json(body))`: the text of the join error, or of the
  -- request's error, or a response
  pub post : String → J.Value → World → (String ⊎ (String ⊎ Response)) × World
  -- `response.into_body().read_json()`
  pub read_json : Response → String ⊎ J.Value
  -- milliseconds that a monotonic clock shows
  pub now : World → ℕ
  -- `interval.tick()` waits until its next deadline.
  pub wait_until : ℕ → World → World

-- A wait ends when its deadline has come, and not before.
pub record IsClock {J : Json} (N : Net J) : Type 0 where
  pub now-wait_until : (t : ℕ) (w : N.World) → t ≤ N.now (N.wait_until t w)

-- The state that requests go through. `sent` has every request so far, the oldest first.
pub record Wire (J : Json) (N : Net J) : Type 0 where
  pub world : N.World
  pub sent : List (String × J.Value)
