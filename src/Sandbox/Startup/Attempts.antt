-- ===== src/Sandbox/Startup/Attempts.antt =====
-- The attempts to start a node: the processes that they start, stop and leave.
use near_sandbox_rs.Base.{
  ℕ, zero, suc, ◌+◌, ◌<◌, ltb, refl, ◌≡◌, String, Option, none, some, List, [], ◌∷◌, ◌++◌, Ends,
  Ended, Ends-bind, Ends-weaken, ◌>>=◌, arith,
}
use near_sandbox_rs.ErrorKind.{SandboxError, sandbox_startup_retries_exhausted}
use near_sandbox_rs.Json.{Json}
use near_sandbox_rs.Config.Account.{SandboxConfig}
use near_sandbox_rs.Runner.Host.{Host, Machine, Act, Event, spawned}
use near_sandbox_rs.Runner.Rules.{Log}
use near_sandbox_rs.Sandbox.Startup.{Started, on_some, settle, attempts, readiness}
use near_sandbox_rs.Sandbox.Startup.Launched.{
  launch_attempt-Launched, readiness-Answered, Launched, Answered,
}
use near_sandbox_rs.Sandbox.Startup.History.{
  FailedAttempts, no_attempt, one_more, IsSettled, Exhausts, NoSurprise, lenient,
}
use near_sandbox_rs.Sandbox.Startup.Settle.{settle-Ends}

module _ ⦃J : Json⦄ ⦃H : Host J⦄ (l : List (Event H.Child)) (max : ℕ) where
  started-Ends :
      (n left : ℕ) (es : List (Event H.Child)) (o : Option Started) (again : Act (Option Started))
      → FailedAttempts l n es
      → suc (n + left) ≡ max
      → ((fs : List (Event H.Child))
          → FailedAttempts l (suc n) fs
          → 0 < left
          → Ends (Log fs) again (IsSettled l max) (Exhausts l max) (NoSurprise l max))
      → Ends
          (Launched es o)
          (on_some o λ r. do ready ← readiness r.rpc_addr; settle max left r ready again)
          (IsSettled l max)
          (Exhausts l max)
          (NoSurprise l max)
  started-Ends n left es none again history b k = record {
    at = λ s p. record {
      failed = n;
      before = es;
      history = history;
      bounded = omega arith;
      running = p;
    };
  }
  started-Ends n left es (some r) again history b k =
      Ends-bind (Answered (es ++ spawned r.process ∷ [])) _ _
        (readiness-Answered (lenient l max) (es ++ spawned r.process ∷ []) r.rpc_addr)
        λ ready.
          settle-Ends l max n es history left r ready again b (k _ (one_more r.process history))

  -- The attempts after `n` failed ones.
  remaining-Ends :
      (fuel : ℕ) (config : SandboxConfig J.Value) (version home : String) (left n : ℕ)
      (es : List (Event H.Child))
      → FailedAttempts l n es
      → n + left ≡ max
      → 0 < left
      → Ends
          (Log es)
          (attempts fuel config version home max left)
          (IsSettled l max)
          (Exhausts l max)
          (NoSurprise l max)
  unfolding attempts
  remaining-Ends fuel config version home zero n es history b h =
      let never : ⊥ = omega arith in elim never [ ]
  remaining-Ends fuel config version home (suc left) n es history b h =
      Ends-bind (Launched es) _ _
        (launch_attempt-Launched (lenient l max) es fuel config version home (ltb 0 left))
        λ launched.
          started-Ends n left es launched (attempts fuel config version home max left) history
            (omega arith)
            λ fs more. remaining-Ends fuel config version home left (suc n) fs more (omega arith)

  pub attempts-Ends :
      (fuel : ℕ) (config : SandboxConfig J.Value) (version home : String)
      → 0 < max
      → Ends
          (Log l)
          (attempts fuel config version home max max)
          (IsSettled l max)
          (Exhausts l max)
          (NoSurprise l max)
  attempts-Ends fuel config version home h =
      remaining-Ends fuel config version home max 0 l no_attempt (omega arith) h

  -- All of the attempts have failed, if this is what the error says.
  abbrev pub ExhaustedBy : SandboxError → Machine H → Type 0
  ExhaustedBy (sandbox_startup_retries_exhausted m) t = (m ≡ max) × FailedAttempts l max t.events
  ExhaustedBy _ t = Unit {0}

  exhausted_by : (e : SandboxError) (t : Machine H) → (Exhausts l max) e t → ExhaustedBy e t
  exhausted_by (sandbox_startup_retries_exhausted m) t h = h m refl
  exhausted_by _ t h = tt

  -- For a limit above 0, the attempts add to the record of processes what the relation FailedAttempts
  -- allows: as many failed attempts as the limit if they report that it is exhausted, and otherwise, if
  -- they return, fewer, and after them the process of the handle, if there is one. A panic never is the
  -- one that marks the end of the loop as unreachable.
  pub attempts_outcomes :
      (fuel : ℕ) (config : SandboxConfig J.Value) (version home : String) (s : Machine H)
      → 0 < max
      → s.events ≡ l
      → let r = attempts fuel config version home max max s in
        Ended (IsSettled l max) ExhaustedBy (NoSurprise l max) r.0 r.1
  attempts_outcomes fuel config version home s h p =
      (Ends-weaken _ (λ o t q. q) exhausted_by (λ m t q. q)
          (attempts-Ends fuel config version home h)).at
        s p
