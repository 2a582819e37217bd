-- ===== src/Sandbox/Startup/History.antt =====
-- What attempts to start a node leave on record.
use near_sandbox_rs.Base.{
  ℕ, suc, ◌<◌, subst, ◌≡◌, String, Option, List, [], ◌∷◌, ◌++◌, append_assoc, Ends, Ends-bind,
}
use near_sandbox_rs.ErrorKind.{SandboxError, shutdown_error, sandbox_startup_retries_exhausted}
use near_sandbox_rs.Json.{Json}
use near_sandbox_rs.Runner.Host.{Host, Machine, Act, Event, recorded, spawned, killed, waited}
use near_sandbox_rs.Runner.Rules.{IsOrdinary, IsExpected, Log, IsLenient}
use near_sandbox_rs.Sandbox.Startup.{Started, stop}
use near_sandbox_rs.Sandbox.Startup.Launched.{recorded-Log, Launched}

-- What is on record after `n` attempts that have failed: each has started a process, killed it and
-- waited for its end before the next began.
pub data FailedAttempts {C : Type 0} (l : List (Event C)) : ℕ → List (Event C) → Type 0 where
  no_attempt : FailedAttempts l 0 l
  one_more :
      {n : ℕ} {es : List (Event C)} (c : C)
      → FailedAttempts l n es
      → FailedAttempts l (suc n) (es ++ spawned c ∷ killed c ∷ waited c ∷ [])

module _ ⦃J : Json⦄ ⦃H : Host J⦄ (l : List (Event H.Child)) (max : ℕ) where
  -- Fewer than `max` attempts have failed, and the process of the handle, if there is one, is the
  -- last that was started; no other is alive.
  pub record IsSettled (r : Option Started) (t : Machine H) : Type 0 where
    pub failed : ℕ
    pub before : List (Event H.Child)
    pub history : FailedAttempts l failed before
    pub bounded : failed < max
    pub running : Launched before r t

  -- All of the `max` attempts have failed.
  abbrev pub Exhausts : SandboxError → Machine H → Type 0
  Exhausts e t =
      (m : ℕ) → e ≡ sandbox_startup_retries_exhausted m → (m ≡ max) × FailedAttempts l max t.events

  abbrev pub NoSurprise : String → Machine H → Type 0
  NoSurprise p t = IsExpected p

  pub lenient : IsLenient Exhausts NoSurprise
  lenient = record {
    ordinary = λ e t h m q. elim (subst IsOrdinary q h) [ ];
    expected = λ p t h. h;
  }

  waited-Log :
      (es : List (Event H.Child)) (c : H.Child)
      → Ends
          (Log ((es ++ spawned c ∷ []) ++ killed c ∷ []))
          (recorded (λ _. waited c) shutdown_error (H.wait c))
          (λ _. Log (es ++ spawned c ∷ killed c ∷ waited c ∷ []))
          Exhausts
          NoSurprise
  waited-Log es c =
      let m : Act (Unit {0}) = recorded (λ _. waited c) shutdown_error (H.wait c) in
      let begun : List (Event H.Child) = (es ++ spawned c ∷ []) ++ killed c ∷ [] in
      subst (λ k. Ends (Log begun) m (λ _. Log k) Exhausts NoSurprise) {x = begun ++ waited c ∷ []}
        {y = es ++ spawned c ∷ killed c ∷ waited c ∷ []} (simp append_assoc)
        (recorded-Log lenient begun (λ _. waited c) shutdown_error (H.wait c) λ x. tt)

  pub stop-Log :
      (es : List (Event H.Child)) (c : H.Child)
      → Ends
          (Log (es ++ spawned c ∷ []))
          (stop c)
          (λ _. Log (es ++ spawned c ∷ killed c ∷ waited c ∷ []))
          Exhausts
          NoSurprise
  unfolding stop
  stop-Log es c =
      Ends-bind (λ _. Log ((es ++ spawned c ∷ []) ++ killed c ∷ [])) _ _
        (recorded-Log lenient _ (λ _. killed c) shutdown_error (H.kill c) λ x. tt)
        λ _. waited-Log es c
