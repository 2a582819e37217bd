-- ===== src/Runner/Rules.antt =====
-- Rules for the calls that leave the record of child processes alone, and fail or panic in one of
-- the ordinary ways.
use near_sandbox_rs.Base.{
  false, ◌≡◌, ◌⊎◌, inl, inr, String, List, str_eq, Outcome, ok, err, panic, Exec, Any, Ends, Ended,
  lift,
}
use near_sandbox_rs.ErrorKind.{SandboxError, sandbox_startup_retries_exhausted}
use near_sandbox_rs.Json.{Json}
use near_sandbox_rs.Sandbox.Ready.{Waiting}
use near_sandbox_rs.Runner.Host.{
  Host, Machine, Act, Event, Call, call, exists, var, set_var, on_world, on_waiting, or_fail,
  or_panic,
}
use near_sandbox_rs.Runner.Install.{call_expect}

-- What `unreachable!` after the loop says.
abbrev pub unreachable : String
unreachable =
    "internal error: entered unreachable code: We return Sandbox instance or error via previous loop. loop is ensured to have at least one run"

-- An error other than that all attempts to start have failed, and a panic other than `unreachable!`.
abbrev pub IsOrdinary : SandboxError → Type 0
IsOrdinary (sandbox_startup_retries_exhausted n) = ⊥
IsOrdinary _ = Unit {0}

abbrev pub IsExpected : String → Type 0
IsExpected message = str_eq message unreachable ≡ false

-- A computation on any state that ends in such ways.
abbrev pub IsTame : {S A : Type 0} → Exec S SandboxError A → Type 0
IsTame m = Ends Any m (λ _. Any) (λ e _. IsOrdinary e) (λ p _. IsExpected p)

module _ ⦃J : Json⦄ ⦃H : Host J⦄ where
  -- The record of children reads `l`.
  abbrev pub Log : List (Event H.Child) → Machine H → Type 0
  Log l s = s.events ≡ l

  -- Conditions that ordinary errors and panics meet.
  pub record IsLenient (R : SandboxError → Machine H → Type 0) (U : String → Machine H → Type 0)
      : Type 0 where
    pub ordinary : (e : SandboxError) (t : Machine H) → IsOrdinary e → R e t
    pub expected : (m : String) (t : Machine H) → IsExpected m → U m t

module _ ⦃J : Json⦄ ⦃H : Host J⦄ {R : SandboxError → Machine H → Type 0}
    {U : String → Machine H → Type 0} (L : IsLenient R U) (l : List (Event H.Child)) where
  -- Such a computation leaves the record alone.
  abbrev pub Quiet : {A : Type 0} → Act A → Type 0
  Quiet m = Ends (Log l) m (λ _. Log l) R U

  outcome-Ended :
      {A W : Type 0} (r : Outcome SandboxError A) (w : W) (t : Machine H)
      → Ended (λ _. Any) (λ e _. IsOrdinary e) (λ p _. IsExpected p) r w
      → Log l t
      → Ended (λ _. Log l) R U r t
  outcome-Ended (ok a) w t h p = p
  outcome-Ended (err e) w t h p = L.ordinary e t h
  outcome-Ended (panic m) w t h p = L.expected m t h

  pub or_fail-Ended :
      {A : Type 0} (error : String → SandboxError) (r : String ⊎ A) (t : Machine H)
      → ((x : String) → IsOrdinary (error x))
      → Log l t
      → Ended (λ _. Log l) R U (or_fail error r) t
  or_fail-Ended error (inl e) t h p = L.ordinary (error e) t (h e)
  or_fail-Ended error (inr a) t h p = p

  pub lift-or_fail-Quiet :
      {A : Type 0} (error : String → SandboxError) (r : String ⊎ A)
      → ((x : String) → IsOrdinary (error x))
      → Quiet (lift (or_fail error r))
  lift-or_fail-Quiet error r h = record { at = λ s p. or_fail-Ended error r s h p }

  pub call-Quiet :
      {A : Type 0} (error : String → SandboxError) (c : Call H.os.World A)
      → ((x : String) → IsOrdinary (error x))
      → Quiet (call error c)
  call-Quiet error c h = record { at = λ s p. or_fail-Ended error (c s.world).0 _ h p }

  or_panic-Ended :
      {A : Type 0} (message : String) (r : String ⊎ A) (t : Machine H)
      → IsExpected message
      → Log l t
      → Ended (λ _. Log l) R U (or_panic message r) t
  or_panic-Ended message (inl e) t h p = L.expected message t h
  or_panic-Ended message (inr a) t h p = p

  pub call_expect-Quiet :
      {A : Type 0} (message : String) (c : Call H.os.World A)
      → IsExpected message
      → Quiet (call_expect message c)
  call_expect-Quiet message c h = record { at = λ s p. or_panic-Ended message (c s.world).0 _ h p }

  pub exists-Quiet : (path : String) → Quiet (exists path)
  exists-Quiet path = record { at = λ s p. p }

  pub var-Quiet : (name : String) → Quiet (var name)
  var-Quiet name = record { at = λ s p. p }

  pub set_var-Quiet : (name value : String) → Quiet (set_var name value)
  set_var-Quiet name value = record { at = λ s p. p }

  pub on_world-Quiet :
      {A : Type 0} (m : Exec H.os.World SandboxError A) → IsTame m → Quiet (on_world m)
  on_world-Quiet m h = record {
    at = λ s p. outcome-Ended (m s.world).0 (m s.world).1 _ (h.at s.world tt) p;
  }

  pub on_waiting-Quiet :
      {A : Type 0} (m : Exec (Waiting H.os.World) SandboxError A) → IsTame m → Quiet (on_waiting m)
  on_waiting-Quiet m h = record {
    at = λ s p.
        let w : Waiting H.os.World = record { world = s.world; probes = s.probes } in
        outcome-Ended (m w).0 (m w).1 _ (h.at w tt) p;
  }
