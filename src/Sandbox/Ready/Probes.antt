-- ===== src/Sandbox/Ready/Probes.antt =====
-- How often `wait_until_ready` asks.
use near_sandbox_rs.Base.{
  ℕ, zero, suc, ◌+◌, ◌<◌, ◌≡◌, refl, Bool, true, false, ◌⊎◌, inl, inr, String, List, [], ◌∷◌, ◌++◌,
  ok, err, arith, ap, ◌∙◌, append-nil, append_assoc, ◌>>=◌, Outcome, lift, pure, if◌then◌else◌, sym,
  subst, ◌*◌, ◌^◌, ◌<>◌,
}
use near_sandbox_rs.Base.Dict.{Dict}
use near_sandbox_rs.ErrorKind.{SandboxError, timeout_error, runtime_error}
use near_sandbox_rs.Sandbox.Ready.{
  Status, Waiting, Wait, wait_rounds, probe, tick, joined, timeout_secs, twice, wait_until_ready,
}

-- `k` requests without a response.
abbrev pub silent : ℕ → List (String ⊎ Bool)
silent zero = []
silent (suc k) = inr false ∷ silent k

module _ ⦃N : Status⦄ where
  -- What a list of requests has to be for each result: up to `n` of them.
  abbrev pub Explains : ℕ → Outcome SandboxError (Unit {0}) → List (String ⊎ Bool) → Type 0
  Explains n (ok _) more = (k : ℕ) × (k < n) × (more ≡ silent k ++ inr true ∷ [])
  Explains n (err timeout_error) more = more ≡ silent n
  Explains n (err (runtime_error e)) more = (k : ℕ) × (k < n) × (more ≡ silent k ++ inl e ∷ [])
  Explains n _ more = ⊥

  -- One request more, without a response, in front.
  Explains-silent :
      (n : ℕ) (o : Outcome SandboxError (Unit {0})) (more : List (String ⊎ Bool))
      → Explains n o more
      → Explains (suc n) o (inr false ∷ more)
  Explains-silent n (ok _) more (k, h, e) = (suc k, omega arith, ap (λ l. inr false ∷ l) e)
  Explains-silent n (err timeout_error) more e = ap (λ l. inr false ∷ l) e
  Explains-silent n (err (runtime_error x)) more (k, h, e) =
      (suc k, omega arith, ap (λ l. inr false ∷ l) e)
  Explains-silent n _ more h = absurd h

  -- What a run adds to the requests before it, and why it has its result.
  abbrev pub Explained :
      ℕ → List (String ⊎ Bool) → Outcome SandboxError (Unit {0}) × Waiting N.World → Type 0
  Explained n before r =
      (more : List (String ⊎ Bool)) × Explains n r.0 more × (r.1.probes ≡ before ++ more)

  round-Explained :
      (n : ℕ) (answer : String ⊎ Bool) (rest : Wait (Unit {0})) (s : Waiting N.World)
      (before : List (String ⊎ Bool))
      → s.probes ≡ before ++ answer ∷ []
      → ((t : Waiting N.World) → Explained n t.probes (rest t))
      → let round : Wait (Unit {0}) =
          lift (joined answer) >>= λ responded. if responded then pure tt else rest in
        Explained (suc n) before (round s)
  unfolding ◌>>=◌
  round-Explained n (inl e) rest s before h k = (inl e ∷ [], (0, omega arith, refl), h)
  round-Explained n (inr true) rest s before h k = (inr true ∷ [], (0, omega arith, refl), h)
  round-Explained n (inr false) rest s before h k =
      let (more, why, e) = k s in
      (
        inr false ∷ more,
        Explains-silent n (rest s).0 more why,
        e ∙ ap (λ l. l ++ more) h ∙ append_assoc before (inr false ∷ []) more,
      )

  wait_rounds-Explained :
      (n : ℕ) (url : String) (start k : ℕ) (s : Waiting N.World)
      → Explained n s.probes (wait_rounds n url start k s)
  unfolding wait_rounds ◌>>=◌
  wait_rounds-Explained zero url start k s = ([], refl, sym (append-nil s.probes))
  wait_rounds-Explained (suc n) url start k s =
      let t : Waiting N.World = (probe url (tick (start + 500 * k) s).1).1 in
      round-Explained n (N.get url (N.wait_until (start + 500 * k) s.world)).0
        (wait_rounds n url start (k + 1)) t s.probes refl
        (wait_rounds-Explained n url start (k + 1))

  -- Where the environment gives a number of seconds, or none and it is 10, and twice that number
  -- fits into 64 bits: `wait_until_ready` makes at most twice as many requests. It succeeds at the
  -- first response, fails at the first request that could not be run, and reports a timeout exactly
  -- when all of them stayed without a response; it has no other result.
  pub wait_until_ready_bounded :
      (checks : Bool) (env : Dict String) (rpc : String) (secs : ℕ) (s : Waiting N.World)
      → timeout_secs env ≡ ok secs
      → secs * 2 < 2 ^ 64
      → Explained (secs * 2) s.probes (wait_until_ready checks env rpc s)
  unfolding wait_until_ready twice ◌>>=◌
  wait_until_ready_bounded checks env rpc secs s known fits =
      let url = rpc <> "/status" in
      let run : wait_until_ready checks env rpc s ≡ wait_rounds (secs * 2) url (N.now s.world) 0 s =
        ground arith in
      subst (Explained (secs * 2) s.probes) (sym run)
        (wait_rounds-Explained (secs * 2) url (N.now s.world) 0 s)
