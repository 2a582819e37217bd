-- ===== src/Sandbox/Ready.antt =====
-- src/sandbox/mod.rs: `wait_until_ready`, which asks a node for its status until it answers.
pub mod Probes
use near_sandbox_rs.Base.{
  ℕ, zero, suc, ◌+◌, ◌*◌, ◌^◌, ◌%◌, Bool, true, false, ◌⊎◌, inl, inr, String, ◌<>◌, Option, none,
  some, List, [], ◌∷◌, ◌++◌, ltb, if◌then◌else◌, Outcome, ok, err, panic, Exec, pure, fail, lift,
  ◌>>=◌, ◌>>◌, parse_unsigned,
}
use near_sandbox_rs.Base.Dict
use near_sandbox_rs.Base.Dict.{Dict}
use near_sandbox_rs.ErrorKind.{SandboxError, timeout_error, runtime_error}

-- What lies outside: the interval timer, and the GET that `spawn_blocking` runs, with the text of
-- the join error or whether a response came.
pub record Status : Type 1 where
  pub World : Type 0
  pub now : World → ℕ
  pub wait_until : ℕ → World → World
  pub get : String → World → (String ⊎ Bool) × World

-- The state, with what each GET so far has come to, the oldest first.
pub record Waiting (W : Type 0) : Type 0 where
  pub world : W
  pub probes : List (String ⊎ Bool)

-- `map_or(10, |secs| secs.parse().expect(…))`
unfoldable pub timeout_secs : Dict String → Outcome SandboxError ℕ
timeout_secs env = elim (Dict.at_key env "NEAR_RPC_TIMEOUT_SECS") [
  | none ↦ ok 10
  | some secs ↦ elim (parse_unsigned (2 ^ 64) secs) [
    | none ↦ panic "Failed to parse NEAR_RPC_TIMEOUT_SECS"
    | some n ↦ ok n
  ]
]

-- `timeout_secs * 2` on `u64`; the flag says whether overflow panics.
unfoldable pub twice : Bool → ℕ → Outcome SandboxError ℕ
twice checks n =
    if ltb (n * 2) (2 ^ 64)
    then ok (n * 2)
    else if checks
    then panic "attempt to multiply with overflow"
    else ok (n * 2 % 2 ^ 64)

module _ ⦃N : Status⦄ where
  abbrev pub Wait : Type 0 → Type 0
  Wait = Exec (Waiting N.World) SandboxError

  abbrev pub tick : ℕ → Wait (Unit {0})
  tick t s = (ok tt, record s { world = N.wait_until t s.world })

  abbrev pub clock : Wait ℕ
  clock s = (ok (N.now s.world), s)

  abbrev pub probe : String → Wait (String ⊎ Bool)
  probe url s =
      let r = N.get url s.world in (ok r.0, record { world = r.1; probes = s.probes ++ r.0 ∷ [] })

  abbrev pub joined : String ⊎ Bool → Outcome SandboxError Bool
  joined (inl e) = err (runtime_error e)
  joined (inr b) = ok b

  -- `n` more rounds; the next tick is the `k`-th one.
  unfoldable pub wait_rounds : ℕ → String → ℕ → ℕ → Wait (Unit {0})
  wait_rounds zero url start k = fail timeout_error
  wait_rounds (suc n) url start k = do
    tick (start + 500 * k)
    answer ← probe url
    responded ← lift (joined answer)
    if responded then pure tt else wait_rounds n url start (k + 1)

  unfoldable pub wait_until_ready : Bool → Dict String → String → Wait (Unit {0})
  unfolding timeout_secs twice
  wait_until_ready checks env rpc = do
    secs ← lift (timeout_secs env)
    start ← clock
    n ← lift (twice checks secs)
    wait_rounds n (rpc <> "/status") start 0
