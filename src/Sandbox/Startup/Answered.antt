-- ===== src/Sandbox/Startup/Answered.antt =====
-- The wait for a node that answers in time, on a host on which nothing fails.
use near_sandbox_rs.Base.{
  ℕ, zero, suc, ◌+◌, ◌*◌, ◌<◌, Bool, true, false, ◌≡◌, ◌⊎◌, inl, inr, String, Ends-bind, pure,
  if◌then◌else◌, ◌>>=◌, arith, lift,
}
use near_sandbox_rs.Json.{Json}
use near_sandbox_rs.Config.Account.{SandboxConfig}
use near_sandbox_rs.Sandbox.Ready.{Waiting, Wait, joined, probe, wait_rounds}
use near_sandbox_rs.Runner.Host.{Host, host_os, host_status}
use near_sandbox_rs.Sandbox.Startup.Cooperative.{Works, IsCooperative, status_url}

module _ ⦃J : Json⦄ ⦃H : Host J⦄ {config : SandboxConfig J.Value} {path : String} {rounds : ℕ}
    {left : String → H.os.World → ℕ} {serving : H.Child → String → H.os.World → Type 0}
    (F : IsCooperative config path rounds left serving) where
  module _ (c : H.Child) (rpc : String) where
    -- The node serves, and leaves fewer requests than this without an answer.
    abbrev pub Answering : ℕ → Waiting H.os.World → Type 0
    Answering n s = serving c rpc s.world × (left rpc s.world < n)

    abbrev pub StillServing : Waiting H.os.World → Type 0
    StillServing s = serving c rpc s.world

    -- What a request comes to: a response, or fewer requests that are left without one.
    abbrev Asked : ℕ → String ⊎ Bool → Waiting H.os.World → Type 0
    Asked n answer s =
        serving c rpc s.world
        × ((answer ≡ inr true) ⊎ ((answer ≡ inr false) × (left rpc s.world < n)))

    probe-Asked :
        (n : ℕ) → Works (Answering (suc n)) (probe ⦃N = host_status⦄ (status_url rpc)) (Asked n)
    probe-Asked n = record {
      at = λ s (serves, h).
          let (still, answer) = F.answers c rpc s.world serves in
          elim answer [
            | inl yes_now ↦ (still, inl yes_now)
            | inr (silence, less) ↦ (still, inr (silence, omega arith))
          ];
    }

    by_answer :
        (n : ℕ) (answer : String ⊎ Bool) (rest : Wait ⦃N = host_status⦄ (Unit {0}))
        → Works (Answering n) rest (λ _. StillServing)
        → Works
            (Asked n answer)
            (lift (joined ⦃N = host_status⦄ answer) >>= λ responded.
              if responded then pure tt else rest)
            (λ _. StillServing)
    unfolding ◌>>=◌
    by_answer n (inl e) rest k = record {
      at = λ s h. elim h.1 [ inl x ↦ absurd (cc) | inr x ↦ absurd (cc x.0) ];
    }
    by_answer n (inr true) rest k = record { at = λ s h. h.0 }
    by_answer n (inr false) rest k = record {
      at = λ s h. elim h.1 [ inl x ↦ absurd (cc) | inr x ↦ k.at s (h.0, x.1) ];
    }

    -- The node answers within the rounds that are left.
    pub wait_rounds-Works :
        (n : ℕ) (start k : ℕ)
        → Works
            (Answering n)
            (wait_rounds ⦃N = host_status⦄ n (status_url rpc) start k)
            (λ _. StillServing)
    unfolding wait_rounds
    wait_rounds-Works zero start k = record { at = λ s h. absurd (omega (arith, h.1)) }
    wait_rounds-Works (suc n) start k =
        Ends-bind (λ _. Answering (suc n)) _ _
          (record {
            at = λ s h.
                let less = F.waits c rpc (start + 500 * k) s.world h.0 in
                (less.0, omega (arith, less.1, h.1));
          })
          λ _.
            Ends-bind (Asked n) _ _ (probe-Asked n)
              λ answer. by_answer n answer _ (wait_rounds-Works n start (k + 1))
