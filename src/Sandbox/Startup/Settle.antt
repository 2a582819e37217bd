-- ===== src/Sandbox/Startup/Settle.antt =====
-- One attempt that has come to the wait: what follows on it.
use near_sandbox_rs.Base.{
  ℕ, zero, suc, ◌+◌, ◌<◌, refl, ap, sym, subst, ◌≡◌, ◌⊎◌, inl, inr, String, Option, none, some,
  List, [], ◌∷◌, ◌++◌, Any, Ends, Ended, Ends-bind, Ends-if, Ends-assume, pure, fail, ◌>>=◌, ◌>>◌,
  arith,
}
use near_sandbox_rs.ErrorKind.{SandboxError, timeout_error, sandbox_startup_retries_exhausted}
use near_sandbox_rs.Json.{Json}
use near_sandbox_rs.Runner.Host.{Host, Machine, Act, Event, or_panic, spawned, killed, waited}
use near_sandbox_rs.Runner.Rules.{IsOrdinary, Log}
use near_sandbox_rs.Sandbox.Startup.{
  Started, kill_expect, stop, release, guarded, register, settle, clear_data,
}
use near_sandbox_rs.Sandbox.Startup.Launched.{clear_data-Quiet, Answered}
use near_sandbox_rs.Sandbox.Startup.History.{
  FailedAttempts, one_more, IsSettled, Exhausts, NoSurprise, lenient, stop-Log,
}

module _ ⦃J : Json⦄ ⦃H : Host J⦄ (l : List (Event H.Child)) (max : ℕ) where
  module _ (n : ℕ) (es : List (Event H.Child)) (history : FailedAttempts l n es) where
    -- The process of the attempt at hand.
    abbrev pub begun : H.Child → List (Event H.Child)
    begun c = es ++ spawned c ∷ []

    guarded-Log :
        (r : Started) (pid : Option ℕ)
        → Ends
            (Log (begun r.process))
            (guarded r pid)
            (λ r' t. Log (begun r'.process) t)
            (Exhausts l max)
            (NoSurprise l max)
    guarded-Log r none = record { at = λ s p. refl }
    guarded-Log r (some pid) = record { at = λ s p. p }

    register-Log :
        (r : Started)
        → Ends
            (Log (begun r.process))
            (register r)
            (λ r' t. Log (begun r'.process) t)
            (Exhausts l max)
            (NoSurprise l max)
    unfolding register
    register-Log r =
        Ends-if H.singleton_cleanup _ _
          (record { at = λ s p. (guarded-Log r (H.id r.process s.world)).at s p })
          (record { at = λ s p. p })

    ready-Ends :
        (r : Started)
        → n < max
        → Ends
            (Log (begun r.process))
            (do handle ← register r; pure (some handle))
            (IsSettled l max)
            (Exhausts l max)
            (NoSurprise l max)
    ready-Ends r b =
        Ends-bind (λ r' t. Log (begun r'.process) t) _ _ (register-Log r)
          λ handle. record {
            at = λ s p. record {
              failed = n;
              before = es;
              history = history;
              bounded = b;
              running = p;
            };
          }

    killed-Ended :
        (r : String ⊎ Unit {0}) (t : Machine H)
        → Ended (λ _. Any) (Exhausts l max) (NoSurprise l max) (or_panic "couldn't kill child" r) t
    killed-Ended (inl e) t = refl
    killed-Ended (inr a) t = tt

    other-Ends :
        (r : Started) (e : SandboxError)
        → IsOrdinary e
        → Ends
            (Log (begun r.process))
            (do kill_expect r.process; fail e)
            (IsSettled l max)
            (Exhausts l max)
            (NoSurprise l max)
    unfolding kill_expect
    other-Ends r e h =
        Ends-bind (λ _. Any) _ _
          (record { at = λ s p. killed-Ended (H.kill r.process s.world).0 _ })
          λ _. record { at = λ s p. (lenient l max).ordinary e s h }

    -- The failed attempts with this one.
    abbrev pub over : H.Child → List (Event H.Child)
    over c = es ++ spawned c ∷ killed c ∷ waited c ∷ []

    -- The number that such an error names.
    abbrev reported : SandboxError → ℕ
    reported (sandbox_startup_retries_exhausted m) = m
    reported _ = 0

    last-Ends :
        (r : Started)
        → suc n ≡ max
        → Ends
            (Log (begun r.process))
            (do stop r.process; fail (sandbox_startup_retries_exhausted max))
            (IsSettled l max)
            (Exhausts l max)
            (NoSurprise l max)
    last-Ends r b =
        Ends-bind (λ _. Log (over r.process)) _ _ ((stop-Log l max) es r.process)
          λ _. record {
            at = λ s p m q. (
              ap reported (sym q),
              subst (λ k. FailedAttempts l k s.events) b
                  (subst (FailedAttempts l (suc n)) (sym p) (one_more r.process history)),
            );
          }

    again-Ends :
        (r : Started) (again : Act (Option Started))
        → Ends (Log (over r.process)) again (IsSettled l max) (Exhausts l max) (NoSurprise l max)
        → Ends
            (Log (begun r.process))
            (do stop r.process; clear_data r.home_dir; release r; again)
            (IsSettled l max)
            (Exhausts l max)
            (NoSurprise l max)
    again-Ends r again h =
        Ends-bind (λ _. Log (over r.process)) _ _ ((stop-Log l max) es r.process)
          λ _.
            Ends-bind (λ _. Log (over r.process)) _ _
              (clear_data-Quiet (lenient l max) (over r.process) r.home_dir)
              λ _. Ends-bind (λ _. Log (over r.process)) _ _ (record { at = λ s p. p }) λ _. h

    pub settle-Ends :
        (left : ℕ) (r : Started) (a : SandboxError ⊎ Unit {0}) (again : Act (Option Started))
        → suc (n + left) ≡ max
        → (0 < left
            → Ends
                (Log (over r.process))
                again
                (IsSettled l max)
                (Exhausts l max)
                (NoSurprise l max))
        → Ends
            (Answered (begun r.process) a)
            (settle max left r a again)
            (IsSettled l max)
            (Exhausts l max)
            (NoSurprise l max)
    unfolding settle
    settle-Ends left r (inr _) again b k = ready-Ends r (omega arith)
    settle-Ends zero r (inl timeout_error) again b k = Ends-assume λ _. last-Ends r (omega arith)
    settle-Ends (suc left) r (inl timeout_error) again b k =
        Ends-assume λ _. again-Ends r again (k (omega arith))
    settle-Ends left r (inl e) again b k = Ends-assume (other-Ends r e)
