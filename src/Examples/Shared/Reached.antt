-- ===== src/Examples/Shared/Reached.antt =====
-- Tasks that share the statics: what holds of them in every state that is reached.
use near_sandbox_rs.Base.{◌≤◌, ◌^◌, refl, arith}
use near_sandbox_rs.Json.{Json}
use near_sandbox_rs.Runner.Host.{Host, Machine}
use near_sandbox_rs.Examples.Api.{Api}
use near_sandbox_rs.Examples.Shared.Accounts.{NoRepeats, Numbered-NoRepeats}
use near_sandbox_rs.Examples.Shared.Apart.{Apart}
use near_sandbox_rs.Examples.Shared.Steps.{Step-Apart}
use near_sandbox_rs.Examples.Shared.Tasks.{Tasks, Step, number, Reach, at_start, later}

module _ ⦃J : Json⦄ ⦃H : Host J⦄ ⦃A : Api H⦄ where
  calls-le : {s t : Tasks} → Step s t → s.calls ≤ t.calls
  calls-le (number i n shared env after at took) = omega arith
  calls-le step = omega arith

  Reach-Apart : {m : Machine H} {s : Tasks} → Reach m s → s.calls ≤ 2 ^ 64 → Apart s
  Reach-Apart at_start b = record {
    rooted = tt;
    counted = refl;
    placed = λ i. tt;
    apart = λ i j n p q. absurd (cc);
    generated = tt;
    pending = λ i n p. tt;
  }
  Reach-Apart (later r step) b = Step-Apart step b (Reach-Apart r (omega (arith, calls-le step, b)))

  -- In whatever order the tasks of a program take their steps: as long as no more than 2 ^ 64 numbers
  -- were taken, no two of the accounts that they have generated, be it by one task or by several, have
  -- the same name.
  pub accounts_distinct :
      (m : Machine H) (s : Tasks) → Reach m s → s.calls ≤ 2 ^ 64 → NoRepeats s.accounts
  accounts_distinct m s r bound =
      Numbered-NoRepeats s.calls s.accounts (Reach-Apart r bound).generated
