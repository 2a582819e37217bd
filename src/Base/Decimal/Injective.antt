-- ===== src/Base/Decimal/Injective.antt =====
-- Different numbers are written differently.
use Prim.Native.Nat.{ℕ, ◌+◌}
use mathlib.Core.Path.{◌≡◌, ap, sym, ◌∙◌}
use native.Mathlib.Omega.{arith}
use near_sandbox_rs.Base.Results.{unwrap_or}
use near_sandbox_rs.Base.Decimal.{decimal, parse_unsigned}
use near_sandbox_rs.Base.Decimal.Read.{parse-decimal}

pub decimal-injective : (m n : ℕ) → decimal m ≡ decimal n → m ≡ n
decimal-injective m n h =
    ap (λ o. unwrap_or o 0)
      (sym (parse-decimal (m + n + 1) m (omega arith))
        ∙ ap (parse_unsigned (m + n + 1)) h
        ∙ parse-decimal (m + n + 1) n (omega arith))
