-- ===== src/Base/Decimal.antt =====
-- `Display` and `FromStr` for unsigned integers.
pub mod Read
pub mod Injective
use Prim.Native.Nat.{ℕ, zero, suc, ◌+◌, ◌-◌, ◌*◌, ◌/◌, ◌%◌}
use Prim.Native.Char.{code}
use Prim.Native.String.{String, [], ◌∷◌, ◌++◌}
use mathlib.Core.Bool.{◌&&◌}
use mathlib.Core.Option.{Option, none, some}
use near_sandbox_rs.Base.Tests.{ltb, leb, ◌==◌, if◌then◌else◌}

digit : ℕ → String
digit d =
    if d == 0
    then "0"
    else if d == 1
    then "1"
    else if d == 2
    then "2"
    else if d == 3
    then "3"
    else if d == 4
    then "4"
    else if d == 5
    then "5"
    else if d == 6
    then "6"
    else if d == 7
    then "7"
    else if d == 8
    then "8"
    else "9"

-- The fuel `n` is more than the number of digits of `n`.
decimal_fuel : ℕ → ℕ → String
decimal_fuel zero n = ""
decimal_fuel (suc f) n =
    let rest = decimal_fuel f (n / 10) ++ digit (n % 10) in if ltb n 10 then digit n else rest

unfoldable pub decimal : ℕ → String
unfolding decimal_fuel digit
decimal n = decimal_fuel (suc n) n

digits_value : ℕ → String → Option ℕ
digits_value n [] = some n
digits_value n (c ∷ rest) =
    if leb 48 (code c) && leb (code c) 57 then digits_value (n * 10 + (code c - 48)) rest else none

-- One digit at least.
some_digits : String → Option ℕ
some_digits [] = none
some_digits (c ∷ rest) = digits_value 0 (c ∷ rest)

-- A plus sign may stand in front.
after_sign : String → Option ℕ
after_sign [] = none
after_sign (c ∷ rest) = if code c == 43 then some_digits rest else some_digits (c ∷ rest)

below : ℕ → Option ℕ → Option ℕ
below bound none = none
below bound (some n) = if ltb n bound then some n else none

-- `str::parse` into an unsigned type with the values below `bound`
unfoldable pub parse_unsigned : ℕ → String → Option ℕ
unfolding digits_value some_digits after_sign below
parse_unsigned bound s = below bound (after_sign s)
