-- ===== src/Base/Decimal/Read.antt =====
-- Reading back what `Display` has written.
use Prim.Native.Nat.{ℕ, zero, suc, ◌+◌, ◌-◌, ◌*◌, ◌/◌, ◌%◌, ◌<◌, ◌≤◌}
use Prim.Native.Char.{Char, code}
use Prim.Native.String.{String, [], ◌∷◌, ◌++◌}
use Prim.Native.String.append
use mathlib.Core.Path.{◌≡◌, refl, ap, ◌∙◌}
use mathlib.Core.Bool.{Bool, true, false}
use mathlib.Core.Option.{some}
use native.Mathlib.Omega.{arith}
use near_sandbox_rs.Base.Tests.{ltb, if◌then◌else◌}
use near_sandbox_rs.Base.Results.{and_then}
use near_sandbox_rs.Base.Decimal.{
  digit, decimal_fuel, decimal, digits_value, some_digits, after_sign, below, parse_unsigned,
}

abbrev is_empty : String → Bool
is_empty [] = true
is_empty (c ∷ rest) = false

-- A digit, and the text that stands for it.
data IsDigit : ℕ → String → Type 0 where
  a_digit : (c : Char) (d : ℕ) → code c ≡ 48 + d → d < 10 → IsDigit d (c ∷ [])

digit-IsDigit : (d : ℕ) → d < 10 → IsDigit d (digit d)
unfolding digit
digit-IsDigit zero h = a_digit _ _ refl (omega arith)
digit-IsDigit (suc zero) h = a_digit _ _ refl (omega arith)
digit-IsDigit (suc (suc zero)) h = a_digit _ _ refl (omega arith)
digit-IsDigit (suc (suc (suc zero))) h = a_digit _ _ refl (omega arith)
digit-IsDigit (suc (suc (suc (suc zero)))) h = a_digit _ _ refl (omega arith)
digit-IsDigit (suc (suc (suc (suc (suc zero))))) h = a_digit _ _ refl (omega arith)
digit-IsDigit (suc (suc (suc (suc (suc (suc zero)))))) h = a_digit _ _ refl (omega arith)
digit-IsDigit (suc (suc (suc (suc (suc (suc (suc zero))))))) h = a_digit _ _ refl (omega arith)
digit-IsDigit (suc (suc (suc (suc (suc (suc (suc (suc zero)))))))) h =
    a_digit _ _ refl (omega arith)
digit-IsDigit (suc (suc (suc (suc (suc (suc (suc (suc (suc zero))))))))) h =
    a_digit _ _ refl (omega arith)
digit-IsDigit (suc (suc (suc (suc (suc (suc (suc (suc (suc (suc d)))))))))) h =
    let never : ⊥ = omega arith in elim never [ ]

digits_value-append :
    (n : ℕ) (s t : String)
    → digits_value n (s ++ t) ≡ and_then (digits_value n s) (λ m. digits_value m t)
unfolding digits_value
digits_value-append n [] t = ap (digits_value n) (append.nil t)
digits_value-append n (c ∷ s) t =
    rw (append.cons c s t) (ground (arith, digits_value-append (n * 10 + (code c - 48)) s t))

digits_value-digit :
    (n : ℕ) {d : ℕ} {s : String} → IsDigit d s → digits_value n s ≡ some (n * 10 + d)
unfolding digits_value
digits_value-digit n (a_digit c d e h) = ground (arith, e, h)

is_empty-append : (s : String) {d : ℕ} {t : String} → IsDigit d t → is_empty (s ++ t) ≡ false
is_empty-append [] (a_digit c d e h) = ap is_empty (append.nil (c ∷ []))
is_empty-append (x ∷ s) (a_digit c d e h) = ap is_empty (append.cons x s (c ∷ []))

-- The text of a number: digits that stand for it, at least one.
abbrev Reads : ℕ → String → Type 0
Reads n s = (digits_value 0 s ≡ some n) × (is_empty s ≡ false)

is_empty-digit : {d : ℕ} {s : String} → IsDigit d s → is_empty s ≡ false
is_empty-digit (a_digit c d e h) = refl

digit-Reads : (n : ℕ) → n < 10 → Reads n (digit n)
digit-Reads n h =
    let one = digit-IsDigit n h in
    (digits_value-digit 0 one ∙ ap some (omega arith), is_empty-digit one)

append-Reads : (n : ℕ) (s : String) → Reads (n / 10) s → Reads n (s ++ digit (n % 10))
append-Reads n s r =
    let last = digit-IsDigit (n % 10) (omega arith) in
    (
      digits_value-append 0 s (digit (n % 10))
          ∙ ap (λ o. and_then o λ m. digits_value m (digit (n % 10))) r.0
          ∙ digits_value-digit (n / 10) last
          ∙ ap some (omega arith),
      is_empty-append s last,
    )

if-Reads :
    (n : ℕ) (s t : String)
    → (n < 10 → Reads n s)
    → (10 ≤ n → Reads n t)
    → Reads n (if ltb n 10 then s else t)
if-Reads n s t h k = ground (arith, h, k)

decimal_fuel-Reads : (f n : ℕ) → n < f → Reads n (decimal_fuel f n)
unfolding decimal_fuel
decimal_fuel-Reads zero n h = let never : ⊥ = omega arith in elim never [ ]
decimal_fuel-Reads (suc f) n h =
    if-Reads n (digit n) (decimal_fuel f (n / 10) ++ digit (n % 10)) (digit-Reads n)
      λ big. append-Reads n (decimal_fuel f (n / 10)) (decimal_fuel-Reads f (n / 10) (omega arith))

after_sign-Reads : (n : ℕ) (s : String) → Reads n s → after_sign s ≡ some n
unfolding after_sign some_digits digits_value
after_sign-Reads n [] r = absurd (cc)
after_sign-Reads n (c ∷ s) r = ground (arith, r.0)

-- What is written in decimals is read back, if it is below the bound.
pub parse-decimal : (bound n : ℕ) → n < bound → parse_unsigned bound (decimal n) ≡ some n
unfolding parse_unsigned below decimal
parse-decimal bound n h =
    rw (after_sign-Reads n (decimal_fuel (suc n) n) (decimal_fuel-Reads (suc n) n (omega arith)))
      (ground arith)
