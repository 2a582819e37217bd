-- ===== src/Base/Results.antt =====
-- What a Rust function that may fail returns, and the state that its effects go through.
use Prim.Native.String.{String}
use mathlib.Core.Logic.{◌⊎◌, inl, inr}
use mathlib.Core.Option.{Option, none, some}

-- `Ok`, `Err`, or the unwinding of a panic with its message.
pub data Outcome {ℓ} (E : Type 0) (A : Type ℓ) : Type ℓ where
  ok : A → Outcome E A
  err : E → Outcome E A
  panic : String → Outcome E A

-- A function that acts on a state `S`. What was done before an error stays done.
abbrev pub Exec : Type 0 → Type 0 → Type 0 → Type 0
Exec S E A = S → Outcome E A × S

module _ {S E : Type 0} where
  abbrev pub pure : {A : Type 0} → A → Exec S E A
  pure a s = (ok a, s)

  abbrev pub fail : {A : Type 0} → E → Exec S E A
  fail e s = (err e, s)

  abbrev pub unwind : {A : Type 0} → String → Exec S E A
  unwind m s = (panic m, s)

  -- A computation with no effect.
  abbrev pub lift : {A : Type 0} → Outcome E A → Exec S E A
  lift r s = (r, s)

  abbrev pub continue : {A B : Type 0} → Outcome E A → (A → Exec S E B) → Exec S E B
  continue (ok a) f s = f a s
  continue (err e) f s = (err e, s)
  continue (panic m) f s = (panic m, s)

  infixl 5 ◌>>=◌ ◌>>◌
  unfoldable pub ◌>>=◌ : {A B : Type 0} → Exec S E A → (A → Exec S E B) → Exec S E B
  ◌>>=◌ m f s = let r = m s in continue r.0 f r.1

  abbrev pub ◌>>◌ : {A B : Type 0} → Exec S E A → Exec S E B → Exec S E B
  m >> k = m >>= λ _. k

-- `Option::ok_or`
abbrev pub ok_or {ℓ} : {E : Type 0} {A : Type ℓ} → Option A → E → Outcome E A
ok_or none e = err e
ok_or (some a) e = ok a

-- `Option::expect`
abbrev pub expect {ℓ} : {E : Type 0} {A : Type ℓ} → Option A → String → Outcome E A
expect none m = panic m
expect (some a) m = ok a

-- `Option::unwrap_or`
abbrev pub unwrap_or {ℓ} : {A : Type ℓ} → Option A → A → A
unwrap_or none d = d
unwrap_or (some a) d = a

-- `Option::or_else`
abbrev pub or_else {ℓ} : {A : Type ℓ} → Option A → Option A → Option A
or_else none b = b
or_else (some a) b = some a

-- `Option::and_then`
abbrev pub and_then {ℓ κ} : {A : Type ℓ} {B : Type κ} → Option A → (A → Option B) → Option B
and_then none f = none
and_then (some a) f = f a

-- `match e { Ok(a) => …, Err(_) => … }`: an error becomes `none`, a panic goes on.
abbrev pub attempt_result : {S E A : Type 0} → Outcome E A → Exec S E (Option A)
attempt_result (ok a) s = (ok (some a), s)
attempt_result (err e) s = (ok none, s)
attempt_result (panic m) s = (panic m, s)

abbrev pub attempt : {S E A : Type 0} → Exec S E A → Exec S E (Option A)
attempt m s = let r = m s in attempt_result r.0 r.1

-- A result as a value to decide on; a panic goes on.
abbrev pub caught_result : {S E A : Type 0} → Outcome E A → Exec S E (E ⊎ A)
caught_result (ok a) s = (ok (inr a), s)
caught_result (err e) s = (ok (inl e), s)
caught_result (panic m) s = (panic m, s)

abbrev pub caught : {S E A : Type 0} → Exec S E A → Exec S E (E ⊎ A)
caught m s = let r = m s in caught_result r.0 r.1
