-- ===== src/Examples/Shared/Accounts.antt =====
-- The accounts that tasks have generated: their numbers, and their names.
use text.Mathlib.TextLemmas.{append_cancel_right}
use near_sandbox_rs.Base.{
  ℕ, ◌≤◌, ◌<◌, String, ◌<>◌, List, [], ◌∷◌, decimal, decimal-injective, ◌≡◌, ◌≢◌, sym, ◌∙◌, arith,
}

-- No account of the list has the number.
abbrev pub Unused : ℕ → List (ℕ × String) → Type 0
Unused n [] = Unit {0}
Unused n ((k, id) ∷ rest) = (n ≢ k) × Unused n rest

-- Each account is named after its number, which is less than `calls`, and which no other account has.
abbrev pub Numbered : ℕ → List (ℕ × String) → Type 0
Numbered calls [] = Unit {0}
Numbered calls ((k, id) ∷ rest) =
    (k < calls) × (id ≡ decimal k <> ".sandbox") × Unused k rest × Numbered calls rest

-- No account of the list has the name.
abbrev pub Unnamed : String → List (ℕ × String) → Type 0
Unnamed name [] = Unit {0}
Unnamed name ((k, id) ∷ rest) = (name ≢ id) × Unnamed name rest

-- The names are all different.
abbrev pub NoRepeats : List (ℕ × String) → Type 0
NoRepeats [] = Unit {0}
NoRepeats ((k, id) ∷ rest) = Unnamed id rest × NoRepeats rest

pub Numbered-mono :
    (m n : ℕ) (accounts : List (ℕ × String)) → m ≤ n → Numbered m accounts → Numbered n accounts
Numbered-mono m n [] le h = tt
Numbered-mono m n ((k, id) ∷ rest) le (below, named, fresh, h) =
    (omega arith, named, fresh, Numbered-mono m n rest le h)

-- The next number is not that of an account yet.
pub Numbered-Unused :
    (n : ℕ) (accounts : List (ℕ × String)) → Numbered n accounts → Unused n accounts
Numbered-Unused n [] h = tt
Numbered-Unused n ((k, id) ∷ rest) (below, named, fresh, h) =
    (λ e. omega arith, Numbered-Unused n rest h)

Unused-Unnamed :
    (n calls : ℕ) (name : String) (accounts : List (ℕ × String))
    → name ≡ decimal n <> ".sandbox"
    → Unused n accounts
    → Numbered calls accounts
    → Unnamed name accounts
Unused-Unnamed n calls name [] e u h = tt
Unused-Unnamed n calls name ((k, id) ∷ rest) e (differs, u) (below, named, fresh, h) = (
  λ same. differs (
      decimal-injective n k
        (append_cancel_right (decimal n) (decimal k) ".sandbox" (sym e ∙ same ∙ named))),
  Unused-Unnamed n calls name rest e u h,
)

pub Numbered-NoRepeats :
    (calls : ℕ) (accounts : List (ℕ × String)) → Numbered calls accounts → NoRepeats accounts
Numbered-NoRepeats calls [] h = tt
Numbered-NoRepeats calls ((k, id) ∷ rest) (below, named, fresh, h) =
    (Unused-Unnamed k calls id rest named fresh h, Numbered-NoRepeats calls rest h)
