-- ===== src/Base/Families.antt =====
-- Families with an index, one member of which changes at a time.
use Prim.Native.Nat.{ℕ}
use mathlib.Core.Path.{◌≡◌, refl}
use mathlib.Core.Logic.{ite, ◌≢◌, ◌⊎◌, inl, inr}
use native.Mathlib.Decide.{ℕ_discrete}

abbrev pub update : {X : Type 0} → (ℕ → X) → ℕ → X → ℕ → X
update f i a j = ite (ℕ_discrete i j) a (f j)

-- At the index that was updated there is the new value, and elsewhere what there was.
pub update-cases :
    {X : Type 0} (f : ℕ → X) (i : ℕ) (x : X) (j : ℕ)
    → ((i ≡ j) × (update f i x j ≡ x)) ⊎ ((i ≢ j) × (update f i x j ≡ f j))
update-cases f i x j = by_test (ℕ_discrete i j)
  where
    by_test :
        (d : Dec (i ≡ j)) → ((i ≡ j) × (ite d x (f j) ≡ x)) ⊎ ((i ≢ j) × (ite d x (f j) ≡ f j))
    by_test (yes e) = inl (e, refl)
    by_test (no e) = inr (e, refl)
