-- ===== src/Base/Binds.antt =====
-- Reasoning about a sequence of effects.
use mathlib.Core.Path.{◌≡◌, refl, subst, subst₂}
use mathlib.Core.Bool.{Bool, true, false}
use near_sandbox_rs.Base.Tests.{if◌then◌else◌}
use near_sandbox_rs.Base.Results.{Outcome, ok, err, panic, Exec, continue, pure, lift, ◌>>=◌}

-- From states with `P`, what `m` returns has `Q` in the state that it leaves.
pub record Triple {S E A : Type 0} (P : S → Type 0) (m : Exec S E A) (Q : A → S → Type 0)
    : Type 0 where
  pub at : (s t : S) (a : A) → P s → m s ≡ (ok a, t) → Q a t

-- No condition on a state.
abbrev pub Any : {S : Type 0} → S → Type 0
Any s = Unit {0}

module _ {S E A B : Type 0} where
  continue-eq-ok :
      (r : Outcome E A) (f : A → Exec S E B) (s t : S) (b : B)
      → continue r f s ≡ (ok b, t)
      → (a : A) × (r ≡ ok a) × (f a s ≡ (ok b, t))
  continue-eq-ok (ok a) f s t b h = (a, refl, h)
  continue-eq-ok (err e) f s t b h = cc
  continue-eq-ok (panic m) f s t b h = cc

  -- A sequence that succeeds has succeeded in its parts.
  pub >>=-eq-ok :
      (m : Exec S E A) (f : A → Exec S E B) (s t : S) (b : B)
      → (m >>= f) s ≡ (ok b, t)
      → (a : A) × (u : S) × (m s ≡ (ok a, u)) × (f a u ≡ (ok b, t))
  unfolding ◌>>=◌
  >>=-eq-ok m f s t b h =
      let (a, e, q) = continue-eq-ok (m s).0 f (m s).1 t b h in (a, (m s).1, cc, q)

  pub Triple-bind :
      {P : S → Type 0} {Q : B → S → Type 0} (R : A → S → Type 0) (m : Exec S E A)
      (f : A → Exec S E B)
      → Triple P m R
      → ((a : A) → Triple (R a) (f a) Q)
      → Triple P (m >>= f) Q
  Triple-bind R m f h k = record {
    at = λ s t b p e.
        let (a, u, ran, rest) = >>=-eq-ok m f s t b e in (k a).at u t b (h.at s u a p ran) rest;
  }

module _ {S E A : Type 0} {P : S → Type 0} {Q : A → S → Type 0} where
  pub Triple-if :
      (c : Bool) (m n : Exec S E A) → Triple P m Q → Triple P n Q → Triple P (if c then m else n) Q
  Triple-if true m n h k = h
  Triple-if false m n h k = k

  pub Triple-pure : (a : A) → ((s : S) → P s → Q a s) → Triple {E = E} P (pure a) Q
  Triple-pure a h = record { at = λ s t b p e. subst₂ Q (cc) (cc) (h s p) }

-- A part about whose result nothing has to be known.
pub Triple-Any : {S E A : Type 0} {P : S → Type 0} (m : Exec S E A) → Triple P m (λ _. Any)
Triple-Any m = record { at = λ s t a p e. tt }

module _ {S E A : Type 0} {P : S → Type 0} where
  -- A computation with no effect leaves the state, and has the result that it has.
  pub Triple-lift : (r : Outcome E A) → Triple {E = E} P (lift r) (λ a t. P t × (r ≡ ok a))
  Triple-lift (ok a) = record { at = λ s t b p e. (subst P (cc) p, cc) }
  Triple-lift (err x) = record { at = λ s t b p e. absurd (cc) }
  Triple-lift (panic m) = record { at = λ s t b p e. absurd (cc) }

  pub Triple-weaken :
      {Q R : A → S → Type 0} (m : Exec S E A)
      → Triple P m R
      → ((a : A) (t : S) → R a t → Q a t)
      → Triple P m Q
  Triple-weaken m h k = record { at = λ s t a p e. k a t (h.at s t a p e) }

  -- A condition that is not needed.
  pub Triple-forget :
      {F : Type 0} {m : Exec S E A} {Q : A → S → Type 0} → Triple P m Q → Triple (λ s. P s × F) m Q
  Triple-forget h = record { at = λ s t a p e. h.at s t a p.0 e }

  -- A condition that is a fact for all states.
  pub Triple-assume :
      {F : Type 0} {m : Exec S E A} {Q : A → S → Type 0}
      → (F → Triple P m Q)
      → Triple (λ s. F × P s) m Q
  Triple-assume h = record { at = λ s t a p e. (h p.0).at s t a p.1 e }
