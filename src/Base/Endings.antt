-- ===== src/Base/Endings.antt =====
-- Reasoning about all the ways in which a sequence of effects may end.
use Prim.Native.String.{String}
use mathlib.Core.Path.{◌≡◌, subst}
use mathlib.Core.Bool.{Bool, true, false}
use near_sandbox_rs.Base.Tests.{if◌then◌else◌}
use near_sandbox_rs.Base.Results.{Outcome, ok, err, panic, Exec, continue, pure, fail, ◌>>=◌}

-- What has to hold of a result and the state with it: one condition for each way to end.
abbrev pub Ended :
    {S E A : Type 0}
    → (A → S → Type 0)
    → (E → S → Type 0)
    → (String → S → Type 0)
    → Outcome E A
    → S
    → Type 0
Ended Q R U (ok a) t = Q a t
Ended Q R U (err e) t = R e t
Ended Q R U (panic m) t = U m t

-- From states with `P`, `m` returns with `Q`, fails with `R` or panics with `U`.
pub record Ends {S E A : Type 0} (P : S → Type 0) (m : Exec S E A) (Q : A → S → Type 0)
    (R : E → S → Type 0) (U : String → S → Type 0) : Type 0 where
  pub at : (s : S) → P s → Ended Q R U (m s).0 (m s).1

module _ {S E : Type 0} {R : E → S → Type 0} {U : String → S → Type 0} where
  continue-Ended :
      {A B : Type 0} {T : A → S → Type 0} {Q : B → S → Type 0} (r : Outcome E A)
      (f : A → Exec S E B) (s : S)
      → Ended T R U r s
      → ((a : A) → Ends (T a) (f a) Q R U)
      → Ended Q R U (continue r f s).0 (continue r f s).1
  continue-Ended (ok a) f s h k = (k a).at s h
  continue-Ended (err e) f s h k = h
  continue-Ended (panic m) f s h k = h

  pub Ends-bind :
      {A B : Type 0} {P : S → Type 0} {Q : B → S → Type 0} (T : A → S → Type 0) (m : Exec S E A)
      (f : A → Exec S E B)
      → Ends P m T R U
      → ((a : A) → Ends (T a) (f a) Q R U)
      → Ends P (m >>= f) Q R U
  unfolding ◌>>=◌
  Ends-bind T m f h k = record { at = λ s p. continue-Ended (m s).0 f (m s).1 (h.at s p) k }

  module _ {A : Type 0} {P : S → Type 0} {Q : A → S → Type 0} where
    pub Ends-if :
        (c : Bool) (m n : Exec S E A)
        → Ends P m Q R U
        → Ends P n Q R U
        → Ends P (if c then m else n) Q R U
    Ends-if true m n h k = h
    Ends-if false m n h k = k

    pub Ends-pure : (a : A) → ((s : S) → P s → Q a s) → Ends P (pure a) Q R U
    Ends-pure a h = record { at = h }

    pub Ends-fail : (e : E) → ((s : S) → P s → R e s) → Ends P (fail e) Q R U
    Ends-fail e h = record { at = h }

    pub Ends-assume :
        {F : Type 0} {m : Exec S E A} → (F → Ends P m Q R U) → Ends (λ s. F × P s) m Q R U
    Ends-assume h = record { at = λ s p. (h p.0).at s p.1 }

module _ {S E A : Type 0} where
  weaken-Ended :
      {Q Q' : A → S → Type 0} {R R' : E → S → Type 0} {U U' : String → S → Type 0} (r : Outcome E A)
      (s : S)
      → ((a : A) (t : S) → Q a t → Q' a t)
      → ((e : E) (t : S) → R e t → R' e t)
      → ((p : String) (t : S) → U p t → U' p t)
      → Ended Q R U r s
      → Ended Q' R' U' r s
  weaken-Ended (ok a) s f g h = f a s
  weaken-Ended (err e) s f g h = g e s
  weaken-Ended (panic m) s f g h = h m s

  pub Ends-weaken :
      {P : S → Type 0} {Q Q' : A → S → Type 0} {R R' : E → S → Type 0} {U U' : String → S → Type 0}
      (m : Exec S E A)
      → ((a : A) (t : S) → Q a t → Q' a t)
      → ((e : E) (t : S) → R e t → R' e t)
      → ((p : String) (t : S) → U p t → U' p t)
      → Ends P m Q R U
      → Ends P m Q' R' U'
  Ends-weaken m f g h e = record { at = λ s p. weaken-Ended (m s).0 (m s).1 f g h (e.at s p) }

  pub Ends-some :
      {F : Type 0} {T : F → S → Type 0} {m : Exec S E A} {Q : A → S → Type 0} {R : E → S → Type 0}
      {U : String → S → Type 0}
      → ((f : F) → Ends (T f) m Q R U)
      → Ends (λ s. (f : F) × T f s) m Q R U
  Ends-some h = record { at = λ s p. (h p.0).at s p.1 }

  -- What a computation that has ended in one way comes to.
  pub Ends-ok :
      {P : S → Type 0} {Q : A → S → Type 0} {R : E → S → Type 0} {U : String → S → Type 0}
      (m : Exec S E A) (s t : S) (a : A)
      → Ends P m Q R U
      → P s
      → m s ≡ (ok a, t)
      → Q a t
  Ends-ok {Q = Q} {R = R} {U = U} m s t a h p e =
      subst (λ (r : Outcome E A × S). Ended Q R U r.0 r.1) e (h.at s p)

  pub Ends-err :
      {P : S → Type 0} {Q : A → S → Type 0} {R : E → S → Type 0} {U : String → S → Type 0}
      (m : Exec S E A) (s t : S) (x : E)
      → Ends P m Q R U
      → P s
      → m s ≡ (err x, t)
      → R x t
  Ends-err {Q = Q} {R = R} {U = U} m s t x h p e =
      subst (λ (r : Outcome E A × S). Ended Q R U r.0 r.1) e (h.at s p)
