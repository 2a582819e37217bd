-- ===== src/Runner/Cleanup/Pids.antt =====
-- What a list of PIDs contains after an insertion or a removal.
use near_sandbox_rs.Base.{
  ℕ, Bool, true, false, List, [], ◌∷◌, ◌++◌, ◌≡◌, refl, ◌∙◌, ◌==◌, if◌then◌else◌, ◌||◌, arith, ap,
  sym,
}
use near_sandbox_rs.Runner.Cleanup.{contains, insert, remove, remove_one}

pub contains-insert :
    (pid p : ℕ) (ps : List ℕ) → contains p (insert pid ps) ≡ (pid == p) || contains p ps
unfolding insert
contains-insert pid p ps = ground (arith, contains-same)
  where
    contains-same : pid ≡ p → contains pid ps ≡ contains p ps
    contains-same e = cc

pub contains-remove :
    (pid p : ℕ) (ps : List ℕ)
    → contains p (remove pid ps) ≡ (if pid == p then false else contains p ps)
unfolding remove
contains-remove pid p [] = ground arith
contains-remove pid p (q ∷ ps) = ground (arith, contains-remove pid p ps)

pub contains-append :
    (p : ℕ) (xs ys : List ℕ) → contains p (xs ++ ys) ≡ contains p xs || contains p ys
contains-append p [] ys = refl
contains-append p (x ∷ xs) ys = ground (arith, contains-append p xs ys)

pub contains-remove_one_other :
    (pid p : ℕ) (ps : List ℕ) → (pid == p) ≡ false → contains p (remove_one pid ps) ≡ contains p ps
unfolding remove_one
contains-remove_one_other pid p [] differ = refl
contains-remove_one_other pid p (q ∷ ps) differ =
    ground (arith, contains-remove_one_other pid p ps differ, differ)

-- No PID stands twice in the list.
abbrev pub Unique : List ℕ → Type 0
Unique [] = Unit {0}
Unique (p ∷ ps) = (contains p ps ≡ false) × Unique ps

contains-remove_one_absent :
    (pid p : ℕ) (ps : List ℕ) → contains p ps ≡ false → contains p (remove_one pid ps) ≡ false
unfolding remove_one
contains-remove_one_absent pid p [] absent = refl
contains-remove_one_absent pid p (q ∷ ps) absent =
    ground (arith, contains-remove_one_absent pid p ps, absent)

pub remove_one-Unique : (pid : ℕ) (ps : List ℕ) → Unique ps → Unique (remove_one pid ps)
unfolding remove_one
remove_one-Unique pid [] u = tt
remove_one-Unique pid (q ∷ ps) (absent, u) = by_test (q == pid) (remove_one-Unique pid ps u)
  where
    by_test :
        (b : Bool) → Unique (remove_one pid ps) → Unique (if b then ps else q ∷ remove_one pid ps)
    by_test true rest = u
    by_test false rest = (contains-remove_one_absent pid q ps absent, rest)

pub contains-remove_one :
    (pid p : ℕ) (ps : List ℕ)
    → Unique ps
    → contains p (remove_one pid ps) ≡ (if pid == p then false else contains p ps)
unfolding remove_one
contains-remove_one pid p [] u = ground arith
contains-remove_one pid p (q ∷ ps) (absent, u) =
    ground (arith, contains-remove_one pid p ps u, absent, same)
  where
    same : q ≡ p → contains p ps ≡ false
    same e = sym (ap (λ x. contains x ps) e) ∙ absent
