-- ===== src/Examples/Shared/Apart.antt =====
-- Tasks that share the statics: what each of them has.
use near_sandbox_rs.Base.{
  update, update-cases, ℕ, ◌≤◌, ◌<◌, ◌%◌, ◌^◌, Bool, true, false, ◌<>◌, Option, none, some, ◌⊎◌,
  inl, inr, decimal, ◌≡◌, ◌≢◌, String, ◌∷◌, refl, sym, ap, ◌∙◌, subst, arith,
}
use near_sandbox_rs.Json.{Json}
use near_sandbox_rs.Config.Account.{default_genesis_account}
use near_sandbox_rs.Runner.Host.{Host}
use near_sandbox_rs.Examples.Api.{Api}
use near_sandbox_rs.Examples.Shared.{SharedEnv, Statics}
use near_sandbox_rs.Examples.Shared.Keeps.{Rooted}
use near_sandbox_rs.Examples.Shared.Accounts.{Unused, Numbered, Numbered-mono, Numbered-Unused}
use near_sandbox_rs.Examples.Shared.Tasks.{
  Stage, ready, numbered, Task, idle, ended, running, Tasks,
}

module _ ⦃J : Json⦄ ⦃H : Host J⦄ ⦃A : Api H⦄ where
  -- What a task has, when the cell holds `c` and `calls` numbers were taken.
  abbrev pub Staged : SharedEnv → ℕ → Stage → Type 0
  Staged env calls ready = Unit {0}
  Staged env calls (numbered n) = n < calls

  abbrev pub FromCell : Bool → SharedEnv → Option SharedEnv → Type 0
  FromCell true env c = c ≡ some env
  FromCell false env c = Unit {0}

  abbrev pub Placed : Option SharedEnv → ℕ → Task → Type 0
  Placed c calls idle = Unit {0}
  Placed c calls ended = Unit {0}
  Placed c calls (running shared env stage) =
      (env.root_acc ≡ default_genesis_account) × FromCell shared env c × Staged env calls stage

  abbrev pub number_of : Task → Option ℕ
  number_of idle = none
  number_of ended = none
  number_of (running shared env ready) = none
  number_of (running shared env (numbered n)) = some n

  pub record Apart (s : Tasks) : Type 0 where
    pub rooted : Rooted s.statics.shared_sandbox
    pub counted : s.statics.account_counter ≡ s.calls % 2 ^ 64
    pub placed : (i : ℕ) → Placed s.statics.shared_sandbox s.calls (s.task i)
    pub apart : (i j n : ℕ) → number_of (s.task i) ≡ some n → number_of (s.task j) ≡ some n → i ≡ j
    pub generated : Numbered s.calls s.accounts
    pub pending : (i n : ℕ) → number_of (s.task i) ≡ some n → Unused n s.accounts

  -- A cell that was filled stays as it is.
  abbrev pub Grows : Option SharedEnv → Option SharedEnv → Type 0
  Grows none d = Unit {0}
  Grows (some env) d = d ≡ some env

  pub Grows-refl : (c : Option SharedEnv) → Grows c c
  Grows-refl none = tt
  Grows-refl (some env) = refl

  pub FromCell-mono :
      (shared : Bool) (env : SharedEnv) (c d : Option SharedEnv)
      → Grows c d
      → FromCell shared env c
      → FromCell shared env d
  FromCell-mono false env c d g h = tt
  FromCell-mono true env none d g h = absurd (cc)
  FromCell-mono true env (some e) d g h = g ∙ h

  Staged-mono :
      (env : SharedEnv) (m n : ℕ) (stage : Stage) → m ≤ n → Staged env m stage → Staged env n stage
  Staged-mono env m n ready le h = tt
  Staged-mono env m n (numbered k) le h = omega arith

  Placed-mono :
      (c d : Option SharedEnv) (m n : ℕ) (t : Task)
      → Grows c d
      → m ≤ n
      → Placed c m t
      → Placed d n t
  Placed-mono c d m n idle g le h = tt
  Placed-mono c d m n ended g le h = tt
  Placed-mono c d m n (running shared env stage) g le h =
      (h.0, FromCell-mono shared env c d g h.1, Staged-mono env m n stage le h.2)

  number_of-lt :
      (c : Option SharedEnv) (calls n : ℕ) (t : Task)
      → Placed c calls t
      → number_of t ≡ some n
      → n < calls
  number_of-lt c calls n (running shared env (numbered k)) h e =
      let same : k ≡ n = cc in omega (arith, h.2, same)
  number_of-lt c calls n t h e = absurd (cc)

  -- A step of one task, which keeps its number or takes the next.
  pub Apart-update :
      (s : Tasks) (i calls : ℕ) (after : Statics) (t : Task)
      → Apart s
      → Rooted after.shared_sandbox
      → Grows s.statics.shared_sandbox after.shared_sandbox
      → after.account_counter ≡ calls % 2 ^ 64
      → s.calls ≤ calls
      → Placed after.shared_sandbox calls t
      → ((n : ℕ) → number_of t ≡ some n → (number_of (s.task i) ≡ some n) ⊎ (n ≡ s.calls))
      → Apart (record {
        statics = after;
        calls = calls;
        task = update s.task i t;
        accounts = s.accounts;
      })
  Apart-update s i calls after t a rooted grows counted le placed new = record {
    rooted = rooted;
    counted = counted;
    placed = λ j. elim (update-cases s.task i t j) [
      | inl e ↦ subst (Placed after.shared_sandbox calls) (sym e.1) placed
      | inr (_, e) ↦ subst (Placed after.shared_sandbox calls) (sym e) (
          Placed-mono s.statics.shared_sandbox after.shared_sandbox s.calls calls (s.task j) grows
            le (a.placed j))
    ];
    apart = λ j k n p q. elim (update-cases s.task i t j) [
      | inl e ↦ elim (update-cases s.task i t k) [
        | inl f ↦ cc
        | inr (_, f) ↦ sym e.0 ∙ other n k (ap number_of (sym e.1) ∙ p) (ap number_of (sym f) ∙ q)
      ]
      | inr (_, e) ↦ elim (update-cases s.task i t k) [
        | inl f ↦ sym (sym f.0 ∙ other n j (ap number_of (sym f.1) ∙ q) (ap number_of (sym e) ∙ p))
        | inr (_, f) ↦ a.apart j k n (ap number_of (sym e) ∙ p) (ap number_of (sym f) ∙ q)
      ]
    ];
    generated = Numbered-mono s.calls calls s.accounts le a.generated;
    pending = λ j n p. elim (update-cases s.task i t j) [
      | inl e ↦ elim (new n (ap number_of (sym e.1) ∙ p)) [
        | inl old ↦ a.pending i n old
        | inr last ↦
            subst (λ k. Unused k s.accounts) (sym last)
              (Numbered-Unused s.calls s.accounts a.generated)
      ]
      | inr (_, e) ↦ a.pending j n (ap number_of (sym e) ∙ p)
    ];
  }
    where
      -- Another task with this number is the same.
      other : (n k : ℕ) → number_of t ≡ some n → number_of (s.task k) ≡ some n → i ≡ k
      other n k p q = elim (new n p) [
        | inl old ↦ a.apart i k n old q
        | inr last ↦
            let below = number_of-lt s.statics.shared_sandbox s.calls n (s.task k) (a.placed k) q in
            absurd (omega (arith, last, below))
      ]

  -- An account more, whose number no task has any longer.
  pub Apart-generated :
      (s : Tasks) (n : ℕ) (id : String)
      → Apart s
      → n < s.calls
      → id ≡ decimal n <> ".sandbox"
      → Unused n s.accounts
      → ((j m : ℕ) → number_of (s.task j) ≡ some m → m ≢ n)
      → Apart (record s { accounts = (n, id) ∷ s.accounts })
  Apart-generated s n id a below named fresh gone = record {
    rooted = a.rooted;
    counted = a.counted;
    placed = a.placed;
    apart = a.apart;
    generated = (below, named, fresh, a.generated);
    pending = λ j m p. (gone j m p, a.pending j m p);
  }
