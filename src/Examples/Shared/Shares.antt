-- ===== src/Examples/Shared/Shares.antt =====
-- Tasks that share the statics: the shared environment is one.
use near_sandbox_rs.Base.{
  update, ℕ, ◌+◌, Bool, true, false, String, ◌<>◌, Option, some, inl, inr, decimal, Outcome, ok,
  err, panic, ◌≡◌, refl, sym, ap, subst, Ended, update-cases,
}
use near_sandbox_rs.ErrorKind.{SandboxError}
use near_sandbox_rs.Json.{Json}
use near_sandbox_rs.Runner.Host.{Host, Machine}
use near_sandbox_rs.Examples.Api.{Api}
use near_sandbox_rs.Examples.Shared.{
  SharedEnv, Statics, Test, fetch_add, create_numbered, get_shared_env,
}
use near_sandbox_rs.Examples.Shared.Keeps.{Holds, Rooted, create_numbered-Leaves}
use near_sandbox_rs.Examples.Shared.Apart.{FromCell, Placed, Grows, Grows-refl, FromCell-mono}
use near_sandbox_rs.Examples.Shared.Tasks.{
  numbered, running, Tasks, joined, made, to, Step, share, start, number, create, elsewhere, Stage,
  Task, Reach, at_start, later, idle, ended,
}
use near_sandbox_rs.Examples.Shared.Steps.{
  Joining, init-Joining, get_shared_env-Joining, joined-Placed,
}

module _ ⦃J : Json⦄ ⦃H : Host J⦄ ⦃A : Api H⦄ where
  -- A task that has the shared environment has the one in the cell.
  abbrev Owns : Option SharedEnv → Task → Type 0
  Owns c idle = Unit {0}
  Owns c ended = Unit {0}
  Owns c (running shared env stage) = FromCell shared env c

  record Shares (s : Tasks) : Type 0 where
    pub rooted : Rooted s.statics.shared_sandbox
    pub owns : (i : ℕ) → Owns s.statics.shared_sandbox (s.task i)

  Owns-mono : (c d : Option SharedEnv) (t : Task) → Grows c d → Owns c t → Owns d t
  Owns-mono c d idle g h = tt
  Owns-mono c d ended g h = tt
  Owns-mono c d (running shared env stage) g h = FromCell-mono shared env c d g h

  Shares-update :
      (s : Tasks) (i calls : ℕ) (after : Statics) (t : Task)
      → Shares s
      → Rooted after.shared_sandbox
      → Grows s.statics.shared_sandbox after.shared_sandbox
      → Owns after.shared_sandbox t
      → Shares (record {
        statics = after;
        calls = calls;
        task = update s.task i t;
        accounts = s.accounts;
      })
  Shares-update s i calls after t h rooted grows owns = record {
    rooted = rooted;
    owns = λ j. elim (update-cases s.task i t j) [
      | inl e ↦ subst (Owns after.shared_sandbox) (sym e.1) owns
      | inr e ↦
          subst (Owns after.shared_sandbox) (sym e.1)
            (Owns-mono s.statics.shared_sandbox after.shared_sandbox (s.task j) grows (h.owns j))
    ];
  }

  -- A step that leaves the cell as it is.
  Shares-same :
      (s : Tasks) (i calls : ℕ) (after : Statics) (t : Task)
      → Shares s
      → after.shared_sandbox ≡ s.statics.shared_sandbox
      → Owns s.statics.shared_sandbox t
      → Shares (record {
        statics = after;
        calls = calls;
        task = update s.task i t;
        accounts = s.accounts;
      })
  Shares-same s i calls after t h same owns =
      Shares-update s i calls after t h (subst Rooted (sym same) h.rooted)
        (subst (Grows s.statics.shared_sandbox) (sym same) (Grows-refl s.statics.shared_sandbox))
        (subst (λ c. Owns c t) (sym same) owns)

  joined_step :
      (s : Tasks) (i : ℕ) (shared : Bool) (m : Test (Option SharedEnv))
      → Joining shared s.statics.shared_sandbox s.statics.account_counter m
      → Shares s
      → Shares (to s i (m s.statics).1 (joined shared (m s.statics).0))
  joined_step s i shared m j h =
      let (k, placed, none_yet) =
        joined-Placed shared s.statics.shared_sandbox s.statics.account_counter 0 (m s.statics).0
          (m s.statics).1 (j.at s.statics (refl, refl)) in
      Shares-update s i s.calls (m s.statics).1 _ h k.0 k.1
        (Placed-Owns (m s.statics).1.shared_sandbox (joined shared (m s.statics).0) placed)
    where
      Placed-Owns : (c : Option SharedEnv) (t : Task) → Placed c 0 t → Owns c t
      Placed-Owns c idle p = tt
      Placed-Owns c ended p = tt
      Placed-Owns c (running shared env stage) p = p.1

  made-Owns :
      (shared : Bool) (env : SharedEnv) (c : Option SharedEnv) (n k : ℕ)
      (r : Outcome SandboxError (String × A.Signer)) (t : Statics)
      → FromCell shared env c
      → Ended
          (λ x t. (x.0 ≡ decimal n <> "." <> env.root_acc) × Holds c k t)
          (λ _. Holds c k)
          (λ _. Holds c k)
          r
          t
      → (t.shared_sandbox ≡ c) × Owns c (made shared env n r)
  made-Owns shared env c n k (ok (id, signer)) t p h = (h.1.0, p)
  made-Owns shared env c n k (err e) t p h = (h.0, tt)
  made-Owns shared env c n k (panic m) t p h = (h.0, tt)

  Step-Shares : {s t : Tasks} → Step s t → Shares s → Shares t
  unfolding fetch_add
  Step-Shares {s} (share i fuel idles) h =
      joined_step s i true _ (get_shared_env-Joining _ _ fuel h.rooted) h
  Step-Shares {s} (start i fuel idles) h =
      joined_step s i false _ (init-Joining _ _ fuel h.rooted) h
  Step-Shares {s} (number i n shared env after at took) h =
      Shares-same s i (s.calls + 1) after (running shared env (numbered n)) h
        (ap (λ r. r.1.shared_sandbox) (sym took))
        (subst (Owns s.statics.shared_sandbox) at (h.owns i))
  Step-Shares {s} (create i n balance shared env at) h =
      let c = s.statics.shared_sandbox in
      let k = s.statics.account_counter in
      let r = create_numbered env balance n s.statics in
      let (same, owns) =
        made-Owns shared env c n k r.0 r.1 (subst (Owns c) at (h.owns i))
          ((create_numbered-Leaves c k env balance n).at s.statics (refl, refl)) in
      let after = Shares-same s i s.calls r.1 (made shared env n r.0) h same owns in
      record { rooted = after.rooted; owns = after.owns }
  Step-Shares {s} (elsewhere m) h = record { rooted = h.rooted; owns = h.owns }

  Reach-Shares : {m : Machine H} {s : Tasks} → Reach m s → Shares s
  Reach-Shares at_start = record { rooted = tt; owns = λ i. tt }
  Reach-Shares (later r step) = Step-Shares step (Reach-Shares r)

  -- Whenever two tasks have got the shared environment, in whatever order all tasks take their steps,
  -- it is the same one, and asking for it again returns it and starts nothing.
  pub env_shared :
      (m : Machine H) (s : Tasks) (i j fuel : ℕ) (a b : SharedEnv) (p q : Stage)
      → Reach m s
      → s.task i ≡ running true a p
      → s.task j ≡ running true b q
      → (a ≡ b) × (get_shared_env fuel s.statics ≡ (ok (some a), s.statics))
  unfolding get_shared_env
  env_shared m s i j fuel a b p q r e f =
      let h = Reach-Shares r in
      let c = s.statics.shared_sandbox in
      let x = subst (Owns c) e (h.owns i) in
      let y = subst (Owns c) f (h.owns j) in let same : a ≡ b = cc in (same, rw x refl)
