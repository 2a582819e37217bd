-- ===== src/Examples/Shared/Steps.antt =====
-- Tasks that share the statics: a step keeps what each of them has.
use near_sandbox_rs.Base.{
  update, update-cases, ◌≢◌, ℕ, ◌+◌, ◌≤◌, ◌<◌, ◌%◌, ◌^◌, Bool, true, false, String, ◌<>◌, Option,
  none, some, inl, inr, decimal, Outcome, ok, err, panic, ◌≡◌, refl, sym, ap, ◌∙◌, subst, arith,
  Ended, Ends, Ends-bind, Ends-weaken,
}
use near_sandbox_rs.ErrorKind.{SandboxError}
use near_sandbox_rs.Json.{Json}
use near_sandbox_rs.Config.Account.{default_genesis_account}
use near_sandbox_rs.Runner.Host.{Host}
use near_sandbox_rs.Examples.Api.{Api}
use near_sandbox_rs.Examples.Shared.{
  SharedEnv, Statics, Test, init, fetch_add, create_numbered, kept, get_or_init, get_shared_env,
}
use near_sandbox_rs.Examples.Shared.Keeps.{Holds, Rooted, init-Leaves, create_numbered-Leaves}
use near_sandbox_rs.Examples.Shared.Apart.{
  FromCell, Placed, number_of, Grows, Apart, Grows-refl, Apart-update, Apart-generated,
}
use near_sandbox_rs.Examples.Shared.Accounts.{Unused}
use near_sandbox_rs.Examples.Shared.Tasks.{
  ready, numbered, running, Tasks, joined, made, generated, to, Task, Step, share, start, number,
  create, elsewhere,
}

module _ ⦃J : Json⦄ ⦃H : Host J⦄ ⦃A : Api H⦄ where
  -- What a call leaves of the statics, however it ends.
  abbrev pub Kept : Option SharedEnv → ℕ → Statics → Type 0
  Kept c n t = Rooted t.shared_sandbox × Grows c t.shared_sandbox × (t.account_counter ≡ n)

  abbrev pub Joins : Bool → Option SharedEnv → Statics → Type 0
  Joins shared none t = Unit {0}
  Joins shared (some env) t =
      (env.root_acc ≡ default_genesis_account) × FromCell shared env t.shared_sandbox

  Holds-Kept : (c : Option SharedEnv) (n : ℕ) (t : Statics) → Rooted c → Holds c n t → Kept c n t
  Holds-Kept c n t r h = (subst Rooted (sym h.0) r, subst (Grows c) (sym h.0) (Grows-refl c), h.1)

  abbrev pub Joining : Bool → Option SharedEnv → ℕ → Test (Option SharedEnv) → Type 0
  Joining shared c n m =
      Ends (Holds c n) m (λ o t. Joins shared o t × Kept c n t) (λ _. Kept c n) (λ _. Kept c n)

  pub init-Joining : (c : Option SharedEnv) (n fuel : ℕ) → Rooted c → Joining false c n (init fuel)
  init-Joining c n fuel r =
      Ends-weaken _ (λ o t h. (by_env o t h.0, Holds-Kept c n t r h.1))
        (λ e t h. Holds-Kept c n t r h) (λ m t h. Holds-Kept c n t r h) (init-Leaves c n fuel)
    where
      by_env : (o : Option SharedEnv) (t : Statics) → Rooted o → Joins false o t
      by_env none t h = tt
      by_env (some env) t h = (h, tt)

  get_or_init-Joining :
      (c : Option SharedEnv) (n fuel : ℕ) → Rooted c → Joining true c n (get_or_init fuel c)
  get_or_init-Joining (some env) n fuel r = record {
    at = λ s h. ((r, h.0), Holds-Kept (some env) n s r h);
  }
  get_or_init-Joining none n fuel r =
      Ends-bind (λ o t. Rooted o × Holds none n t) _ _
        (Ends-weaken _ (λ o t h. h) (λ e t h. Holds-Kept none n t r h)
          (λ m t h. Holds-Kept none n t r h) (init-Leaves none n fuel))
        λ o. record { at = λ s h. by_env o s h.0 h.1 }
    where
      by_env :
          (o : Option SharedEnv) (s : Statics)
          → Rooted o
          → Holds none n s
          → Ended
              (λ o t. Joins true o t × Kept none n t)
              (λ _. Kept none n)
              (λ _. Kept none n)
              (kept o s).0
              (kept o s).1
      by_env none s q h = (tt, Holds-Kept none n s r h)
      by_env (some env) s q h = ((q, refl), (q, tt, h.1))

  pub get_shared_env-Joining :
      (c : Option SharedEnv) (n fuel : ℕ) → Rooted c → Joining true c n (get_shared_env fuel)
  unfolding get_shared_env
  get_shared_env-Joining c n fuel r = record {
    at = λ s h.
        subst
          (λ x.
            let e = get_or_init fuel x s in
            Ended (λ o t. Joins true o t × Kept c n t) (λ _. Kept c n) (λ _. Kept c n) e.0 e.1)
          (sym h.0) ((get_or_init-Joining c n fuel r).at s h);
  }

  -- `share` and `start`: the task has no number yet.
  pub joined-Placed :
      (shared : Bool) (c : Option SharedEnv) (n calls : ℕ)
      (r : Outcome SandboxError (Option SharedEnv)) (t : Statics)
      → Ended (λ o t. Joins shared o t × Kept c n t) (λ _. Kept c n) (λ _. Kept c n) r t
      → Kept c n t
        × Placed t.shared_sandbox calls (joined shared r)
        × (number_of (joined shared r) ≡ none)
  joined-Placed shared c n calls (ok none) t h = (h.1, tt, refl)
  joined-Placed shared c n calls (ok (some env)) t h = (h.1, (h.0.0, h.0.1, tt), refl)
  joined-Placed shared c n calls (err e) t h = (h, tt, refl)
  joined-Placed shared c n calls (panic m) t h = (h, tt, refl)

  -- Another step than `number` and `create` of the task that it is about.
  join_step :
      (s : Tasks) (i : ℕ) (shared : Bool) (m : Test (Option SharedEnv))
      → Joining shared s.statics.shared_sandbox s.statics.account_counter m
      → Apart s
      → Apart (to s i (m s.statics).1 (joined shared (m s.statics).0))
  join_step s i shared m j a =
      let (k, placed, none_yet) =
        joined-Placed shared s.statics.shared_sandbox s.statics.account_counter s.calls
          (m s.statics).0 (m s.statics).1 (j.at s.statics (refl, refl)) in
      Apart-update s i s.calls (m s.statics).1 _ a k.0 k.1 (k.2 ∙ a.counted) (omega arith) placed
        λ n e. let never : none ≡ some n = sym none_yet ∙ e in absurd (cc)

  -- An account that is generated is named after the number.
  abbrev NamedAs : ℕ → Outcome SandboxError (String × A.Signer) → Type 0
  NamedAs n (ok (id, signer)) = id ≡ decimal n <> ".sandbox"
  NamedAs n (err e) = Unit {0}
  NamedAs n (panic m) = Unit {0}

  made-Placed :
      (shared : Bool) (env : SharedEnv) (c : Option SharedEnv) (n k calls : ℕ)
      (r : Outcome SandboxError (String × A.Signer)) (t : Statics)
      → Placed c calls (running shared env (numbered n))
      → Ended
          (λ x t. (x.0 ≡ decimal n <> "." <> env.root_acc) × Holds c k t)
          (λ _. Holds c k)
          (λ _. Holds c k)
          r
          t
      → Holds c k t
        × Placed c calls (made shared env n r)
        × (number_of (made shared env n r) ≡ none)
        × NamedAs n r
  made-Placed shared env c n k calls (ok (id, signer)) t p h =
      (h.1, (p.0, p.1, tt), refl, h.0 ∙ ap (λ root. decimal n <> "." <> root) p.0)
  made-Placed shared env c n k calls (err e) t p h = (h, tt, refl, tt)
  made-Placed shared env c n k calls (panic m) t p h = (h, tt, refl, tt)

  take_step :
      (s : Tasks) (i n : ℕ) (shared : Bool) (env : SharedEnv) (after : Statics)
      → s.task i ≡ running shared env ready
      → fetch_add s.statics ≡ (ok n, after)
      → s.calls + 1 ≤ 2 ^ 64
      → Apart s
      → Apart (record {
        statics = after;
        calls = s.calls + 1;
        task = update s.task i (running shared env (numbered n));
        accounts = s.accounts;
      })
  unfolding fetch_add
  take_step s i n shared env after at took b a =
      let cell : after.shared_sandbox ≡ s.statics.shared_sandbox =
        ap (λ r. r.1.shared_sandbox) (sym took) in
      let counter : after.account_counter ≡ (s.statics.account_counter + 1) % 2 ^ 64 =
        ap (λ r. r.1.account_counter) (sym took) in
      let same : s.statics.account_counter ≡ n = cc (ap (λ r. r.0) took) in
      let last : n ≡ s.calls = omega (arith, same, b, a.counted) in
      let before = subst (Placed s.statics.shared_sandbox s.calls) at (a.placed i) in
      Apart-update s i (s.calls + 1) after (running shared env (numbered n)) a
        (subst Rooted (sym cell) a.rooted)
        (subst (Grows s.statics.shared_sandbox) (sym cell) (Grows-refl s.statics.shared_sandbox))
        (omega (arith, counter, a.counted)) (omega arith)
        (
          before.0,
          subst (FromCell shared env) (sym cell) before.1,
          subst (λ k. k < s.calls + 1) (sym last) (omega arith),
        )
        λ m e. let taken : n ≡ m = cc in inr (sym taken ∙ last)

  -- The account goes on record.
  generated_step :
      (s : Tasks) (n : ℕ) (r : Outcome SandboxError (String × A.Signer))
      → NamedAs n r
      → n < s.calls
      → Unused n s.accounts
      → ((j m : ℕ) → number_of (s.task j) ≡ some m → m ≢ n)
      → Apart s
      → Apart (record s { accounts = generated n r s.accounts })
  generated_step s n (ok (id, signer)) named below fresh gone a =
      Apart-generated s n id a below named fresh gone
  generated_step s n (err e) named below fresh gone a = a
  generated_step s n (panic m) named below fresh gone a = a

  -- No task but this one has its number.
  number_gone :
      (s : Tasks) (i n : ℕ) (t : Task)
      → number_of (s.task i) ≡ some n
      → number_of t ≡ none
      → Apart s
      → (j m : ℕ) → number_of (update s.task i t j) ≡ some m
      → m ≢ n
  number_gone s i n t had has a j m p same = elim (update-cases s.task i t j) [
    | inl e ↦ let never : none ≡ some m = sym has ∙ ap number_of (sym e.1) ∙ p in absurd (cc)
    | inr (differs, e) ↦ differs (a.apart i j n had (ap number_of (sym e) ∙ p ∙ ap some same))
  ]

  create_step :
      (s : Tasks) (i n balance : ℕ) (shared : Bool) (env : SharedEnv)
      → s.task i ≡ running shared env (numbered n)
      → Apart s
      → let r = create_numbered env balance n s.statics in
        Apart
          (record (to s i r.1 (made shared env n r.0)) { accounts = generated n r.0 s.accounts })
  create_step s i n balance shared env at a =
      let c = s.statics.shared_sandbox in
      let k = s.statics.account_counter in
      let r = create_numbered env balance n s.statics in
      let before = subst (Placed c s.calls) at (a.placed i) in
      let (h, placed, done, named) =
        made-Placed shared env c n k s.calls r.0 r.1 before
          ((create_numbered-Leaves c k env balance n).at s.statics (refl, refl)) in
      generated_step (to s i r.1 (made shared env n r.0)) n r.0 named before.2
        (a.pending i n (ap number_of at))
        (number_gone s i n (made shared env n r.0) (ap number_of at) done a)
        (Apart-update s i s.calls r.1 (made shared env n r.0) a (subst Rooted (sym h.0) a.rooted)
          (subst (Grows c) (sym h.0) (Grows-refl c)) (h.1 ∙ a.counted) (omega arith)
          (subst (λ x. Placed x s.calls (made shared env n r.0)) (sym h.0) placed)
          λ x e. let never : none ≡ some x = sym done ∙ e in absurd (cc))

  pub Step-Apart : {s t : Tasks} → Step s t → t.calls ≤ 2 ^ 64 → Apart s → Apart t
  Step-Apart {s} (share i fuel idles) b a =
      join_step s i true _ (get_shared_env-Joining _ _ fuel a.rooted) a
  Step-Apart {s} (start i fuel idles) b a = join_step s i false _ (init-Joining _ _ fuel a.rooted) a
  Step-Apart {s} (number i n shared env after at took) b a =
      take_step s i n shared env after at took b a
  Step-Apart {s} (create i n balance shared env at) b a = create_step s i n balance shared env at a
  Step-Apart {s} (elsewhere m) b a = record {
    rooted = a.rooted;
    counted = a.counted;
    placed = a.placed;
    apart = a.apart;
    generated = a.generated;
    pending = a.pending;
  }
