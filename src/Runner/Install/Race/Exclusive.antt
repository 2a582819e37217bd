-- ===== src/Runner/Install/Race/Exclusive.antt =====
-- What holds of the processes that look for the binary at once.
use mathlib.Core.Path.{subst₂}
use near_sandbox_rs.Base.{
  ℕ, ◌+◌, Bool, true, false, Option, none, some, ◌≡◌, ◌≢◌, ◌⊎◌, inl, inr, refl, sym, ◌∙◌, subst,
  update-cases, arith,
}
use near_sandbox_rs.Runner.Install.Race.{
  File, missing, whole, Folder, Pc, looking, opening, waiting, locked, searching, fetching,
  unpacking, placing, unlocking, found, gone, released, Move, is_there, not_there, create_lock,
  lock, written, not_written, has_version, no_version, unpack, unpacked, rename, unlock, fail,
  Processes, Step, pick, Reach, at_start, later,
}

-- Whether a process there has the lock.
abbrev pub holds : Pc → Bool
holds locked = true
holds searching = true
holds fetching = true
holds unpacking = true
holds placing = true
holds unlocking = true
holds _ = false

-- What a process there knows of the files.
abbrev Knows : Folder → Pc → Type 0
Knows d searching = d.binary ≡ missing
Knows d fetching = d.binary ≡ missing
Knows d unpacking = d.binary ≡ missing
Knows d placing = (d.binary ≡ missing) × (d.tmp ≡ whole)
Knows d unlocking = d.binary ≡ whole
Knows d found = d.binary ≡ whole
Knows d _ = Unit {0}

-- There is no binary, or a whole one that was installed once.
abbrev pub Sound : Folder → Type 0
Sound d = ((d.binary ≡ missing) × (d.installs ≡ 0)) ⊎ ((d.binary ≡ whole) × (d.installs ≡ 1))

-- What process `i` knows and has.
abbrev Stands : ℕ → Folder → Pc → Type 0
Stands i d p = Knows d p × (holds p ≡ true → d.holder ≡ some i)

Sound-whole : (d : Folder) → Sound d → d.binary ≢ missing → d.binary ≡ whole
Sound-whole d (inl h) n = absurd (n h.0)
Sound-whole d (inr h) n = h.0

-- Without the lock a process knows only of a whole binary.
Knows-mono :
    (d e : Folder) (p : Pc)
    → holds p ≡ false
    → (d.binary ≡ whole → e.binary ≡ whole)
    → Knows d p
    → Knows e p
Knows-mono d e found h k x = k x
Knows-mono d e looking h k x = tt
Knows-mono d e opening h k x = tt
Knows-mono d e waiting h k x = tt
Knows-mono d e gone h k x = tt
Knows-mono d e p h k x = absurd (cc)

-- What a move of `i` from `p` leaves: for itself, and for every other process.
record Moved (i : ℕ) (d e : Folder) (q : Pc) : Type 0 where
  pub sound : Sound e
  pub stands : Stands i e q
  pub others : (j : ℕ) (r : Pc) → i ≢ j → Stands j d r → Stands j e r

-- A move that leaves the folder alone.
looks : (i : ℕ) (d : Folder) (q : Pc) → Sound d → Stands i d q → Moved i d d q
looks i d q s h = record { sound = s; stands = h; others = λ j r n k. k }

-- A move while no other process has the lock.
alone :
    (i : ℕ) (d e : Folder) (q : Pc)
    → ((j : ℕ) → i ≢ j → d.holder ≢ some j)
    → (d.binary ≡ whole → e.binary ≡ whole)
    → Sound e
    → Stands i e q
    → Moved i d e q
alone i d e q others_free keeps s h = record {
  sound = s;
  stands = h;
  others = λ j r n k. by_lock j r n k (holds r) refl;
}
  where
    by_lock : (j : ℕ) (r : Pc) → i ≢ j → Stands j d r → (b : Bool) → holds r ≡ b → Stands j e r
    by_lock j r n k true held = absurd (others_free j n (k.1 held))
    by_lock j r n k false free = (
      Knows-mono d e r free keeps k.0,
      λ held. let never : true ≡ false = sym held ∙ free in absurd (cc),
    )

with_lock : (i : ℕ) (d : Folder) → d.holder ≡ some i → (j : ℕ) → i ≢ j → d.holder ≢ some j
with_lock i d has j n other = let same : i ≡ j = cc in n same

released-free : (p : Pc) (holder : Option ℕ) → holds p ≡ false → released p holder ≡ holder
released-free looking holder h = refl
released-free opening holder h = refl
released-free waiting holder h = refl
released-free found holder h = refl
released-free gone holder h = refl
released-free p holder h = absurd (cc)

fail-Moved :
    (i : ℕ) (d : Folder) (p : Pc)
    → Sound d
    → Stands i d p
    → Moved i d (record d { holder = released p d.holder }) gone
fail-Moved i d p s h = by_lock (holds p) refl
  where
    by_lock : (b : Bool) → holds p ≡ b → Moved i d (record d { holder = released p d.holder }) gone
    by_lock true e = alone i d _ gone (with_lock i d (h.1 e)) (λ w. w) s (tt, λ x. absurd (cc))
    by_lock false e =
        subst (λ x. Moved i d (record d { holder = x }) gone) (sym (released-free p d.holder e))
          (looks i d gone s (tt, λ x. absurd (cc)))

rename-Sound :
    (d : Folder)
    → d.binary ≡ missing
    → d.tmp ≡ whole
    → Sound d
    → Sound (record { binary = d.tmp; tmp = missing; holder = d.holder; installs = d.installs + 1 })
rename-Sound d m w (inl h) = inr (w, omega (arith, h.1))
rename-Sound d m w (inr h) = let never : missing ≡ whole = sym m ∙ h.0 in absurd (cc)

Move-Moved :
    {i : ℕ} {d e : Folder} {p q : Pc} → Move i d p e q → Sound d → Stands i d p → Moved i d e q
Move-Moved {i} {d} (is_there h) s k = looks i d found s (Sound-whole d s h, λ x. absurd (cc))
Move-Moved {i} {d} (not_there h) s k = looks i d opening s (tt, λ x. absurd (cc))
Move-Moved {i} {d} create_lock s k = looks i d waiting s (tt, λ x. absurd (cc))
Move-Moved {i} {d} (lock free) s k =
    alone i d _ locked (λ j n e. let never : none ≡ some j = sym free ∙ e in absurd (cc)) (λ w. w) s
      (tt, λ x. refl)
Move-Moved {i} {d} (written h) s k =
    alone i d _ found (with_lock i d (k.1 refl)) (λ w. w) s (Sound-whole d s h, λ x. absurd (cc))
Move-Moved {i} {d} (not_written h) s k = looks i d searching s (h, k.1)
Move-Moved {i} {d} (has_version h) s k = looks i d unlocking s (Sound-whole d s h, k.1)
Move-Moved {i} {d} (no_version h) s k = looks i d fetching s (h, k.1)
Move-Moved {i} {d} unpack s k =
    alone i d _ unpacking (with_lock i d (k.1 refl)) (λ w. w) s (k.0, k.1)
Move-Moved {i} {d} unpacked s k =
    alone i d _ placing (with_lock i d (k.1 refl)) (λ w. w) s ((k.0, refl), k.1)
Move-Moved {i} {d} rename s k =
    alone i d _ unlocking (with_lock i d (k.1 refl)) (λ w. k.0.1) (rename-Sound d k.0.0 k.0.1 s)
      (k.0.1, k.1)
Move-Moved {i} {d} unlock s k =
    alone i d _ found (with_lock i d (k.1 refl)) (λ w. w) s (k.0, λ x. absurd (cc))
Move-Moved {i} {d} (fail p) s k = fail-Moved i d p s k

record Race (s : Processes) : Type 0 where
  pub sound : Sound s.folder
  pub stands : (i : ℕ) → Stands i s.folder (s.pc i)

Step-Race : {s t : Processes} → Step s t → Race s → Race t
Step-Race {s} (pick i {d} {p} move) r =
    let m = Move-Moved move r.sound (r.stands i) in
    record {
      sound = m.sound;
      stands = λ j. elim (update-cases s.pc i p j) [
        | inl (e, here) ↦ subst₂ (λ x q. Stands x d q) e (sym here) m.stands
        | inr (n, there) ↦ subst (Stands j d) (sym there) (m.others j (s.pc j) n (r.stands j))
      ];
    }

Reach-Race : {tmp : File} {s : Processes} → Reach tmp s → Race s
Reach-Race at_start = record { sound = inl (refl, refl); stands = λ i. (tt, λ x. absurd (cc)) }
Reach-Race (later r step) = Step-Race step (Reach-Race r)

-- One process at a time has the lock; there is no binary, or a whole one that was installed once; and
-- there is one where a process has returned its path.
pub record Orderly (s : Processes) : Type 0 where
  pub exclusive : (i j : ℕ) → holds (s.pc i) ≡ true → holds (s.pc j) ≡ true → i ≡ j
  pub once : Sound s.folder
  pub returned : (i : ℕ) → s.pc i ≡ found → s.folder.binary ≡ whole

-- However many processes look for one version at once, in whatever order they take their steps, and
-- wherever some of them fail or end: one process at a time has the lock, the binary is never there in
-- part, it is installed at most once, and a process that returns its path finds it whole.
pub Reach-Orderly : (tmp : File) (s : Processes) → Reach tmp s → Orderly s
Reach-Orderly tmp s r =
    let h = Reach-Race r in
    record {
      exclusive =
          λ i j p q. let both : some i ≡ some j = sym ((h.stands i).1 p) ∙ (h.stands j).1 q in cc;
      once = h.sound;
      returned = λ i e. (subst (Stands i s.folder) e (h.stands i)).0;
    }
