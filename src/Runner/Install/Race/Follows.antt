-- ===== src/Runner/Install/Race/Follows.antt =====
-- `ensure_sandbox_bin_with_version` makes the moves of a process, on a host whose calls do to the files
-- what is documented of them.
use near_sandbox_rs.Base.{
  ℕ, ◌+◌, true, false, ◌≡◌, ◌≢◌, refl, sym, subst, ◌⊎◌, inl, inr, String, ◌<>◌, none, some, Outcome,
  ok, err, panic, Ends, Ended, lift,
}
use near_sandbox_rs.ErrorKind.{SandboxError}
use near_sandbox_rs.Json.{Json}
use near_sandbox_rs.Runner.Host.{Host, Machine, Act, Call, call, or_fail}
use near_sandbox_rs.Runner.Install.Given.{Says}
use near_sandbox_rs.Runner.Install.Race.{
  missing, partial, whole, Folder, Pc, looking, Move, Moves, then_move,
}

module _ ⦃J : Json⦄ ⦃H : Host J⦄ where
  -- What is relied on, with `view` for the binary under this path, what is beside it, and the lock on
  -- it, while no other process is at work: what each call does to these if it succeeds and if it fails.
  pub record Acts (i : ℕ) (view : H.os.World → Folder) (path : String) : Type 0 where
    pub there : (w : H.os.World) → H.exists path w ≡ true → (view w).binary ≢ missing
    pub away : (w : H.os.World) → H.exists path w ≡ false → (view w).binary ≡ missing
    pub makes : (dir : String) (w : H.os.World) → view (H.create_dir_all dir w).1 ≡ view w
    pub creates : (name : String) (w : H.os.World) → view (H.create_lock_file name w).1 ≡ view w
    pub locks :
        (file : H.LockFile) (w : H.os.World)
        → (H.lock_exclusive file w).0 ≡ inr tt
        → ((view w).holder ≡ none)
          × (view (H.lock_exclusive file w).1 ≡ record (view w) { holder = some i })
    pub unlocks :
        (file : H.LockFile) (w : H.os.World)
        → (H.unlock file w).0 ≡ inr tt
        → view (H.unlock file w).1 ≡ record (view w) { holder = none }
    pub closes :
        (file : H.LockFile) (w : H.os.World)
        → view (H.close_lock file w) ≡ record (view w) { holder = none }
    pub downloads : (url : String) (w : H.os.World) → view (H.download url w).1 ≡ view w
    pub unpacks :
        (entry : H.Entry) (w : H.os.World)
        → (H.unpack entry (path <> ".tmp") w).0 ≡ inr tt
        → view (H.unpack entry (path <> ".tmp") w).1 ≡ record (view w) { tmp = whole }
    pub permits : (to : String) (w : H.os.World) → view (H.set_executable to w).1 ≡ view w
    pub renames :
        (w : H.os.World)
        → (H.rename (path <> ".tmp") path w).0 ≡ inr tt
        → view (H.rename (path <> ".tmp") path w).1 ≡ record {
          binary = (view w).tmp;
          tmp = missing;
          holder = (view w).holder;
          installs = (view w).installs + 1;
        }
    -- A call that fails changes nothing, except that `unpack` may leave a part of the file.
    pub not_locked :
        (file : H.LockFile) (w : H.os.World) (e : String)
        → (H.lock_exclusive file w).0 ≡ inl e
        → view (H.lock_exclusive file w).1 ≡ view w
    pub not_unlocked :
        (file : H.LockFile) (w : H.os.World) (e : String)
        → (H.unlock file w).0 ≡ inl e
        → view (H.unlock file w).1 ≡ view w
    pub not_unpacked :
        (entry : H.Entry) (w : H.os.World) (e : String)
        → (H.unpack entry (path <> ".tmp") w).0 ≡ inl e
        → (view (H.unpack entry (path <> ".tmp") w).1 ≡ view w)
          ⊎ (view (H.unpack entry (path <> ".tmp") w).1 ≡ record (view w) { tmp = partial })
    pub not_renamed :
        (w : H.os.World) (e : String)
        → (H.rename (path <> ".tmp") path w).0 ≡ inl e
        → view (H.rename (path <> ".tmp") path w).1 ≡ view w

  module _ (i : ℕ) (view : H.os.World → Folder) (start : Folder) where
    -- The process has come to `p`, by moves from where it began.
    abbrev pub At : Pc → Machine H → Type 0
    At p t = Moves i start looking (view t.world) p

    abbrev pub Stopped : Machine H → Type 0
    Stopped t = (p : Pc) × At p t

    abbrev pub Goes :
        {A : Type 0} → (Machine H → Type 0) → Act A → (A → Machine H → Type 0) → Type 0
    Goes P m Q = Ends P m Q (λ _. Stopped) (λ _. Stopped)

    -- Without the variable, at this place.
    abbrev pub Here : Pc → Machine H → Type 0
    Here p t = Says none t × At p t

    -- A world that looks the same.
    pub same_view : (p : Pc) (s t : Machine H) → view t.world ≡ view s.world → At p s → At p t
    same_view p s t e h = subst (λ d. Moves i start looking d p) (sym e) h

    pub moved :
        (p q : Pc) (s t : Machine H) (d : Folder)
        → view t.world ≡ d
        → Move i (view s.world) p d q
        → At p s
        → At q t
    moved p q s t d e m h = subst (λ x. Moves i start looking x q) (sym e) (then_move h m)

    pub or_fail-Goes :
        {A : Type 0} (Q : A → Machine H → Type 0) (error : String → SandboxError) (r : String ⊎ A)
        (t : Machine H)
        → ((e : String) → r ≡ inl e → Stopped t)
        → ((a : A) → r ≡ inr a → Q a t)
        → Ended Q (λ _. Stopped) (λ _. Stopped) (or_fail error r) t
    or_fail-Goes Q error (inl e) t h k = h e refl
    or_fail-Goes Q error (inr a) t h k = k a refl

    -- A call that leaves the view as it is.
    pub call-Here :
        {A : Type 0} (p : Pc) (error : String → SandboxError) (c : Call H.os.World A)
        → ((w : H.os.World) → view (c w).1 ≡ view w)
        → Goes (Here p) (call error c) (λ _. Here p)
    call-Here p error c k = record {
      at = λ s h.
          let t = record s { world = (c s.world).1 } in
          let at_t = same_view p s t (k s.world) h.1 in
          or_fail-Goes (λ _. Here p) error (c s.world).0 t (λ e q. (p, at_t)) (λ a q. (h.0, at_t));
    }

    pub lift-Here :
        {A : Type 0} (p : Pc) (r : Outcome SandboxError A)
        → Goes (Here p) (lift r) (λ a t. (r ≡ ok a) × Here p t)
    lift-Here p (ok a) = record { at = λ s h. (refl, h) }
    lift-Here p (err e) = record { at = λ s h. (p, h.1) }
    lift-Here p (panic m) = record { at = λ s h. (p, h.1) }
