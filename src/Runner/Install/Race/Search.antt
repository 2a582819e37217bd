-- ===== src/Runner/Install/Race/Search.antt =====
-- The search for the binary of a version makes the moves of one process.
use near_sandbox_rs.Base.{
  ℕ, Bool, true, false, ◌≡◌, refl, sym, ap, ◌∙◌, ◌⊎◌, inl, inr, String, ◌<>◌, Option, none, some,
  Outcome, ok, Ended, Ends-bind, Ends-if, Ends-assume, pure, if◌then◌else◌, ◌>>=◌, ◌>>◌,
}
use near_sandbox_rs.ErrorKind.{SandboxError, file_error as sandbox_file_error}
use near_sandbox_rs.Json.{Json}
use near_sandbox_rs.Runner.Host.{Host, Machine, Act, call, exists, var, or_panic}
use near_sandbox_rs.Runner.Paths.{version_dir, ◌//◌}
use near_sandbox_rs.Runner.Install.{
  base_dir, call_expect, download_path, installable, close_lock, bin_path,
}
use near_sandbox_rs.Runner.Install.Given.{Says}
use near_sandbox_rs.Runner.Install.Race.{
  Folder, Pc, looking, opening, waiting, locked, searching, found, is_there, not_there, create_lock,
  lock, written, not_written,
}
use near_sandbox_rs.Runner.Install.Race.Follows.{
  Acts, At, Stopped, Goes, Here, same_view, moved, or_fail-Goes, lift-Here,
}

module _ ⦃J : Json⦄ ⦃H : Host J⦄ (i : ℕ) (view : H.os.World → Folder) (start : Folder)
    (base version : String) (known : base_dir ≡ ok base)
    (A : Acts i view (version_dir base version // "near-sandbox")) where
  abbrev path : String
  path = version_dir base version // "near-sandbox"

  abbrev Stay : Pc → {X : Type 0} → Act X → (X → Machine H → Type 0) → Type 0
  Stay p m Q = Goes i view start (Here i view start p) m Q

  abbrev Hold : Pc → Machine H → Type 0
  Hold = Here i view start

  make_dir-Stay :
      (p : Pc) (dir : String)
      → Stay p (call_expect "could not create download path" (H.create_dir_all dir)) (λ _. Hold p)
  make_dir-Stay p dir = record {
    at = λ s h. by_call (H.create_dir_all dir s.world).0 s h.0 (
        same_view i view start p s (record s { world = (H.create_dir_all dir s.world).1 })
          (A.makes dir s.world) h.1);
  }
    where
      by_call :
          (r : String ⊎ Unit {0}) (s : Machine H)
          → Says none s
          → At i view start p (record s { world = (H.create_dir_all dir s.world).1 })
          → let o : Outcome SandboxError (Unit {0}) = or_panic "could not create download path" r in
            Ended
              (λ _. Hold p)
              (λ _. Stopped i view start)
              (λ _. Stopped i view start)
              o
              (record s { world = (H.create_dir_all dir s.world).1 })
      by_call (inl e) s n h = (p, h)
      by_call (inr _) s n h = (n, h)

  -- The folder of the version, wherever the process is.
  pub download_path-Stay :
      (p : Pc)
      → Stay p (download_path version) (λ dir t. (dir ≡ version_dir base version) × Hold p t)
  unfolding download_path
  download_path-Stay p = Ends-bind _ _ _ (lift-Here i view start p base_dir) λ base'.
      Ends-assume λ e.
        let same : version_dir base' version ≡ version_dir base version =
          ap (λ b. version_dir b version) (ok_injective base' base (sym e ∙ known)) in
        Ends-bind (λ _. Hold p) _ _ (record { at = λ s h. h })
          λ there.
            Ends-bind (λ _. Hold p) _ _
              (Ends-if there _ _ (record { at = λ s h. h }) (make_dir-Stay p _))
              λ _. record { at = λ s h. (same, h) }
    where
      ok_injective : (a b : String) → ◌≡◌ {A = Outcome SandboxError String} (ok a) (ok b) → a ≡ b
      ok_injective a b h = cc

  -- The variable is not set.
  pub unset_case :
      {B : Type 0} (p : Pc) (Q : B → Machine H → Type 0) (f : String → Act B) (m : Act B)
      → Stay p m Q
      → Stay p (var "NEAR_SANDBOX_BIN_PATH" >>= λ o. elim o [ some bin ↦ f bin | none ↦ m ]) Q
  unset_case p Q f m k =
      Ends-bind (λ o t. (o ≡ none) × Hold p t) _ _ (record { at = λ s h. (h.0, h) })
        λ o. Ends-assume λ e. by_case o e
    where
      by_case :
          (o : Option String)
          → o ≡ none
          → let n : Act _ = elim o [ some bin ↦ f bin | none ↦ m ] in Stay p n Q
      by_case none e = k
      by_case (some bin) e = absurd (cc)

  pub bin_path-Stay : Stay looking (bin_path version) (λ bin t. (bin ≡ path) × Hold looking t)
  unfolding bin_path
  bin_path-Stay = unset_case looking _ _ _ (
      Ends-bind _ _ _ (download_path-Stay looking)
        λ dir. Ends-assume λ e. record { at = λ s h. (ap (λ d. d // "near-sandbox") e, h) })

  -- What a test of the path says.
  abbrev pub Tested : Pc → Bool → Machine H → Type 0
  Tested p b t = Hold p t × (H.exists path t.world ≡ b)

  pub exists-Tested : (p : Pc) → Stay p (exists path) (Tested p)
  exists-Tested p = record { at = λ s h. (h, refl) }

  lock_file-Goes :
      Goes i view start
        (Tested looking false)
        (call sandbox_file_error (H.create_lock_file (path <> ".lock")))
        (λ _. Hold waiting)
  lock_file-Goes = record {
    at = λ s h.
        let t = record s { world = (H.create_lock_file (path <> ".lock") s.world).1 } in
        let away =
          moved i view start looking opening s s (view s.world) refl
            (not_there (A.away s.world h.1)) h.0.1 in
        let at_t = same_view i view start opening s t (A.creates (path <> ".lock") s.world) away in
        or_fail-Goes i view start (λ _. Hold waiting) _
          (H.create_lock_file (path <> ".lock") s.world).0 t (λ e q. (opening, at_t))
          λ a q.
            (h.0.0, moved i view start opening waiting t t (view t.world) refl create_lock at_t);
  }

  lock-Goes :
      (file : H.LockFile)
      → Stay waiting (call sandbox_file_error (H.lock_exclusive file)) (λ _. Hold locked)
  lock-Goes file = record {
    at = λ s h.
        let t = record s { world = (H.lock_exclusive file s.world).1 } in
        or_fail-Goes i view start (λ _. Hold locked) _ (H.lock_exclusive file s.world).0 t
          (λ e q. (waiting, same_view i view start waiting s t (A.not_locked file s.world e q) h.1))
          λ a q.
            let (free, held) = A.locks file s.world q in
            (h.0, moved i view start waiting locked s t _ held (lock free) h.1);
  }

  -- Without a lock there is a path; with one there is something to install.
  abbrev pub Got : Option H.LockFile → Machine H → Type 0
  Got none t = At i view start found t
  Got (some file) t = Hold searching t

  written-Goes :
      (file : H.LockFile) (b : Bool)
      → Goes i view start
          (Tested locked b)
          (if b then (close_lock file >> pure none) else pure (some file))
          Got
  written-Goes file true =
      Ends-bind (λ _. At i view start found) _ _
        (record {
          at = λ s h.
              moved i view start locked found s (record s { world = H.close_lock file s.world }) _
                (A.closes file s.world) (written (A.there s.world h.1)) h.0.1;
        })
        λ _. record { at = λ s h. h }
  written-Goes file false = record {
    at = λ s h. (
      h.0.0,
      moved i view start locked searching s s (view s.world) refl (not_written (A.away s.world h.1))
          h.0.1,
    );
  }

  pub installable-Goes : Stay looking (installable path) Got
  unfolding installable
  installable-Goes = Ends-bind (Tested looking) _ _ (exists-Tested looking) λ there.
      by_test there _ (
        Ends-bind (λ _. Hold waiting) _ _ lock_file-Goes
          λ file.
            Ends-bind (λ _. Hold locked) _ _ (lock-Goes file)
              λ _. Ends-bind (Tested locked) _ _ (exists-Tested locked) λ b. written-Goes file b)
    where
      by_test :
          (there : Bool) (m : Act (Option H.LockFile))
          → Goes i view start (Tested looking false) m Got
          → Goes i view start (Tested looking there) (if there then pure none else m) Got
      by_test true m k = record {
        at = λ s h.
            moved i view start looking found s s (view s.world) refl
              (is_there (A.there s.world h.1)) h.0.1;
      }
      by_test false m k = k
