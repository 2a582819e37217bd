-- ===== src/Runner/Install/Race/Refines.antt =====
-- Installing the binary of a version, and with it the whole search, makes the moves of one process.
use near_sandbox_rs.Base.{
  ℕ, Bool, true, false, ◌≡◌, refl, sym, ap, subst, ◌∙◌, ◌⊎◌, inl, inr, String, ◌<>◌, Option, none,
  some, List, [], ◌∷◌, ◌&&◌, ok, Ended, Ends-bind, Ends-if, Ends-weaken, Ends-assume, pure,
  if◌then◌else◌, ◌>>=◌,
}
use near_sandbox_rs.ErrorKind.{install_error, file_error as sandbox_file_error}
use near_sandbox_rs.Json.{Json}
use near_sandbox_rs.Runner.Host.{Host, Machine, Act, call, exists}
use near_sandbox_rs.Runner.Paths.{version_dir, ◌//◌}
use near_sandbox_rs.Runner.Install.{
  base_dir, is_binary, check_for_version, install_entry, install_entries, download_version,
  install_with_version, installable, install_locked, ensure_sandbox_bin_with_version,
}
use near_sandbox_rs.Runner.Install.Given.{Says}
use near_sandbox_rs.Runner.Install.Race.{
  Folder, Pc, looking, searching, fetching, unpacking, placing, unlocking, found, has_version,
  no_version, unpack, unpacked, rename, unlock, Moves, stay, then_move,
}
use near_sandbox_rs.Runner.Install.Race.Follows.{
  Acts, At, Stopped, Goes, Here, same_view, moved, or_fail-Goes, call-Here, lift-Here,
}
use near_sandbox_rs.Runner.Install.Race.Search.{
  download_path-Stay, unset_case, bin_path-Stay, Tested, exists-Tested, Got, installable-Goes,
}

module _ ⦃J : Json⦄ ⦃H : Host J⦄ (i : ℕ) (view : H.os.World → Folder) (start : Folder)
    (base version : String) (known : base_dir ≡ ok base)
    (A : Acts i view (version_dir base version // "near-sandbox")) where
  abbrev path : String
  path = version_dir base version // "near-sandbox"

  abbrev Hold : Pc → Machine H → Type 0
  Hold = Here i view start

  abbrev Stay : Pc → {X : Type 0} → Act X → (X → Machine H → Type 0) → Type 0
  Stay p m Q = Goes i view start (Hold p) m Q

  -- The answer of `check_for_version`.
  abbrev Known : Option String → Machine H → Type 0
  Known none t = Hold fetching t
  Known (some bin) t = Hold unlocking t

  check_for_version-Known : Stay searching (check_for_version version) Known
  unfolding check_for_version
  check_for_version-Known = unset_case i view start base version known A searching Known _ _ (
      Ends-bind _ _ _ (download_path-Stay i view start base version known A searching) λ dir.
        Ends-assume λ e.
          subst
            (λ d.
              Goes i view start (Hold searching)
                (exists (d // "near-sandbox") >>= λ there.
                  pure (if there then some (d // "near-sandbox") else none))
                Known)
            (sym e)
            (Ends-bind _ _ _ (exists-Tested i view start base version known A searching)
              λ there. by_test there))
    where
      by_test :
          (there : Bool)
          → Goes i view start
              (Tested i view start base version known A searching there)
              (pure (if there then some path else none))
              Known
      by_test true = record {
        at = λ s h. (
          h.0.0,
          moved i view start searching unlocking s s (view s.world) refl
              (has_version (A.there s.world h.1)) h.0.1,
        );
      }
      by_test false = record {
        at = λ s h. (
          h.0.0,
          moved i view start searching fetching s s (view s.world) refl
              (no_version (A.away s.world h.1)) h.0.1,
        );
      }

  unpack-Goes :
      (entry : H.Entry)
      → Stay fetching (call install_error (H.unpack entry (path <> ".tmp"))) (λ _. Hold placing)
  unpack-Goes entry = record {
    at = λ s h.
        let t = record s { world = (H.unpack entry (path <> ".tmp") s.world).1 } in
        or_fail-Goes i view start (λ _. Hold placing) _ (H.unpack entry (path <> ".tmp") s.world).0
          t
          (λ e q. elim (A.not_unpacked entry s.world e q) [
            | inl same ↦ (fetching, same_view i view start fetching s t same h.1)
            | inr part ↦ (unpacking, moved i view start fetching unpacking s t _ part unpack h.1)
          ])
          λ a q. (
            h.0,
            subst (λ d. Moves i start looking d placing) (sym (A.unpacks entry s.world q))
                (then_move (then_move h.1 unpack) unpacked),
          );
  }

  rename-Goes :
      Stay placing (call sandbox_file_error (H.rename (path <> ".tmp") path)) (λ _. Hold unlocking)
  rename-Goes = record {
    at = λ s h.
        let t = record s { world = (H.rename (path <> ".tmp") path s.world).1 } in
        or_fail-Goes i view start (λ _. Hold unlocking) _ (H.rename (path <> ".tmp") path s.world).0
          t (λ e q. (placing, same_view i view start placing s t (A.not_renamed s.world e q) h.1))
          λ a q. (h.0, moved i view start placing unlocking s t _ (A.renames s.world q) rename h.1);
  }

  install_entry-Goes :
      (entry : H.Entry) → Stay fetching (install_entry entry path) (λ _. Hold unlocking)
  unfolding install_entry
  install_entry-Goes entry =
      Ends-bind (λ _. Hold placing) _ _ (unpack-Goes entry)
        λ _.
          Ends-bind (λ _. Hold placing) _ _ (call-Here i view start placing _ _ (A.permits _))
            λ _. Ends-bind (λ _. Hold unlocking) _ _ rename-Goes λ _. record { at = λ s h. h }

  install_entries-Goes :
      (entries : List (String ⊎ H.Entry))
      → Stay fetching (install_entries entries path) (λ _. Hold unlocking)
  unfolding install_entries
  install_entries-Goes [] = record { at = λ s h. (fetching, h.1) }
  install_entries-Goes (inl e ∷ rest) = record { at = λ s h. (fetching, h.1) }
  install_entries-Goes (inr entry ∷ rest) =
      Ends-bind _ _ _ (lift-Here i view start fetching _) λ name. Ends-assume λ _.
        Ends-if (is_binary name && H.is_file entry) _ _ (install_entry-Goes entry)
          (install_entries-Goes rest)

  download_version-Goes : Stay fetching (download_version version) (λ _. Hold unlocking)
  unfolding download_version
  download_version-Goes =
      Ends-bind (λ _. Hold fetching) _ _
        (record {
          at = λ s h.
              (Ends-weaken _ (λ a t k. k.1) (λ e t k. k) (λ m t k. k)
                  (lift-Here i view start fetching _)).at
                s h;
        })
        λ url.
          Ends-bind (λ _. Hold fetching) _ _ (call-Here i view start fetching _ _ (A.downloads url))
            λ body.
              Ends-bind _ _ _ (download_path-Stay i view start base version known A fetching) λ dir.
                Ends-assume λ e. Ends-bind _ _ _ (lift-Here i view start fetching _) λ entries.
                  Ends-assume λ _.
                    subst
                      (λ d.
                        Stay fetching (install_entries entries (d // "near-sandbox"))
                          (λ _. Hold unlocking))
                      (sym e) (install_entries-Goes entries)

  install-Goes : Stay searching (install_with_version version) (λ _. Hold unlocking)
  unfolding install_with_version
  install-Goes = Ends-bind Known _ _ check_for_version-Known λ o. by_answer o
    where
      by_answer :
          (o : Option String)
          → let m : Act String = elim o [ some bin ↦ pure bin | none ↦ download_version version ] in
            Goes i view start (Known o) m (λ _. Hold unlocking)
      by_answer none = download_version-Goes
      by_answer (some bin) = record { at = λ s h. h }

  -- The lock has been given back.
  abbrev Freed : Machine H → Type 0
  Freed t = At i view start found t × ((view t.world).holder ≡ none)

  unlock-Goes :
      (file : H.LockFile)
      → Goes i view start
          (At i view start unlocking)
          (call sandbox_file_error (H.unlock file))
          (λ _. Freed)
  unlock-Goes file = record {
    at = λ s h.
        let t = record s { world = (H.unlock file s.world).1 } in
        or_fail-Goes i view start (λ _. Freed) _ (H.unlock file s.world).0 t
          (λ e q.
            (unlocking, same_view i view start unlocking s t (A.not_unlocked file s.world e q) h))
          λ a q. (
            moved i view start unlocking found s t _ (A.unlocks file s.world q) unlock h,
            ap (λ d. d.holder) (A.unlocks file s.world q),
          );
  }

  install_locked-Goes :
      (file : H.LockFile)
      → Stay searching (install_locked version file) (λ _. At i view start found)
  unfolding install_locked
  install_locked-Goes file =
      Ends-bind (λ _. Hold unlocking) _ _ install-Goes
        λ bin.
          Ends-bind (λ _. At i view start unlocking) _ _ (record { at = λ s h. h.1 })
            λ _.
              Ends-bind (λ _. Freed) _ _ (unlock-Goes file)
                λ _.
                  Ends-bind (λ _. At i view start found) _ _
                    (record {
                      at = λ s h.
                          let same : record (view s.world) { holder = none } ≡ view s.world =
                            ap (λ x. record (view s.world) { holder = x }) (sym h.1) in
                          same_view i view start found s
                            (record s { world = H.close_lock file s.world })
                            (A.closes file s.world ∙ same) h.0;
                    })
                    λ _. record { at = λ s h. h }

  ensure-Goes : Stay looking (ensure_sandbox_bin_with_version version) (λ _. At i view start found)
  unfolding ensure_sandbox_bin_with_version
  ensure-Goes = Ends-bind _ _ _ (bin_path-Stay i view start base version known A) λ bin.
      Ends-assume λ e.
        Ends-bind (Got i view start base version known A) _ _
          (subst (λ b. Stay looking (installable b) (Got i view start base version known A)) (sym e)
            (installable-Goes i view start base version known A))
          λ file. by_lock bin file
    where
      by_lock :
          (bin : String) (file : Option H.LockFile)
          → let m : Act String = elim file [
            | none ↦ pure bin
            | some held ↦ install_locked version held
          ] in
            Goes i view start
              (Got i view start base version known A file)
              m
              (λ _. At i view start found)
      by_lock bin none = record { at = λ s h. h }
      by_lock bin (some held) = install_locked-Goes held

-- On a host whose calls do to the binary, the file beside it and the lock what is documented of them,
-- and where no variable names a binary: a search for the binary of a version makes moves of one
-- process, from the first test on. If it returns, they have come to where a path is found; if it fails
-- or panics, to some place.
pub ensure_refines :
    ⦃J : Json⦄ ⦃H : Host J⦄ (i : ℕ) (view : H.os.World → Folder) (base version : String)
    (s : Machine H)
    → base_dir ≡ ok base
    → Acts i view (version_dir base version // "near-sandbox")
    → Says none s
    → let d = view s.world in
      let r = ensure_sandbox_bin_with_version version s in
      Ended (λ _. At i view d found) (λ _. Stopped i view d) (λ _. Stopped i view d) r.0 r.1
ensure_refines i view base version s known A unset =
    (ensure-Goes i view (view s.world) base version known A).at s (unset, stay)
