-- ===== src/Runner/Install/Present.antt =====
-- What the search for the node's binary comes to.
use near_sandbox_rs.Base.{
  Bool, true, false, refl, ◌≡◌, ◌⊎◌, inl, inr, String, Option, none, some, Ends-bind, Ends-weaken,
  Ends-assume, Ends-ok, ok, pure, if◌then◌else◌, ◌>>=◌, ◌>>◌,
}
use near_sandbox_rs.Base.Dict
use near_sandbox_rs.Json.{Json}
use near_sandbox_rs.Runner.Host.{Host, Machine, Act, var}
use near_sandbox_rs.Runner.Paths.{◌//◌}
use near_sandbox_rs.Runner.Install.{
  check_for_version, download_version, install_with_version, installable, bin_path, install_locked,
  close_lock, ensure_sandbox_bin_with_version,
}
use near_sandbox_rs.Runner.Install.Given.{IsFiles, Says, Present, ensure-given, ensure-missing}
use near_sandbox_rs.Runner.Install.Keeps.{
  Gives, Keeps, call-Gives, call-Keeps, exists-Gives, download_path-Keeps,
}
use near_sandbox_rs.Runner.Install.Unpacked.{Finds, download_version-Finds}

module _ ⦃J : Json⦄ ⦃H : Host J⦄ where
  module _ {B : Type 0} (Q : B → Machine H → Type 0) (f : String → Act B) (m : Act B) where
    -- The two cases of the variable, in the one that holds.
    unset_case :
        (o : Option String)
        → o ≡ none
        → Gives (Says none) m Q
        → let n : Act B = elim o [ some path ↦ f path | none ↦ m ] in Gives (Says none) n Q
    unset_case none q h = h
    unset_case (some path) q h = absurd (cc)

    unset-Gives :
        Gives (Says none) m Q
        → Gives
            (Says none)
            (var "NEAR_SANDBOX_BIN_PATH" >>= λ o. elim o [ some path ↦ f path | none ↦ m ])
            Q
    unset-Gives h =
        Ends-bind (λ o t. (o ≡ none) × Says none t) _ _ (record { at = λ s p. (p, p) })
          λ o. Ends-assume λ q. unset_case o q h

  -- An answer is only given for a path that is there.
  abbrev Checked : Option String → Machine H → Type 0
  Checked none t = Says none t
  Checked (some path) t = Present path t

  if-Checked :
      (path : String) (there : Bool) (t : Machine H)
      → Says none t
      → H.exists path t.world ≡ there
      → Checked (if there then some path else none) t
  if-Checked path true t p q = q
  if-Checked path false t p q = p

  check_for_version-Checked :
      (version : String) → Gives (Says none) (check_for_version version) Checked
  unfolding check_for_version
  check_for_version-Checked version = unset-Gives Checked _ _ (
      Ends-bind (λ _. Says none) _ _ (download_path-Keeps none version)
        λ dir.
          Ends-bind (λ b t. Says none t × (H.exists (dir // "near-sandbox") t.world ≡ b)) _ _
            (exists-Gives _) λ there. record { at = λ s p. if-Checked _ there s p.0 p.1 })

  bin_path-Keeps : (version : String) → Keeps none (bin_path version)
  unfolding bin_path
  bin_path-Keeps version =
      unset-Gives (λ _. Says none) _ _
        (Ends-bind (λ _. Says none) _ _ (download_path-Keeps none version)
          λ dir. record { at = λ s p. p })

  -- Without a lock, the path is there.
  abbrev Guarded : String → Option H.LockFile → Machine H → Type 0
  Guarded path none t = Says none t × Present path t
  Guarded path (some lock) t = Says none t

  module _ (F : IsFiles) where
    if-Guarded :
        (path : String) (lock : H.LockFile) (written : Bool)
        → Gives
            (λ t. Says none t × (H.exists path t.world ≡ written))
            (if written then (close_lock lock >> pure none) else pure (some lock))
            (Guarded path)
    if-Guarded path lock true =
        Ends-bind (λ _ t. Says none t × Present path t) _ _
          (record { at = λ s p. (p.0, F.closed path lock s.world p.1) })
          λ _. record { at = λ s p. p }
    if-Guarded path lock false = record { at = λ s p. p.0 }

    installable-Guarded : (path : String) → Gives (Says none) (installable path) (Guarded path)
    unfolding installable
    installable-Guarded path =
        Ends-bind (λ b t. Says none t × (H.exists path t.world ≡ b)) _ _ (exists-Gives path)
          λ there. by_test there (
            Ends-bind (λ _. Says none) _ _ (call-Keeps none _ _)
              λ lock.
                Ends-bind (λ _. Says none) _ _ (call-Keeps none _ _)
                  λ _.
                    Ends-bind (λ b t. Says none t × (H.exists path t.world ≡ b)) _ _
                      (exists-Gives path) λ written. if-Guarded path lock written)
      where
        by_test :
            {m : Act (Option H.LockFile)} (there : Bool)
            → Gives (Says none) m (Guarded path)
            → Gives
                (λ t. Says none t × (H.exists path t.world ≡ there))
                (if there then pure none else m)
                (Guarded path)
        by_test true h = record { at = λ s p. p }
        by_test false h = record { at = λ s p. h.at s p.0 }

    install_with_version-Finds : (version : String) → Finds (install_with_version version)
    unfolding install_with_version
    install_with_version-Finds version =
        Ends-bind Checked _ _ (check_for_version-Checked version) λ found. by_answer found
      where
        by_answer :
            (found : Option String)
            → let m : Act String = elim found [
              | some path ↦ pure path
              | none ↦ download_version version
            ] in
              Gives (Checked found) m Present
        by_answer none = download_version-Finds F version
        by_answer (some path) = record { at = λ s p. p }

    -- After an installation the variable names the path.
    abbrev Pinned : String → Machine H → Type 0
    Pinned path t = Present path t × Says (some path) t

    install_locked-Pinned :
        (version : String) (lock : H.LockFile)
        → Gives (Says none) (install_locked version lock) Pinned
    unfolding install_locked
    install_locked-Pinned version lock =
        Ends-bind Present _ _ (install_with_version-Finds version) λ path.
          Ends-bind (λ _. Pinned path) _ _ (record { at = λ s p. (p, refl) })
            λ _.
              Ends-bind (λ _. Pinned path) _ _
                (call-Gives (λ _. Pinned path) _ _
                  λ s a p e. (F.unlocked path lock s.world p.0, p.1))
                λ _.
                  Ends-bind (λ _. Pinned path) _ _
                    (record { at = λ s p. (F.closed path lock s.world p.0, p.1) })
                    λ _. record { at = λ s p. p }

    -- What a search without the variable comes to.
    abbrev pub Settled : String → Machine H → Type 0
    Settled path t = Present path t × (Says none t ⊎ Says (some path) t)

    pub ensure-Settled :
        (version : String) → Gives (Says none) (ensure_sandbox_bin_with_version version) Settled
    unfolding ensure_sandbox_bin_with_version
    ensure-Settled version =
        Ends-bind (λ _. Says none) _ _ (bin_path-Keeps version)
          λ path. Ends-bind (Guarded path) _ _ (installable-Guarded path) λ lock. by_lock path lock
      where
        by_lock :
            (path : String) (lock : Option H.LockFile)
            → let m : Act String = elim lock [
              | none ↦ pure path
              | some held ↦ install_locked version held
            ] in
              Gives (Guarded path lock) m Settled
        by_lock path none = record { at = λ s p. (p.1, inl p.0) }
        by_lock path (some held) =
            Ends-weaken _ (λ path t h. (h.0, inr h.1)) (λ e t h. tt) (λ m t h. tt)
              (install_locked-Pinned version held)

    by_variable :
        (version : String) (s t : Machine H) (path : String) (o : Option String)
        → Says o s
        → ensure_sandbox_bin_with_version version s ≡ (ok path, t)
        → Present path t
    by_variable version s t path none p e = (Ends-ok _ s t path (ensure-Settled version) p e).0
    by_variable version s t path (some given) p e = by_file (H.exists given s.world) refl
      where
        by_file : (b : Bool) → H.exists given s.world ≡ b → Present path t
        by_file true q = let r = ensure-given version given s p q in cc
        by_file false q = let r = ensure-missing version given s p q in absurd (cc)

    -- Where a renamed file is found and ending a lock removes nothing, a search for the binary that
    -- succeeds names a path where there is a file.
    pub ensure-Present :
        (version : String) (s t : Machine H) (path : String)
        → ensure_sandbox_bin_with_version version s ≡ (ok path, t)
        → Present path t
    ensure-Present version s t path e =
        by_variable version s t path (Dict.at_key s.env "NEAR_SANDBOX_BIN_PATH") refl e

    -- Where a renamed file is found and ending a lock removes nothing: if the variable for the path of the
    -- binary is not set, and a search for one version succeeds and sets it, every later search, of any
    -- version, comes to the same path and changes nothing.
    pub ensure_pins :
        (version later : String) (s t : Machine H) (path : String)
        → Says none s
        → ensure_sandbox_bin_with_version version s ≡ (ok path, t)
        → ¬ Says none t
        → ensure_sandbox_bin_with_version later t ≡ (ok path, t)
    ensure_pins version later s t path p e set =
        let h = Ends-ok _ s t path (ensure-Settled version) p e in
        elim h.1 [ inl q ↦ absurd (set q) | inr q ↦ ensure-given later path t q h.0 ]
