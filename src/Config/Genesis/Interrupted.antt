-- ===== src/Config/Genesis/Interrupted.antt =====
-- What `set_sandbox_genesis_with_config` leaves of the files when it fails.
use near_sandbox_rs.Base.{
  refl, ap, ◌≡◌, ◌⊎◌, inl, inr, String, List, [], ◌∷◌, ◌++◌, Any, Ends, Ended, Ends-bind,
  Ends-weaken,
}
use near_sandbox_rs.Json.{Json}
use near_sandbox_rs.Disk.{Disk}
use near_sandbox_rs.Config.Account
use near_sandbox_rs.Config.Account.{GenesisAccount, SandboxConfig}
use near_sandbox_rs.Config.Genesis.{
  key_file, key_json, save_account_keys, set_sandbox_genesis_with_config,
}
use near_sandbox_rs.Config.Genesis.KeyFiles.{kept_or_key, with_keys}
use near_sandbox_rs.Config.Genesis.Folder.{Files, Holds, with_file, create-Ends, over-Ends}
use near_sandbox_rs.Config.Genesis.Whole.{ComesOf, Rewritten, held_in, overwrite_genesis-Rewritten}

module _ ⦃J : Json⦄ where
  -- The keys of the first accounts are saved, and nothing of the next one, or what a failed write of
  -- its keys leaves.
  abbrev pub SavedPart : Files → List GenesisAccount → Disk J.Bytes → Type 0
  SavedPart held accounts t =
      (front : List GenesisAccount) × (a : GenesisAccount) × (rest : List GenesisAccount)
      × (accounts ≡ front ++ a ∷ rest)
      × (Holds (with_keys held front) t
          ⊎ Holds
              (with_file (with_keys held front) (key_file a)
                (t.left_over (key_file a) (J.write (key_json a))))
              t)

  save-SavedPart :
      (U : String → Disk J.Bytes → Type 0) (accounts : List GenesisAccount) (held : Files)
      → Ends (Holds held) (save_account_keys accounts) (λ _. Any) (λ _. SavedPart held accounts) U
  unfolding save_account_keys kept_or_key
  save-SavedPart U [] held = record { at = λ d p. tt }
  save-SavedPart U (a ∷ rest) held =
      let after = with_file held (key_file a) (J.write (key_json a)) in
      Ends-bind (λ _. Holds (with_file held (key_file a) J.empty)) _ _
        (create-Ends (λ _. SavedPart held (a ∷ rest)) U held _ (key_file a)
          λ e t h. ([], a, rest, refl, inl h))
        λ _.
          Ends-bind (λ _. Holds after) _ _
            (over-Ends (λ _. SavedPart held (a ∷ rest)) U held _ (key_file a) (J.write (key_json a))
              λ e t h. ([], a, rest, refl, inr h))
            λ _.
              Ends-weaken _ (λ x t h. h)
                (λ e t (front, b, more, split, h). (a ∷ front, b, more, ap (λ l. a ∷ l) split, h))
                (λ m t h. h) (save-SavedPart U rest after)

module _ ⦃J : Json⦄ (config : SandboxConfig J.Value) (d : Disk J.Bytes) where
  -- The three places where a call can stop with an error: before genesis.json is created, while it is
  -- written, and among the keys.
  abbrev pub Interrupted : Disk J.Bytes → Type 0
  Interrupted t =
      Holds (held_in config d) t
      ⊎ ((bytes : J.Bytes) × ComesOf config d bytes
          × Holds (with_file (held_in config d) "genesis.json" (t.left_over "genesis.json" bytes))
              t)
      ⊎ ((bytes : J.Bytes) × ComesOf config d bytes
          × SavedPart (with_file (held_in config d) "genesis.json" bytes)
              (Account.default ∷ config.additional_accounts) t)

  -- When `set_sandbox_genesis_with_config` fails, there are three cases: every file is as before; or
  -- genesis.json is what a failed write of the genesis that comes of the one before leaves, and every
  -- other file is as before; or genesis.json was rewritten with that genesis, the keys of the first
  -- accounts were saved, the key file of the next account is as it was then or what a failed write of
  -- its keys leaves, and there is no other change. When it panics, every file is as before.
  pub set_sandbox_genesis_outcomes :
      let r = set_sandbox_genesis_with_config config d in
      Ended (λ _. Any) (λ _. Interrupted) (λ _. Holds (held_in config d)) r.0 r.1
  unfolding set_sandbox_genesis_with_config
  set_sandbox_genesis_outcomes =
      (Ends-bind (λ _. Rewritten config d) _ _
          (overwrite_genesis-Rewritten config d (λ _. Interrupted) (λ _. Holds (held_in config d))
            (λ e t h. inl h) (λ m t h. h) λ e t bytes g h. inr (inl (bytes, g, h)))
          λ _. record {
            at = λ t (bytes, g, h).
                (Ends-weaken _ (λ a u k. k) (λ e u k. inr (inr (bytes, g, k))) (λ m u k. absurd k)
                    (save-SavedPart (λ _ _. ⊥) (Account.default ∷ config.additional_accounts)
                      (with_file (held_in config d) "genesis.json" bytes))).at
                  t h;
          }).at
        d λ name. refl
