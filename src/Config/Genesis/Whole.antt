-- ===== src/Config/Genesis/Whole.antt =====
-- What `set_sandbox_genesis_with_config` leaves of the files of a node.
use near_sandbox_rs.Base.{
  true, refl, ap, ◌≡◌, ◌∙◌, String, Option, some, List, [], ◌∷◌, ◌++◌, str_eq, if◌then◌else◌, ok,
  Any, Ends, Ends-bind, Ends-weaken, Ends-assume, Ends-ok, arith,
}
use near_sandbox_rs.Base.Dict
use near_sandbox_rs.Base.Dict.{Dict}
use near_sandbox_rs.ErrorKind.{SandboxConfigError}
use near_sandbox_rs.Json.{Json}
use near_sandbox_rs.Disk.{Disk}
use near_sandbox_rs.Config.Account
use near_sandbox_rs.Config.Account.{GenesisAccount, SandboxConfig}
use near_sandbox_rs.Config.Node.{parsed, merge_additional}
use near_sandbox_rs.Config.Genesis.{
  key_file, key_json, accounts_to_add, extend_genesis, overwrite_genesis, save_account_keys,
  set_sandbox_genesis_with_config,
}
use near_sandbox_rs.Config.Genesis.KeyFiles.{kept_or_key, with_keys, save-Leaves}
use near_sandbox_rs.Config.Genesis.Folder.{
  Holds, with_file, create-Ends, over-Ends, lift-Ends, read-Ends,
}

module _ ⦃J : Json⦄ (config : SandboxConfig J.Value) (d : Disk J.Bytes) where
  -- The text of the new genesis: it comes of the one that was there.
  pub record ComesOf (bytes : J.Bytes) : Type 0 where
    pub old : J.Bytes
    pub genesis : J.Value
    pub extended : J.Value
    pub was : Dict.at_key d.files "genesis.json" ≡ some old
    pub reads : J.parse old ≡ some genesis
    pub extends : extend_genesis genesis (accounts_to_add config) ≡ ok extended
    pub written : bytes ≡ J.write (merge_additional config.additional_genesis extended)

  abbrev pub held_in : String → Option J.Bytes
  held_in name = Dict.at_key d.files name

  pub parsed-eq-ok : (bytes : J.Bytes) (v : J.Value) → parsed bytes ≡ ok v → J.parse bytes ≡ some v
  parsed-eq-ok bytes v h = ground arith

  abbrev pub Rewritten : Disk J.Bytes → Type 0
  Rewritten t = (bytes : J.Bytes) × ComesOf bytes × Holds (with_file held_in "genesis.json" bytes) t

  -- The genesis is rewritten; or nothing has changed, or genesis.json is what a failed write leaves.
  pub overwrite_genesis-Rewritten :
      (R : SandboxConfigError → Disk J.Bytes → Type 0) (U : String → Disk J.Bytes → Type 0)
      → ((e : SandboxConfigError) (t : Disk J.Bytes) → Holds held_in t → R e t)
      → ((m : String) (t : Disk J.Bytes) → Holds held_in t → U m t)
      → ((e : SandboxConfigError) (t : Disk J.Bytes) (bytes : J.Bytes)
          → ComesOf bytes
          → Holds (with_file held_in "genesis.json" (t.left_over "genesis.json" bytes)) t
          → R e t)
      → Ends (Holds held_in) (overwrite_genesis config) (λ _. Rewritten) R U
  unfolding overwrite_genesis
  overwrite_genesis-Rewritten R U same stopped broken =
      Ends-bind (λ bytes t. (held_in "genesis.json" ≡ some bytes) × Holds held_in t) _ _
        (read-Ends R U held_in "genesis.json" same)
        λ old. Ends-assume λ was.
          Ends-bind (λ v t. (parsed old ≡ ok v) × Holds held_in t) _ _
            (lift-Ends R U _ same stopped)
            λ genesis. Ends-assume λ reads.
              Ends-bind
                (λ v t. (extend_genesis genesis (accounts_to_add config) ≡ ok v) × Holds held_in t)
                _ _ (lift-Ends R U _ same stopped)
                λ extended. Ends-assume λ extends.
                  let bytes : J.Bytes =
                    J.write (merge_additional config.additional_genesis extended) in
                  Ends-bind (λ _. Holds (with_file held_in "genesis.json" J.empty)) _ _
                    (create-Ends R U held_in _ "genesis.json" same)
                    λ _.
                      let comes : ComesOf bytes = record {
                        old = old;
                        genesis = genesis;
                        extended = extended;
                        was = was;
                        reads = parsed-eq-ok old genesis reads;
                        extends = extends;
                        written = refl;
                      } in
                      Ends-weaken _ (λ a t p. (bytes, comes, p)) (λ e t h. h) (λ m t h. h)
                        (over-Ends R U held_in _ "genesis.json" bytes λ e t. broken e t bytes comes)

  abbrev Saved : Disk J.Bytes → Type 0
  Saved t =
      (bytes : J.Bytes) × ComesOf bytes
      × Holds
          (with_keys (with_file held_in "genesis.json" bytes)
            (Account.default ∷ config.additional_accounts))
          t

  save-Saved :
      (bytes : J.Bytes)
      → ComesOf bytes
      → Ends
          (Holds (with_file held_in "genesis.json" bytes))
          (save_account_keys (Account.default ∷ config.additional_accounts))
          (λ _. Saved)
          (λ _. Any)
          (λ _. Any)
  save-Saved bytes g =
      Ends-weaken _ (λ a t p. (bytes, g, p)) (λ e t h. tt) (λ m t h. tt)
        (save-Leaves (Account.default ∷ config.additional_accounts)
          (with_file held_in "genesis.json" bytes))

  set_sandbox_genesis-Saved :
      Ends
        (Holds held_in)
        (set_sandbox_genesis_with_config config)
        (λ _. Saved)
        (λ _. Any)
        (λ _. Any)
  unfolding set_sandbox_genesis_with_config
  set_sandbox_genesis-Saved =
      Ends-bind (λ _. Rewritten) _ _
        (overwrite_genesis-Rewritten (λ _. Any) (λ _. Any) (λ e t h. tt) (λ m t h. tt)
          λ e t b c h. tt)
        λ _. record { at = λ t p. (save-Saved p.0 p.1).at t p.2 }

  -- When the genesis and the keys are written without an error, the new genesis comes of the one
  -- that was there by adding the accounts and merging what the configuration adds, and each file then
  -- holds the keys of the last account that it is named after, or else, if it is genesis.json, the new
  -- genesis, or else what it held.
  pub set_sandbox_genesis_exact :
      (e : Disk J.Bytes)
      → set_sandbox_genesis_with_config config d ≡ (ok tt, e)
      → (bytes : J.Bytes) × ComesOf bytes
        × ((name : String)
            → Dict.at_key e.files name
              ≡ kept_or_key
                  (Account.default ∷ config.additional_accounts)
                  name
                  (if str_eq "genesis.json" name then some bytes else Dict.at_key d.files name))
  set_sandbox_genesis_exact e h = Ends-ok _ d e tt set_sandbox_genesis-Saved (λ name. refl) h

  last_key :
      (front : List GenesisAccount) (a : GenesisAccount) (name : String) (held : Option J.Bytes)
      → str_eq (key_file a) name ≡ true
      → kept_or_key (front ++ a ∷ []) name held ≡ some (J.write (key_json a))
  unfolding kept_or_key
  last_key [] a name held h = rw h refl
  last_key (b ∷ front) a name held h = last_key front a name _ h

  -- When `set_sandbox_genesis_with_config` succeeds and the last configured account has a key file that
  -- is called genesis.json, as the one of an account named genesis is, genesis.json holds the keys of
  -- this account.
  pub set_sandbox_genesis-clobbers :
      (e : Disk J.Bytes) (front : List GenesisAccount) (a : GenesisAccount)
      → set_sandbox_genesis_with_config config d ≡ (ok tt, e)
      → config.additional_accounts ≡ front ++ a ∷ []
      → str_eq (key_file a) "genesis.json" ≡ true
      → Dict.at_key e.files "genesis.json" ≡ some (J.write (key_json a))
  set_sandbox_genesis-clobbers e front a h last named =
      (set_sandbox_genesis_exact e h).2 "genesis.json"
      ∙ ap
          (λ more.
            kept_or_key (Account.default ∷ more) "genesis.json"
              (some (set_sandbox_genesis_exact e h).0))
          last
      ∙ last_key (Account.default ∷ front) a "genesis.json" _ named
