-- ===== src/Config/Genesis/Prepared.antt =====
-- The files that `neard init` has written, and what writing the configuration over them needs.
use near_sandbox_rs.Base.{
  ◌+◌, ◌<◌, ◌^◌, ◌≡◌, refl, ap, String, none, some, List, [], ◌∷◌, Outcome, ok, err, panic, sym,
  subst, Ends, Ended, Ends-bind, ◌>>=◌, arith,
}
use near_sandbox_rs.Base.Dict
use near_sandbox_rs.Base.Dict.{Dict}
use near_sandbox_rs.ErrorKind.{SandboxConfigError}
use near_sandbox_rs.Json.{Json, IsLawful}
use near_sandbox_rs.Disk.{Disk, Fs, read, create, write}
use near_sandbox_rs.Config.Account.{GenesisAccount, SandboxConfig}
use near_sandbox_rs.Config.Node.{merge_additional, set_sandbox_configs_with_config}
use near_sandbox_rs.Config.Node.Limits.{overwrite-run}
use near_sandbox_rs.Config.Genesis.{
  supply_of, extend_genesis, accounts_to_add, overwrite_genesis, save_account_keys,
  set_sandbox_genesis_with_config,
}
use near_sandbox_rs.Config.Genesis.Extend.{balance_sum, extend_genesis_exact}

module _ ⦃J : Json⦄ where
  -- No file refuses to be created or written.
  abbrev Writable : Disk J.Bytes → Type 0
  Writable d =
      ((name : String) → d.create_error name ≡ none) × ((name : String) → d.write_error name ≡ none)

  -- A genesis to which the accounts of the configuration can be added.
  pub record HasGenesis (config : SandboxConfig J.Value) (d : Disk J.Bytes) : Type 0 where
    pub writable : Writable d
    pub bytes : J.Bytes
    pub genesis : J.Value
    pub fields : J.Map
    pub supply : J.Value
    pub array : J.Value
    pub records : List J.Value
    pub there : Dict.at_key d.files "genesis.json" ≡ some bytes
    pub parses : J.parse bytes ≡ some genesis
    pub is_object : J.as_object genesis ≡ some fields
    pub has_supply : J.map_get fields "total_supply" ≡ some supply
    pub has_records : J.map_get fields "records" ≡ some array
    pub is_array : J.as_array array ≡ some records
    pub fits : supply_of supply + balance_sum (accounts_to_add config) < 2 ^ 128

  pub record IsPrepared (config : SandboxConfig J.Value) (d : Disk J.Bytes) : Type 0 where
    pub has_genesis : HasGenesis config d
    pub node_bytes : J.Bytes
    pub node_config : J.Value
    pub node_there : Dict.at_key d.files "config.json" ≡ some node_bytes
    pub node_parses : J.parse node_bytes ≡ some node_config

  -- config.json is rewritten, and genesis.json is as before.
  pub configs-HasGenesis :
      (env : Dict String) (config : SandboxConfig J.Value) (d : Disk J.Bytes)
      → IsPrepared config d
      → let r = set_sandbox_configs_with_config env config d in
        (r.0 ≡ ok tt) × HasGenesis config r.1
  unfolding set_sandbox_configs_with_config
  configs-HasGenesis env config d p =
      let g = p.has_genesis in
      let ran =
        overwrite-run _ p.node_config p.node_bytes d p.node_there p.node_parses
          (g.writable.0 "config.json") (g.writable.1 "config.json") in
      (
        ap (λ r. r.0) ran,
        subst (HasGenesis config) (sym (ap (λ r. r.1) ran)) (record {
          writable = g.writable;
          bytes = g.bytes;
          genesis = g.genesis;
          fields = g.fields;
          supply = g.supply;
          array = g.array;
          records = g.records;
          there = g.there;
          parses = g.parses;
          is_object = g.is_object;
          has_supply = g.has_supply;
          has_records = g.has_records;
          is_array = g.is_array;
          fits = g.fits;
        }),
      )

  abbrev Works : {A : Type 0} → (Disk J.Bytes → Type 0) → Fs A → Type 0
  Works P m = Ends P m (λ _. P) (λ _ _. ⊥) (λ _ _. ⊥)

  ran_to :
      (r : Outcome SandboxConfigError (Unit {0}) × Disk J.Bytes) (t : Disk J.Bytes)
      → r ≡ (ok tt, t)
      → Writable t
      → Ended (λ _. Writable) (λ _ _. ⊥) (λ _ _. ⊥) r.0 r.1
  ran_to r t e w = subst (λ x. Ended (λ _. Writable) (λ _ _. ⊥) (λ _ _. ⊥) x.0 x.1) (sym e) w

  create-Works :
      (error : String → SandboxConfigError) (name : String) → Works Writable (create error name)
  unfolding create
  create-Works error name = record {
    at = λ d p.
        ran_to (create error name d) (record d { files = Dict.store d.files name J.empty })
          (ground (arith, p.0 name)) p;
  }

  write-Works :
      (error : String → SandboxConfigError) (name : String) (bytes : J.Bytes)
      → Works Writable (write error name bytes)
  unfolding write
  write-Works error name bytes = record {
    at = λ d p.
        ran_to (write error name bytes d) (record d { files = Dict.store d.files name bytes })
          (ground (arith, p.1 name)) p;
  }

  save-Works : (accounts : List GenesisAccount) → Works Writable (save_account_keys accounts)
  unfolding save_account_keys
  save-Works [] = record { at = λ d p. p }
  save-Works (a ∷ rest) =
      Ends-bind (λ _. Writable) _ _ (create-Works _ _)
        λ _. Ends-bind (λ _. Writable) _ _ (write-Works _ _ _) λ _. save-Works rest

  overwrite_genesis-run :
      (config : SandboxConfig J.Value) (d : Disk J.Bytes) (bytes : J.Bytes) (genesis x : J.Value)
      → Dict.at_key d.files "genesis.json" ≡ some bytes
      → J.parse bytes ≡ some genesis
      → extend_genesis genesis (accounts_to_add config) ≡ ok x
      → d.create_error "genesis.json" ≡ none
      → d.write_error "genesis.json" ≡ none
      → let new = J.write (merge_additional config.additional_genesis x) in
        overwrite_genesis config d ≡ (
          ok tt,
          record d {
            files = Dict.store (Dict.store d.files "genesis.json" J.empty) "genesis.json" new;
          },
        )
  unfolding overwrite_genesis read create write ◌>>=◌
  overwrite_genesis-run config d bytes genesis x there parses extends c w = ground arith

  overwrite_genesis-Works :
      IsLawful
      → (config : SandboxConfig J.Value)
      → Ends (HasGenesis config) (overwrite_genesis config) (λ _. Writable) (λ _ _. ⊥) (λ _ _. ⊥)
  overwrite_genesis-Works L config = record {
    at = λ d g.
        let (x, extends, same) =
          extend_genesis_exact L g.genesis g.supply g.array g.fields g.records
            (accounts_to_add config) g.is_object g.has_supply g.has_records g.is_array g.fits in
        ran_to (overwrite_genesis config d) _
          (overwrite_genesis-run config d g.bytes g.genesis x g.there g.parses extends
            (g.writable.0 "genesis.json") (g.writable.1 "genesis.json"))
          g.writable;
  }

  -- The genesis and the keys are written.
  pub genesis-Works :
      IsLawful
      → (config : SandboxConfig J.Value) (d : Disk J.Bytes) → HasGenesis config d
      → (set_sandbox_genesis_with_config config d).0 ≡ ok tt
  unfolding set_sandbox_genesis_with_config
  genesis-Works L config d g =
      only_ok (set_sandbox_genesis_with_config config d).0
        (set_sandbox_genesis_with_config config d).1
        ((Ends-bind (λ _. Writable) _ _ (overwrite_genesis-Works L config) λ _. save-Works _).at d
          g)
    where
      only_ok :
          (r : Outcome SandboxConfigError (Unit {0})) (t : Disk J.Bytes)
          → Ended (λ _. Writable) (λ _ _. ⊥) (λ _ _. ⊥) r t
          → r ≡ ok tt
      only_ok (ok _) t h = refl
      only_ok (err e) t h = absurd h
      only_ok (panic m) t h = absurd h
