-- ===== src/Config/Genesis/KeyFiles.antt =====
-- The files that saving the keys of accounts leaves.
use near_sandbox_rs.Base.{
  String, Option, some, List, [], ◌∷◌, str_eq, if◌then◌else◌, Any, Ends, Ends-bind,
}
use near_sandbox_rs.Json.{Json}
use near_sandbox_rs.Disk.{Fs}
use near_sandbox_rs.Config.Account.{GenesisAccount}
use near_sandbox_rs.Config.Genesis.{key_json, key_file, save_account_keys}
use near_sandbox_rs.Config.Genesis.Folder.{Files, Holds, with_file, create-Ends, over-Ends}

module _ ⦃J : Json⦄ where
  -- What a file holds after the keys are saved, from what it held before: the keys of the last
  -- account whose file it is, if there is one.
  unfoldable pub kept_or_key : List GenesisAccount → String → Option J.Bytes → Option J.Bytes
  kept_or_key [] name held = held
  kept_or_key (a ∷ rest) name held =
      kept_or_key rest name (if str_eq (key_file a) name then some (J.write (key_json a)) else held)

  -- A computation that takes folders like the one to folders like the other, if it succeeds.
  abbrev pub Leaves : Files → Fs (Unit {0}) → Files → Type 0
  Leaves held m after = Ends (Holds held) m (λ _. Holds after) (λ _. Any) (λ _. Any)

  abbrev pub with_keys : Files → List GenesisAccount → Files
  with_keys held accounts name = kept_or_key accounts name (held name)

  pub save-Leaves :
      (accounts : List GenesisAccount) (held : Files)
      → Leaves held (save_account_keys accounts) (with_keys held accounts)
  unfolding save_account_keys kept_or_key
  save-Leaves [] held = record { at = λ d p. p }
  save-Leaves (a ∷ rest) held =
      Ends-bind (λ _. Holds (with_file held (key_file a) J.empty)) _ _
        (create-Ends (λ _. Any) (λ _. Any) held _ (key_file a) λ e t h. tt)
        λ _.
          Ends-bind (λ _. Holds (with_file held (key_file a) (J.write (key_json a)))) _ _
            (over-Ends (λ _. Any) (λ _. Any) held _ (key_file a) (J.write (key_json a)) λ e t h. tt)
            λ _. save-Leaves rest (with_file held (key_file a) (J.write (key_json a)))
