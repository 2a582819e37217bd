-- ===== src/Runner/Install/Unpacked.antt =====
-- A download that succeeds leaves the binary where it says.
use near_sandbox_rs.Base.{
  ◌⊎◌, inl, inr, String, none, List, [], ◌∷◌, Ends-bind, Ends-if, ok_or, ◌&&◌,
}
use near_sandbox_rs.Json.{Json}
use near_sandbox_rs.Runner.Host.{Host, Act}
use near_sandbox_rs.Runner.Paths.{bin_url}
use near_sandbox_rs.Runner.Install.{is_binary, install_entry, install_entries, download_version}
use near_sandbox_rs.Runner.Install.Given.{IsFiles, Says, Present}
use near_sandbox_rs.Runner.Install.Keeps.{
  Gives, call-Gives, call-Keeps, lift-Gives, download_path-Keeps,
}

module _ ⦃J : Json⦄ ⦃H : Host J⦄ where
  -- The path is there.
  abbrev pub Finds : Act String → Type 0
  Finds m = Gives (Says none) m Present

  module _ (F : IsFiles) where
    install_entry-Finds : (entry : H.Entry) (dest : String) → Finds (install_entry entry dest)
    unfolding install_entry
    install_entry-Finds entry dest =
        Ends-bind (λ _. Says none) _ _ (call-Keeps none _ _)
          λ _.
            Ends-bind (λ _. Says none) _ _ (call-Keeps none _ _)
              λ _.
                Ends-bind (λ _. Present dest) _ _
                  (call-Gives (λ _. Present dest) _ _ λ s a p e. F.renamed _ dest s.world e)
                  λ _. record { at = λ s p. p }

    install_entries-Finds :
        (entries : List (String ⊎ H.Entry)) (dest : String) → Finds (install_entries entries dest)
    unfolding install_entries
    install_entries-Finds [] dest = record { at = λ s p. tt }
    install_entries-Finds (inl e ∷ rest) dest = record { at = λ s p. tt }
    install_entries-Finds (inr entry ∷ rest) dest =
        Ends-bind (λ _. Says none) _ _ (lift-Gives _)
          λ name.
            Ends-if (is_binary name && H.is_file entry) _ _ (install_entry-Finds entry dest)
              (install_entries-Finds rest dest)

    pub download_version-Finds : (version : String) → Finds (download_version version)
    unfolding download_version
    download_version-Finds version =
        Ends-bind (λ _. Says none) _ _
          (record {
            at = λ s p.
                (lift-Gives {P = Says none} (ok_or (bin_url s.env H.target version) _)).at s p;
          })
          λ url.
            Ends-bind (λ _. Says none) _ _ (call-Keeps none _ _)
              λ body.
                Ends-bind (λ _. Says none) _ _ (download_path-Keeps none version)
                  λ dir.
                    Ends-bind (λ _. Says none) _ _ (lift-Gives _)
                      λ entries. install_entries-Finds entries _
