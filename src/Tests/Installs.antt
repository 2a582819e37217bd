-- ===== src/Tests/Installs.antt =====
-- The theorems on unpacking and on names, at an archive that can be unpacked on a disk where nothing can
-- be renamed.
use near_sandbox_rs.Base.{◌≡◌, refl, false, inl, inr, [], ◌∷◌, err, ◌>>=◌}
use near_sandbox_rs.ErrorKind.{file_error as sandbox_file_error}
use near_sandbox_rs.Json.Tree.{tree_json}
use near_sandbox_rs.Runner.Host.{Host, Machine}
use near_sandbox_rs.Runner.Paths.{normalize_name}
use near_sandbox_rs.Runner.Names.{has_slash, normalize_name_safe}
use near_sandbox_rs.Runner.Install.{install_entries, install_entry}
use near_sandbox_rs.Runner.Install.Atomic.{IsAtomic, install_entries_atomic}
use near_sandbox_rs.Tests.Hosts.{test_host}

abbrev full_host : Host tree_json
full_host = record test_host { rename = λ from to w. (inl "disk full", w) }

abbrev full_machine : Machine full_host
full_machine = record {
  world = 0;
  env = [];
  registry = record { pids = []; installed = false; killed = [] };
  probes = [];
  events = [];
}

full_host-IsAtomic : IsAtomic ⦃H = full_host⦄
full_host-IsAtomic = record {
  unpacked = λ entry to path w h. refl;
  permitted = λ to path w. refl;
  not_renamed = λ from to path e w h. refl;
}

install_fails :
    install_entries ⦃H = full_host⦄
      (inr "README" ∷ inr "near-sandbox" ∷ [])
      "/out/near-sandbox"
      full_machine
    ≡ (err (sandbox_file_error "disk full"), full_machine)
unfolding install_entries install_entry ◌>>=◌
install_fails = refl

install_entries_atomic_example :
    full_host.exists "/out/near-sandbox" 0 ≡ full_host.exists "/out/near-sandbox" 0
install_entries_atomic_example =
    install_entries_atomic ⦃H = full_host⦄ full_host-IsAtomic
      (inr "README" ∷ inr "near-sandbox" ∷ []) "/out/near-sandbox" full_machine full_machine
      (sandbox_file_error "disk full") install_fails

normalize_name_safe_example :
    (has_slash (normalize_name "release/2.10") ≡ false)
    × (normalize_name (normalize_name "release/2.10") ≡ normalize_name "release/2.10")
normalize_name_safe_example = normalize_name_safe "release/2.10"
