-- ===== src/Runner/Install/Given.antt =====
-- The environment variable that says where the node's binary is.
use near_sandbox_rs.Base.{
  true, false, refl, ◌≡◌, inr, String, ◌<>◌, Option, none, some, ok, err, ◌>>=◌,
}
use near_sandbox_rs.Base.Dict
use near_sandbox_rs.ErrorKind.{binary_error}
use near_sandbox_rs.Json.{Json}
use near_sandbox_rs.Runner.Host.{Host, Machine}
use near_sandbox_rs.Runner.Install.{installable, bin_path, ensure_sandbox_bin_with_version}

module _ ⦃J : Json⦄ ⦃H : Host J⦄ where
  -- What is relied on: a file that was renamed is found under its new name, and ending a lock
  -- removes nothing.
  pub record IsFiles : Type 0 where
    pub renamed :
        (from to : String) (w : H.os.World)
        → (H.rename from to w).0 ≡ inr tt
        → H.exists to (H.rename from to w).1 ≡ true
    pub unlocked :
        (path : String) (lock : H.LockFile) (w : H.os.World)
        → H.exists path w ≡ true
        → H.exists path (H.unlock lock w).1 ≡ true
    pub closed :
        (path : String) (lock : H.LockFile) (w : H.os.World)
        → H.exists path w ≡ true
        → H.exists path (H.close_lock lock w) ≡ true

  -- What the variable for the path of the binary says.
  abbrev pub Says : Option String → Machine H → Type 0
  Says path s = Dict.at_key s.env "NEAR_SANDBOX_BIN_PATH" ≡ path

  abbrev pub Present : String → Machine H → Type 0
  Present path s = H.exists path s.world ≡ true

  -- The variable decides, whatever the version.
  bin_path-given :
      (version path : String) (s : Machine H)
      → Says (some path) s
      → Present path s
      → bin_path version s ≡ (ok path, s)
  unfolding bin_path ◌>>=◌
  bin_path-given version path s given there = rw (given, there) refl

  installable-there :
      (path : String) (s : Machine H) → Present path s → installable path s ≡ (ok none, s)
  unfolding installable ◌>>=◌
  installable-there path s there = rw there refl

  pub ensure-given :
      (version path : String) (s : Machine H)
      → Says (some path) s
      → Present path s
      → ensure_sandbox_bin_with_version version s ≡ (ok path, s)
  unfolding ensure_sandbox_bin_with_version ◌>>=◌
  ensure-given version path s given there =
      rw (bin_path-given version path s given there, installable-there path s there) refl

  pub ensure-missing :
      (version path : String) (s : Machine H)
      → Says (some path) s
      → H.exists path s.world ≡ false
      → ensure_sandbox_bin_with_version version s
        ≡ (err (binary_error (path <> " does not exists")), s)
  unfolding ensure_sandbox_bin_with_version bin_path ◌>>=◌
  ensure-missing version path s given away = rw (given, away) refl
