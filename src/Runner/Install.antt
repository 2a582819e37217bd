-- ===== src/Runner/Install.antt =====
-- src/runner/mod.rs: finding the node's binary, and installing it under a lock.
pub mod Silent
pub mod Given
pub mod Keeps
pub mod Unpacked
pub mod Present
pub mod Atomic
pub mod Race
use near_sandbox_rs.Base.{
  Bool, ◌⊎◌, inl, inr, String, ◌<>◌, Option, none, some, List, [], ◌∷◌, if◌then◌else◌, ◌&&◌, str_eq,
  false, ok_or, expect, Outcome, pure, fail, lift, ◌>>=◌, ◌>>◌,
}
use near_sandbox_rs.ErrorKind.{
  SandboxError, binary_error, unsupported_platform_error, download_error, install_error,
  file_error as sandbox_file_error,
}
use near_sandbox_rs.Json.{Json}
use near_sandbox_rs.Runner.Host.{Host, Machine, Act, call, exists, var, set_var, or_fail, or_panic}
use near_sandbox_rs.Runner.Paths.{bin_url, version_dir, ◌//◌}

-- The version that `lib.rs` names.
abbrev pub default_near_sandbox_version : String
default_near_sandbox_version = "2.10.7"

-- Whether the last part of an entry's path is the name of the binary.
abbrev pub is_binary : Option String → Bool
is_binary none = false
is_binary (some name) = str_eq name "near-sandbox"

module _ ⦃J : Json⦄ ⦃H : Host J⦄ where
  -- A call whose failure panics.
  abbrev pub call_expect : {A : Type 0} → String → (H.os.World → (String ⊎ A) × H.os.World) → Act A
  call_expect message c s = let r = c s.world in (or_panic message r.0, record s { world = r.1 })

  abbrev pub base_dir : Outcome SandboxError String
  base_dir =
      if H.global_install
      then expect H.home_dir "could not retrieve home_dir"
      else Outcome.ok H.out_dir

  -- The folder of a version, which is there afterwards.
  unfoldable pub download_path : String → Act String
  unfolding version_dir
  download_path version = do
    base ← lift base_dir
    there ← exists (version_dir base version)
    if there
        then pure tt
        else call_expect "could not create download path"
            (H.create_dir_all (version_dir base version))
    pure (version_dir base version)

  unfoldable pub check_for_version : String → Act (Option String)
  check_for_version version = do
    path ← var "NEAR_SANDBOX_BIN_PATH"
    elim path [
      | some bin_path ↦ pure (some bin_path)
      | none ↦ do
        dir ← download_path version
        there ← exists (dir // "near-sandbox")
        pure (if there then some (dir // "near-sandbox") else none)
    ]

  -- Unpacking beside the destination, and renaming.
  unfoldable pub install_entry : H.Entry → String → Act String
  install_entry entry dest = do
    call install_error (H.unpack entry (dest <> ".tmp"))
    call sandbox_file_error (H.set_executable (dest <> ".tmp"))
    call sandbox_file_error (H.rename (dest <> ".tmp") dest)
    pure dest

  -- The loop over the entries of the archive.
  unfoldable pub install_entries : List (String ⊎ H.Entry) → String → Act String
  unfolding install_entry
  install_entries [] dest = fail (install_error "near-sandbox binary not found in archive")
  install_entries (inl e ∷ rest) dest = fail (install_error e)
  install_entries (inr entry ∷ rest) dest = do
    name ← lift (or_fail install_error (H.entry_name entry))
    if is_binary name && H.is_file entry
        then install_entry entry dest
        else install_entries rest dest

  unfoldable pub download_version : String → Act String
  unfolding install_entries
  download_version version = do
    url ← λ s. (
      ok_or (bin_url s.env H.target version) (
          unsupported_platform_error
            "only linux-x86_64, linux-aarch64, and darwin-arm64 are supported"),
      s,
    )
    body ← call download_error (H.download url)
    dir ← download_path version
    entries ← lift (or_fail install_error (H.entries body))
    install_entries entries (dir // "near-sandbox")

  unfoldable pub install_with_version : String → Act String
  unfolding check_for_version download_version
  install_with_version version = do
    found ← check_for_version version
    elim found [ some path ↦ pure path | none ↦ download_version version ]

  abbrev pub close_lock : H.LockFile → Act (Unit {0})
  close_lock lock s = (Outcome.ok tt, record s { world = H.close_lock lock s.world })

  -- The lock, if there is something to install. It is dropped if there is not.
  unfoldable pub installable : String → Act (Option H.LockFile)
  installable bin_path = do
    there ← exists bin_path
    if there then pure none else do
      lock ← call sandbox_file_error (H.create_lock_file (bin_path <> ".lock"))
      call sandbox_file_error (H.lock_exclusive lock)
      written ← exists bin_path
      if written then (close_lock lock >> pure none) else pure (some lock)

  unfoldable pub bin_path : String → Act String
  bin_path version = do
    path ← var "NEAR_SANDBOX_BIN_PATH"
    elim path [
      | some given ↦ do
        there ← exists given
        if there then pure given else fail (binary_error (given <> " does not exists"))
      | none ↦ do dir ← download_path version; pure (dir // "near-sandbox")
    ]

  -- What is done with the lock: installing, and setting the variable.
  unfoldable pub install_locked : String → H.LockFile → Act String
  install_locked version lock = do
    path ← install_with_version version
    set_var "NEAR_SANDBOX_BIN_PATH" path
    call sandbox_file_error (H.unlock lock)
    close_lock lock
    pure path

  unfoldable pub ensure_sandbox_bin_with_version : String → Act String
  unfolding bin_path installable install_locked
  ensure_sandbox_bin_with_version version = do
    path ← bin_path version
    lock ← installable path
    elim lock [ none ↦ pure path | some held ↦ install_locked version held ]

  unfoldable pub install : Act String
  unfolding ensure_sandbox_bin_with_version
  install = ensure_sandbox_bin_with_version default_near_sandbox_version
