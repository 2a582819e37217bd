-- ===== src/Disk.antt =====
-- The files of a folder, and what may go wrong with them: `std::fs` as the program uses it.
use near_sandbox_rs.Base.{String, Option, none, some, ok, err, Exec}
use near_sandbox_rs.Base.Dict
use near_sandbox_rs.Base.Dict.{Dict}
use near_sandbox_rs.ErrorKind.{SandboxConfigError}
use near_sandbox_rs.Json.{Json}

-- For each name, the error that creating or writing the file runs into, if any; and what a write that
-- fails leaves in the file of what it was to write, which may be anything.
pub record Disk (B : Type 0) : Type 0 where
  pub files : Dict B
  pub create_error : String → Option String
  pub write_error : String → Option String
  pub left_over : String → B → B

module _ ⦃J : Json⦄ where
  abbrev pub Fs : Type 0 → Type 0
  Fs = Exec (Disk J.Bytes) SandboxConfigError

  -- `File::open` and the bytes behind it
  unfoldable pub read : (String → SandboxConfigError) → String → Fs J.Bytes
  read error name d = elim (Dict.at_key d.files name) [
    | none ↦ (err (error "No such file or directory (os error 2)"), d)
    | some bytes ↦ (ok bytes, d)
  ]

  -- `File::create` leaves an empty file.
  unfoldable pub create : (String → SandboxConfigError) → String → Fs (Unit {0})
  create error name d = elim (d.create_error name) [
    | some e ↦ (err (error e), d)
    | none ↦ (ok tt, record d { files = Dict.store d.files name J.empty })
  ]

  -- Writing to a file that was just created. A write that fails may have written a part.
  unfoldable pub write : (String → SandboxConfigError) → String → J.Bytes → Fs (Unit {0})
  write error name bytes d = elim (d.write_error name) [
    | some e ↦
        (err (error e), record d { files = Dict.store d.files name (d.left_over name bytes) })
    | none ↦ (ok tt, record d { files = Dict.store d.files name bytes })
  ]
