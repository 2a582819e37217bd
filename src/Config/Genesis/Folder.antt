-- ===== src/Config/Genesis/Folder.antt =====
-- Rules for reading, creating and writing a file, by what each file of the folder holds.
use near_sandbox_rs.Base.{
  true, false, Bool, refl, sym, ap, ◌≡◌, ◌∙◌, String, Option, none, some, str_eq, if◌then◌else◌,
  Outcome, ok, err, panic, lift, Ends, Ended, Ends-weaken,
}
use near_sandbox_rs.Base.Dict
use near_sandbox_rs.ErrorKind.{SandboxConfigError, file_error as config_file_error}
use near_sandbox_rs.Json.{Json}
use near_sandbox_rs.Disk.{Disk, read, create, write}

module _ ⦃J : Json⦄ where
  -- What each file holds.
  abbrev pub Files : Type 0
  Files = String → Option J.Bytes

  abbrev pub Holds : Files → Disk J.Bytes → Type 0
  Holds held d = (name : String) → Dict.at_key d.files name ≡ held name

  abbrev pub with_file : Files → String → J.Bytes → Files
  with_file held file bytes name = if str_eq file name then some bytes else held name

  twice_same :
      (b : Bool) (held x y : Option J.Bytes)
      → (if b then y else (if b then x else held)) ≡ (if b then y else held)
  twice_same true held x y = refl
  twice_same false held x y = refl

  module _ (R : SandboxConfigError → Disk J.Bytes → Type 0)
      (U : String → Disk J.Bytes → Type 0) where
    stored-Ended :
        (held : Files) (error : String → SandboxConfigError) (file : String) (bytes : J.Bytes)
        (o : Option String) (d failed : Disk J.Bytes)
        → Holds held d
        → ((e : SandboxConfigError) → R e failed)
        → let r : Outcome SandboxConfigError (Unit {0}) × Disk J.Bytes = elim o [
          | some e ↦ (err (error e), failed)
          | none ↦ (ok tt, record d { files = Dict.store d.files file bytes })
        ] in
          Ended (λ _. Holds (with_file held file bytes)) R U r.0 r.1
    stored-Ended held error file bytes (some e) d failed p k = k (error e)
    stored-Ended held error file bytes none d failed p k = λ name. rw (p name) refl

    pub create-Ends :
        (held : Files) (error : String → SandboxConfigError) (file : String)
        → ((e : SandboxConfigError) (t : Disk J.Bytes) → Holds held t → R e t)
        → Ends (Holds held) (create error file) (λ _. Holds (with_file held file J.empty)) R U
    unfolding create
    create-Ends held error file k = record {
      at = λ d p. stored-Ended held error file J.empty (d.create_error file) d d p (λ e. k e d p);
    }

    -- What is stored in place of an empty file
    over :
        (held : Files) (file : String) (bytes : J.Bytes) (d : Disk J.Bytes)
        → Holds (with_file held file J.empty) d
        → (name : String)
        → Dict.at_key (Dict.store d.files file bytes) name ≡ with_file held file bytes name
    over held file bytes d p name =
        ap (λ x. if str_eq file name then some bytes else x) (p name)
        ∙ twice_same (str_eq file name) (held name) (some J.empty) (some bytes)

    -- Writing to a file that was just created.
    pub over-Ends :
        (held : Files) (error : String → SandboxConfigError) (file : String) (bytes : J.Bytes)
        → ((e : SandboxConfigError) (t : Disk J.Bytes)
            → Holds (with_file held file (t.left_over file bytes)) t
            → R e t)
        → Ends
            (Holds (with_file held file J.empty))
            (write error file bytes)
            (λ _. Holds (with_file held file bytes))
            R
            U
    unfolding write
    over-Ends held error file bytes k =
        Ends-weaken _
          (λ a d p name.
            p name ∙ twice_same (str_eq file name) (held name) (some J.empty) (some bytes))
          (λ e d h. h) (λ m d h. h)
          (record {
            at = λ d p.
                let failed : Disk J.Bytes = record d {
                  files = Dict.store d.files file (d.left_over file bytes);
                } in
                stored-Ended (with_file held file J.empty) error file bytes (d.write_error file) d
                  failed p λ e. k e failed λ name. over held file (d.left_over file bytes) d p name;
          })

    pub lift-Ends :
        {A : Type 0} {P : Disk J.Bytes → Type 0} (r : Outcome SandboxConfigError A)
        → ((e : SandboxConfigError) (t : Disk J.Bytes) → P t → R e t)
        → ((m : String) (t : Disk J.Bytes) → P t → U m t)
        → Ends P (lift r) (λ a t. (r ≡ ok a) × P t) R U
    lift-Ends (ok a) f g = record { at = λ s p. (refl, p) }
    lift-Ends (err e) f g = record { at = λ s p. f e s p }
    lift-Ends (panic m) f g = record { at = λ s p. g m s p }

    pub read-Ends :
        (held : Files) (file : String)
        → ((e : SandboxConfigError) (t : Disk J.Bytes) → Holds held t → R e t)
        → Ends
            (Holds held)
            (read config_file_error file)
            (λ bytes t. (held file ≡ some bytes) × Holds held t)
            R
            U
    unfolding read
    read-Ends held file k = record { at = λ t p. by_file (Dict.at_key t.files file) t (p file) p }
      where
        by_file :
            (o : Option J.Bytes) (t : Disk J.Bytes)
            → o ≡ held file
            → Holds held t
            → let r : Outcome SandboxConfigError J.Bytes × Disk J.Bytes = elim o [
              | none ↦ (err (config_file_error "No such file or directory (os error 2)"), t)
              | some bytes ↦ (ok bytes, t)
            ] in
              Ended (λ bytes u. (held file ≡ some bytes) × Holds held u) R U r.0 r.1
        by_file none t q p = k _ t p
        by_file (some bytes) t q p = (sym q, p)
