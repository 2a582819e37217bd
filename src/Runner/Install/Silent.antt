-- ===== src/Runner/Install/Silent.antt =====
-- Finding and installing the binary leaves the record of child processes alone.
use near_sandbox_rs.Base.{
  Bool, true, false, refl, ◌⊎◌, inl, inr, String, Option, none, some, List, [], ◌∷◌, Ended,
  Ends-bind, Ends-if, Ends-pure, Ends-fail, pure, fail, lift, if◌then◌else◌, ◌&&◌, Outcome, expect,
  ok_or, ◌>>=◌,
}
use near_sandbox_rs.ErrorKind.{SandboxError}
use near_sandbox_rs.Json.{Json}
use near_sandbox_rs.Runner.Host.{Host, Machine, Act, Event}
use near_sandbox_rs.Runner.Paths.{bin_url}
use near_sandbox_rs.Runner.Rules.{
  Log, IsLenient, IsOrdinary, Quiet, call-Quiet, call_expect-Quiet, exists-Quiet, var-Quiet,
  set_var-Quiet, lift-or_fail-Quiet,
}
use near_sandbox_rs.Runner.Install.{
  download_path, check_for_version, is_binary, install_entry, install_entries, download_version,
  install_with_version, installable, bin_path, install_locked, close_lock,
  ensure_sandbox_bin_with_version,
}

module _ ⦃J : Json⦄ ⦃H : Host J⦄ {R : SandboxError → Machine H → Type 0}
    {U : String → Machine H → Type 0} (L : IsLenient R U) (l : List (Event H.Child)) where
  -- One step after another.
  pub then_Quiet :
      {A B : Type 0} (m : Act A) (f : A → Act B)
      → Quiet L l m
      → ((a : A) → Quiet L l (f a))
      → Quiet L l (m >>= f)
  then_Quiet m f h k = Ends-bind (λ _. Log l) m f h k

  pub pure-Quiet : {A : Type 0} (a : A) → Quiet L l (pure a)
  pure-Quiet a = Ends-pure a (λ s p. p)

  expect-Quiet :
      (o : Option String) (b : Bool) (dir : String)
      → Quiet L l (lift (if b then expect o "could not retrieve home_dir" else Outcome.ok dir))
  expect-Quiet none true dir = record { at = λ s p. L.expected _ s refl }
  expect-Quiet (some home) true dir = pure-Quiet home
  expect-Quiet o false dir = pure-Quiet dir

  download_path-Quiet : (version : String) → Quiet L l (download_path version)
  unfolding download_path
  download_path-Quiet version =
      then_Quiet _ _ (expect-Quiet H.home_dir H.global_install H.out_dir) λ base.
        then_Quiet _ _ (exists-Quiet L l _) λ there.
          then_Quiet _ _ (Ends-if there _ _ (pure-Quiet tt) (call_expect-Quiet L l _ _ refl))
            λ _. pure-Quiet _

  -- Both cases of an option.
  pub option-Quiet :
      {A B : Type 0} (o : Option A) (m : Act B) (f : A → Act B)
      → Quiet L l m
      → ((a : A) → Quiet L l (f a))
      → let n : Act B = elim o [ none ↦ m | some a ↦ f a ] in Quiet L l n
  option-Quiet none m f h k = h
  option-Quiet (some a) m f h k = k a

  check_for_version-Quiet : (version : String) → Quiet L l (check_for_version version)
  unfolding check_for_version
  check_for_version-Quiet version = then_Quiet _ _ (var-Quiet L l _) λ path.
      option-Quiet path _ _
        (then_Quiet _ _ (download_path-Quiet version)
          λ dir. then_Quiet _ _ (exists-Quiet L l _) λ there. pure-Quiet _)
        (λ path. pure-Quiet (some path))

  install_entry-Quiet : (entry : H.Entry) (dest : String) → Quiet L l (install_entry entry dest)
  unfolding install_entry
  install_entry-Quiet entry dest = then_Quiet _ _ (call-Quiet L l _ _ λ x. tt) λ _.
      then_Quiet _ _ (call-Quiet L l _ _ λ x. tt)
        λ _. then_Quiet _ _ (call-Quiet L l _ _ λ x. tt) λ _. pure-Quiet dest

  fail-Quiet : {A : Type 0} (e : SandboxError) → IsOrdinary e → Quiet L l {A = A} (fail e)
  fail-Quiet e h = Ends-fail e (λ s p. L.ordinary e s h)

  install_entries-Quiet :
      (entries : List (String ⊎ H.Entry)) (dest : String) → Quiet L l (install_entries entries dest)
  unfolding install_entries
  install_entries-Quiet [] dest = fail-Quiet _ tt
  install_entries-Quiet (inl e ∷ rest) dest = fail-Quiet _ tt
  install_entries-Quiet (inr entry ∷ rest) dest =
      then_Quiet _ _ (lift-or_fail-Quiet L l _ _ λ x. tt) λ name.
        Ends-if (is_binary name && H.is_file entry) _ _ (install_entry-Quiet entry dest)
          (install_entries-Quiet rest dest)

  url-Quiet :
      (o : Option String) (e : SandboxError)
      → IsOrdinary e
      → (s : Machine H) → Log l s
      → Ended (λ _. Log l) R U (ok_or o e) s
  url-Quiet none e h s p = L.ordinary e s h
  url-Quiet (some url) e h s p = p

  download_version-Quiet : (version : String) → Quiet L l (download_version version)
  unfolding download_version
  download_version-Quiet version =
      then_Quiet _ _ (record { at = λ s p. url-Quiet (bin_url s.env H.target version) _ tt s p })
        λ url. then_Quiet _ _ (call-Quiet L l _ _ λ x. tt) λ body.
          then_Quiet _ _ (download_path-Quiet version) λ dir.
            then_Quiet _ _ (lift-or_fail-Quiet L l _ _ λ x. tt)
              λ entries. install_entries-Quiet entries _

  install_with_version-Quiet : (version : String) → Quiet L l (install_with_version version)
  unfolding install_with_version
  install_with_version-Quiet version =
      then_Quiet _ _ (check_for_version-Quiet version)
        λ found. option-Quiet found _ _ (download_version-Quiet version) (λ path. pure-Quiet path)

  close_lock-Quiet : (lock : H.LockFile) → Quiet L l (close_lock lock)
  close_lock-Quiet lock = record { at = λ s p. p }

  installable-Quiet : (path : String) → Quiet L l (installable path)
  unfolding installable
  installable-Quiet path = then_Quiet _ _ (exists-Quiet L l path) λ there.
      Ends-if there _ _ (pure-Quiet none) (
        then_Quiet _ _ (call-Quiet L l _ _ λ x. tt) λ lock.
          then_Quiet _ _ (call-Quiet L l _ _ λ x. tt) λ _.
            then_Quiet _ _ (exists-Quiet L l path) λ written.
              Ends-if written _ _ (then_Quiet _ _ (close_lock-Quiet lock) λ _. pure-Quiet none)
                (pure-Quiet _))

  bin_path-Quiet : (version : String) → Quiet L l (bin_path version)
  unfolding bin_path
  bin_path-Quiet version = then_Quiet _ _ (var-Quiet L l _) λ path.
      option-Quiet path _ _ (then_Quiet _ _ (download_path-Quiet version) λ dir. pure-Quiet _)
        λ given.
          then_Quiet _ _ (exists-Quiet L l given)
            λ there. Ends-if there _ _ (pure-Quiet given) (fail-Quiet _ tt)

  install_locked-Quiet :
      (version : String) (lock : H.LockFile) → Quiet L l (install_locked version lock)
  unfolding install_locked
  install_locked-Quiet version lock = then_Quiet _ _ (install_with_version-Quiet version) λ path.
      then_Quiet _ _ (set_var-Quiet L l _ path) λ _.
        then_Quiet _ _ (call-Quiet L l _ _ λ x. tt)
          λ _. then_Quiet _ _ (close_lock-Quiet lock) λ _. pure-Quiet path

  pub ensure-Quiet : (version : String) → Quiet L l (ensure_sandbox_bin_with_version version)
  unfolding ensure_sandbox_bin_with_version
  ensure-Quiet version = then_Quiet _ _ (bin_path-Quiet version) λ path.
      then_Quiet _ _ (installable-Quiet path)
        λ lock. option-Quiet lock _ _ (pure-Quiet path) (λ held. install_locked-Quiet version held)
