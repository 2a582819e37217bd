-- ===== src/Sandbox/Startup/Unfailing.antt =====
-- The steps of a start on a host on which nothing fails, up to the process that runs.
use near_sandbox_rs.Base.{
  ℕ, ◌*◌, Bool, true, false, ◌≡◌, refl, sym, ap, subst, ◌⊎◌, inl, inr, String, some, List, [], ◌∷◌,
  ◌++◌, Outcome, ok, err, panic, Exec, Any, Ended, Ends-bind, Ends-weaken, if◌then◌else◌,
}
use near_sandbox_rs.Base.Dict
use near_sandbox_rs.Base.Dict.{Dict}
use near_sandbox_rs.ErrorKind.{SandboxError, runtime_error}
use near_sandbox_rs.Json.{Json}
use near_sandbox_rs.Disk.{Disk, Fs}
use near_sandbox_rs.Config.Account.{SandboxConfig}
use near_sandbox_rs.Config.Genesis.Prepared.{IsPrepared}
use near_sandbox_rs.Sandbox.Ready.{timeout_secs}
use near_sandbox_rs.Runner.Host.{
  Host, Machine, Event, Command, host_os, host_status, spawned, waited, recorded, noted, or_fail,
  on_world, set_var,
}
use near_sandbox_rs.Runner.Install.{ensure_sandbox_bin_with_version}
use near_sandbox_rs.Runner.Install.Given.{ensure-given}
use near_sandbox_rs.Runner.Launch.{spawn, init_with_version}
use near_sandbox_rs.Sandbox.Startup.{
  in_folder, in_sandbox, is_enabled, quiet_log, suppress_sandbox_logs_if_required,
  init_home_dir_with_version,
}
use near_sandbox_rs.Sandbox.Startup.Cooperative.{Works, IsCooperative, given_or_fail}

module _ ⦃J : Json⦄ ⦃H : Host J⦄ (config : SandboxConfig J.Value) (path : String) (secs : ℕ)
    (left : String → H.os.World → ℕ) (serving : H.Child → String → H.os.World → Type 0)
    (F : IsCooperative config path (secs * 2) left serving) where
  -- The variables that a start reads are set, and the record of children reads `l`.
  abbrev pub Fine : List (Event H.Child) → Machine H → Type 0
  Fine l s =
      (Dict.at_key s.env "NEAR_SANDBOX_BIN_PATH" ≡ some path)
      × (timeout_secs s.env ≡ ok secs)
      × (s.events ≡ l)

  -- And the home folder is one with `P`.
  abbrev pub Prepared : (Disk J.Bytes → Type 0) → String → List (Event H.Child) → Machine H → Type 0
  Prepared P home l t = P (H.folder home t.world) × Fine l t

  module _ (l : List (Event H.Child)) where
    pub suppress-Works : Works (Fine l) suppress_sandbox_logs_if_required (λ _. Fine l)
    unfolding suppress_sandbox_logs_if_required timeout_secs
    suppress-Works = record {
      at = λ s h. by_flag (is_enabled (Dict.at_key s.env "NEAR_ENABLE_SANDBOX_LOG")) s h;
    }
      where
        by_flag :
            (b : Bool) (s : Machine H)
            → Fine l s
            → let r : Outcome SandboxError (Unit {0}) × Machine H =
                if b then (ok tt, s) else set_var "NEAR_SANDBOX_LOG" quiet_log s in
              Ended (λ _. Fine l) (λ _ _. ⊥) (λ _ _. ⊥) r.0 r.1
        by_flag true s h = h
        by_flag false s h = h

    pub ensure-Works :
        (version : String) → Works (Fine l) (ensure_sandbox_bin_with_version version) (λ _. Fine l)
    ensure-Works version = record {
      at = λ s h.
          subst (λ r. Ended (λ _. Fine l) (λ _ _. ⊥) (λ _ _. ⊥) r.0 r.1)
            (sym (ensure-given version path s h.0 (F.installed s.world))) h;
    }

    -- What a call on the world finds, without touching the rest.
    pub on_world-Works :
        {X : Type 0} {Q : X → Type 0} (m : Exec H.os.World SandboxError X)
        → Works Any m (λ x _. Q x)
        → Works (Fine l) (on_world m) (λ x s. Q x × Fine l s)
    on_world-Works {Q = Q} m k = record {
      at = λ s h. by_end (m s.world).0 (m s.world).1 (k.at s.world tt) s h;
    }
      where
        by_end :
            (r : Outcome SandboxError _) (w : H.os.World)
            → Ended (λ x _. Q x) (λ _ _. ⊥) (λ _ _. ⊥) r w
            → (s : Machine H) → Fine l s
            → Ended (λ x s. Q x × Fine l s) (λ _ _. ⊥) (λ _ _. ⊥) r (record s { world = w })
        by_end (ok x) w e s h = (e, h)
        by_end (err e) w x s h = x
        by_end (panic m) w x s h = x

    -- A child that is spawned goes on record.
    abbrev Spawned : Command → H.Child → Machine H → Type 0
    Spawned command c t =
        ((w : H.os.World) × (H.spawn command w ≡ (inr c, t.world))) × Fine (l ++ spawned c ∷ []) t

    pub spawn-Works : (command : Command) → Works (Fine l) (spawn command) (Spawned command)
    spawn-Works command = record {
      at = λ s h.
          by_call (H.spawn command s.world).0 (H.spawn command s.world).1 s refl
            (F.spawns command s.world) h;
    }
      where
        by_call :
            (x : String ⊎ H.Child) (u : H.os.World) (s : Machine H)
            → H.spawn command s.world ≡ (x, u)
            → (c : H.Child) × (x ≡ inr c)
            → Fine l s
            → Ended
                (Spawned command)
                (λ _ _. ⊥)
                (λ _ _. ⊥)
                (or_fail runtime_error x)
                (record s { world = u; events = s.events ++ noted spawned x })
        by_call (inl e) u s q g h = absurd (cc g.1)
        by_call (inr c) u s q g h =
            ((s.world, q), (h.0, h.1, ap (λ (k : List (Event H.Child)). k ++ spawned c ∷ []) h.2))

    init-Works :
        (home version : String)
        → Works (Fine l) (init_with_version home version) (λ c t.
          (command : Command) × (command.args ≡ "--home" ∷ home ∷ "init" ∷ "--fast" ∷ [])
          × Spawned command c t)
    unfolding init_with_version
    init-Works home version =
        Ends-bind (λ _. Fine l) _ _ (ensure-Works version)
          λ bin.
            Ends-bind (λ _. Fine l) _ _ (record { at = λ s h. h })
              λ vars.
                Ends-weaken _ (λ c t h. (_, refl, h)) (λ e t h. h) (λ m t h. h) (spawn-Works _)

  module _ (l : List (Event H.Child)) where
    wait-Works :
        (home : String) (c : H.Child)
        → Works
            (λ t.
              (command : Command) × (command.args ≡ "--home" ∷ home ∷ "init" ∷ "--fast" ∷ [])
              × Spawned l command c t)
            (recorded (λ _. waited c) runtime_error (H.wait c))
            (λ _. Prepared (IsPrepared config) home ((l ++ spawned c ∷ []) ++ waited c ∷ []))
    wait-Works home c = record {
      at = λ s (command, args, ((w, q), h)).
          let (ended, prepared) = F.prepares home command c w s.world args q in
          by_call (H.wait c s.world).0 (H.wait c s.world).1 s ended prepared h;
    }
      where
        by_call :
            (x : String ⊎ Unit {0}) (u : H.os.World) (s : Machine H)
            → x ≡ inr tt
            → IsPrepared config (H.folder home u)
            → Fine (l ++ spawned c ∷ []) s
            → Ended
                (λ _. Prepared (IsPrepared config) home ((l ++ spawned c ∷ []) ++ waited c ∷ []))
                (λ _ _. ⊥)
                (λ _ _. ⊥)
                (or_fail runtime_error x)
                (record s { world = u; events = s.events ++ noted (λ _. waited c) x })
        by_call (inl e) u s g p h = absurd (cc)
        by_call (inr _) u s g p h =
            (p, (h.0, h.1, ap (λ (k : List (Event H.Child)). k ++ waited c ∷ []) h.2))

    pub init_home-Works :
        (version : String)
        → Works (Fine l) (init_home_dir_with_version version) (λ home t.
          (c : H.Child) × Prepared
            (IsPrepared config)
            home
            ((l ++ spawned c ∷ []) ++ waited c ∷ [])
            t)
    unfolding init_home_dir_with_version
    init_home-Works version =
        Ends-bind (λ _. Fine l) _ _
          (record {
            at = λ s h.
                given_or_fail (λ _. Fine l) _ (H.temp_dir s.world).0 _ (F.has_temp s.world)
                  λ a e. h;
          })
          λ home.
            Ends-bind _ _ _ (init-Works l home version)
              λ c. Ends-bind _ _ _ (wait-Works home c) λ _. record { at = λ s h. (c, h) }

    pub in_folder-Works :
        (P Q : Disk J.Bytes → Type 0) (home : String) (m : Fs (Unit {0}))
        → ((d : Disk J.Bytes) → P d → ((m d).0 ≡ ok tt) × Q (m d).1)
        → Works (Prepared P home l) (in_folder home m) (λ _. Prepared Q home l)
    in_folder-Works P Q home m k = record {
      at = λ s h.
          let r = m (H.folder home s.world) in
          let done = k (H.folder home s.world) h.0 in
          subst
            (λ x.
              Ended (λ _. Prepared Q home l) (λ _ _. ⊥) (λ _ _. ⊥) (in_sandbox x)
                (record s { world = H.put_folder home r.1 s.world }))
            (sym done.0) (subst Q (sym (F.keeps home r.1 s.world)) done.1, h.1);
    }
