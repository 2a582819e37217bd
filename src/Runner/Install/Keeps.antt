-- ===== src/Runner/Install/Keeps.antt =====
-- Steps that leave the variable for the path of the binary alone.
use near_sandbox_rs.Base.{
  refl, ◌≡◌, ◌⊎◌, inl, inr, String, Option, Any, Ends, Ended, Ends-bind, Ends-if, Outcome, ok, err,
  panic, lift,
}
use near_sandbox_rs.ErrorKind.{SandboxError}
use near_sandbox_rs.Json.{Json}
use near_sandbox_rs.Runner.Host.{Host, Machine, Act, Call, call, exists, or_fail, or_panic}
use near_sandbox_rs.Runner.Install.{call_expect, download_path}
use near_sandbox_rs.Runner.Install.Given.{Says}

module _ ⦃J : Json⦄ ⦃H : Host J⦄ where
  -- What `m` returns, if it returns, has `Q` in the state that it leaves.
  abbrev pub Gives : {A : Type 0} → (Machine H → Type 0) → Act A → (A → Machine H → Type 0) → Type 0
  Gives P m Q = Ends P m Q (λ _. Any) (λ _. Any)

  module _ {A : Type 0} (Q : A → Machine H → Type 0) where
    or_fail-Ended :
        (error : String → SandboxError) (r : String ⊎ A) (t : Machine H)
        → ((a : A) → r ≡ inr a → Q a t)
        → Ended Q (λ _. Any) (λ _. Any) (or_fail error r) t
    or_fail-Ended error (inl e) t h = tt
    or_fail-Ended error (inr a) t h = h a refl

    pub call-Gives :
        {P : Machine H → Type 0} (error : String → SandboxError) (c : Call H.os.World A)
        → ((s : Machine H) (a : A)
            → P s
            → (c s.world).0 ≡ inr a
            → Q a (record s { world = (c s.world).1 }))
        → Gives P (call error c) Q
    call-Gives error c h = record { at = λ s p. or_fail-Ended error (c s.world).0 _ λ a. h s a p }

  -- The variable stays as it is.
  abbrev pub Keeps : {A : Type 0} → Option String → Act A → Type 0
  Keeps o m = Gives (Says o) m (λ _. Says o)

  pub call-Keeps :
      {A : Type 0} (o : Option String) (error : String → SandboxError) (c : Call H.os.World A)
      → Keeps o (call error c)
  call-Keeps o error c = call-Gives (λ _. Says o) error c λ s a p e. p

  pub exists-Gives :
      {P : Machine H → Type 0} (path : String)
      → Gives P (exists path) (λ b t. P t × (H.exists path t.world ≡ b))
  exists-Gives path = record { at = λ s p. (p, refl) }

  or_panic-Ended :
      {A : Type 0} (o : Option String) (message : String) (r : String ⊎ A) (t : Machine H)
      → Says o t
      → Ended {E = SandboxError} (λ _. Says o) (λ _. Any) (λ _. Any) (or_panic message r) t
  or_panic-Ended o message (inl e) t p = tt
  or_panic-Ended o message (inr a) t p = p

  call_expect-Keeps :
      {A : Type 0} (o : Option String) (message : String) (c : Call H.os.World A)
      → Keeps o (call_expect message c)
  call_expect-Keeps o message c = record { at = λ s p. or_panic-Ended o message (c s.world).0 _ p }

  -- A computation with no effect.
  pub lift-Gives :
      {A : Type 0} {P : Machine H → Type 0} (r : Outcome SandboxError A) → Gives P (lift r) (λ _. P)
  lift-Gives (ok a) = record { at = λ s p. p }
  lift-Gives (err e) = record { at = λ s p. tt }
  lift-Gives (panic m) = record { at = λ s p. tt }

  pub download_path-Keeps : (o : Option String) (version : String) → Keeps o (download_path version)
  unfolding download_path
  download_path-Keeps o version =
      Ends-bind (λ _. Says o) _ _ (lift-Gives _)
        λ base.
          Ends-bind (λ _. Says o) _ _ (record { at = λ s p. p })
            λ there.
              Ends-bind (λ _. Says o) _ _
                (Ends-if there _ _ (record { at = λ s p. p }) (call_expect-Keeps o _ _))
                λ _. record { at = λ s p. p }
