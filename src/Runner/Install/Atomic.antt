-- ===== src/Runner/Install/Atomic.antt =====
-- Unpacking beside the destination: what a failure leaves there.
use near_sandbox_rs.Base.{
  Bool, refl, ◌≡◌, ◌≢◌, ◌∙◌, ◌⊎◌, inl, inr, String, ◌<>◌, List, [], ◌∷◌, Any, Ends, Ended,
  Ends-bind, Ends-if, Ends-err, err, ◌&&◌,
}
use text.Mathlib.TextLemmas.{append_cancel_left, append-nil}
use near_sandbox_rs.ErrorKind.{SandboxError}
use near_sandbox_rs.Json.{Json}
use near_sandbox_rs.Runner.Host.{Host, Machine, Act, Call, call, or_fail}
use near_sandbox_rs.Runner.Install.{is_binary, install_entry, install_entries}

tmp-differs : (dest : String) → dest ≢ dest <> ".tmp"
tmp-differs dest h =
    let nothing : ◌≡◌ {A = String} "" ".tmp" =
      append_cancel_left dest "" ".tmp" (append-nil dest ∙ h) in
    absurd (cc)

module _ ⦃J : Json⦄ ⦃H : Host J⦄ where
  -- What is relied on: unpacking changes only the file that it writes, setting a mode removes and adds
  -- no file, and a rename that fails changes nothing.
  pub record IsAtomic : Type 0 where
    pub unpacked :
        (entry : H.Entry) (to path : String) (w : H.os.World)
        → path ≢ to
        → H.exists path (H.unpack entry to w).1 ≡ H.exists path w
    pub permitted :
        (to path : String) (w : H.os.World)
        → H.exists path (H.set_executable to w).1 ≡ H.exists path w
    pub not_renamed :
        (from to path e : String) (w : H.os.World)
        → (H.rename from to w).0 ≡ inl e
        → H.exists path (H.rename from to w).1 ≡ H.exists path w

  module _ (F : IsAtomic) (dest : String) (there : Bool) where
    -- Whether there is a file under the name of the binary.
    abbrev Stands : Machine H → Type 0
    Stands t = H.exists dest t.world ≡ there

    abbrev Safe : {A : Type 0} → Act A → (A → Machine H → Type 0) → Type 0
    Safe m Q = Ends Stands m Q (λ _. Stands) (λ _. Stands)

    or_fail-Ended :
        {A : Type 0} (Q : A → Machine H → Type 0) (error : String → SandboxError) (r : String ⊎ A)
        (t : Machine H)
        → ((e : String) → r ≡ inl e → Stands t)
        → ((a : A) → r ≡ inr a → Q a t)
        → Ended Q (λ _. Stands) (λ _. Stands) (or_fail error r) t
    or_fail-Ended Q error (inl e) t h k = h e refl
    or_fail-Ended Q error (inr a) t h k = k a refl

    call-Safe :
        {A : Type 0} (error : String → SandboxError) (c : Call H.os.World A)
        → ((w : H.os.World) → H.exists dest (c w).1 ≡ H.exists dest w)
        → Safe (call error c) (λ _. Stands)
    call-Safe error c h = record {
      at = λ s p.
          or_fail-Ended (λ _. Stands) error (c s.world).0 _ (λ e q. h s.world ∙ p)
            (λ a q. h s.world ∙ p);
    }

    install_entry-Safe : (entry : H.Entry) → Safe (install_entry entry dest) (λ _. Any)
    unfolding install_entry
    install_entry-Safe entry =
        Ends-bind (λ _. Stands) _ _
          (call-Safe _ _ λ w. F.unpacked entry _ dest w (tmp-differs dest))
          λ _.
            Ends-bind (λ _. Stands) _ _ (call-Safe _ _ λ w. F.permitted _ dest w)
              λ _.
                Ends-bind (λ _. Any) _ _
                  (record {
                    at = λ s p.
                        or_fail-Ended (λ _. Any) _ (H.rename (dest <> ".tmp") dest s.world).0 _
                          (λ e q. F.not_renamed (dest <> ".tmp") dest dest e s.world q ∙ p)
                          (λ a q. tt);
                  })
                  λ _. record { at = λ s p. tt }

    install_entries-Safe :
        (entries : List (String ⊎ H.Entry)) → Safe (install_entries entries dest) (λ _. Any)
    unfolding install_entries
    install_entries-Safe [] = record { at = λ s p. p }
    install_entries-Safe (inl e ∷ rest) = record { at = λ s p. p }
    install_entries-Safe (inr entry ∷ rest) =
        Ends-bind (λ _. Stands) _ _
          (record {
            at = λ s p. or_fail-Ended (λ _. Stands) _ (H.entry_name entry) s (λ e q. p) (λ a q. p);
          })
          λ name.
            Ends-if (is_binary name && H.is_file entry) _ _ (install_entry-Safe entry)
              (install_entries-Safe rest)

  -- Where unpacking changes only the file that it writes, setting a mode removes and adds no file and a
  -- rename that fails changes nothing: when the archive cannot be installed, there is a file under the
  -- name of the binary exactly if there was one before.
  pub install_entries_atomic :
      (F : IsAtomic) (entries : List (String ⊎ H.Entry)) (dest : String) (s t : Machine H)
      (e : SandboxError)
      → install_entries entries dest s ≡ (err e, t)
      → H.exists dest t.world ≡ H.exists dest s.world
  install_entries_atomic F entries dest s t e h =
      Ends-err _ s t e (install_entries-Safe F dest (H.exists dest s.world) entries) refl h
