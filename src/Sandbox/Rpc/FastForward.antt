-- ===== src/Sandbox/Rpc/FastForward.antt =====
-- `fast_forward` ends, and what it has seen when it succeeds.
use near_sandbox_rs.Base.{
  ℕ, zero, suc, ◌+◌, ◌-◌, ◌*◌, ◌≤◌, ◌<◌, ◌≡◌, refl, ◌≢◌, Option, none, some, arith, ok, ltb, ◌>>=◌,
  >>=-eq-ok, Triple, Any, Triple-bind, Triple-if, Triple-Any, Triple-pure, pure,
}
use near_sandbox_rs.Json.{Json}
use near_sandbox_rs.Net.{Net, Wire, IsClock}
use near_sandbox_rs.Sandbox.Handle.{Sandbox}
use near_sandbox_rs.Sandbox.Rpc.{
  get_block_height, timeout_failure, reached, poll, fast_forward, add_u64, rounds, tick, Rpc,
}

module _ ⦃J : Json⦄ ⦃N : Net J⦄ where
  -- The state after a tick and the poll that follows it.
  abbrev polled : Sandbox → ℕ → ℕ → Wire J N → Wire J N
  polled sb target t s = (reached sb target (tick t s).1).1

  timeout_failure-ne-ok :
      (sb : Sandbox) (target : ℕ) (s : Wire J N) (r : Option (Unit {0}))
      → (timeout_failure sb target s).0 ≢ ok r
  unfolding timeout_failure ◌>>=◌
  timeout_failure-ne-ok sb target s r = ground arith

  timeout_failure-fails :
      (sb : Sandbox) (target : ℕ) (Q : Option (Unit {0}) → Wire J N → Type 0)
      → Triple Any (timeout_failure sb target) Q
  timeout_failure-fails sb target Q = record {
    at = λ s t r _ e. absurd (timeout_failure-ne-ok sb target s r (cc e));
  }

  -- The deadline of the `k`-th tick has come, so 30 seconds are over when k is 301.
  poll-ne-none :
      IsClock N
      → (fuel : ℕ) (sb : Sandbox) (target start k : ℕ) (s : Wire J N) → 301 < fuel + k
      → k ≤ 301
      → (poll fuel sb target start k s).0 ≢ ok none
  unfolding poll ◌>>=◌
  poll-ne-none C zero sb target start k s h b = absurd (omega arith)
  poll-ne-none C (suc fuel) sb target start k s h b = ground (
    arith,
    C.now-wait_until (start + 100 * k) s.world,
    poll-ne-none C fuel sb target start (k + 1) (polled sb target (start + 100 * k) s),
  )

  reached-eq-some :
      (sb : Sandbox) (target h : ℕ) (s t : Wire J N)
      → reached sb target s ≡ (ok (some h), t)
      → (get_block_height sb s ≡ (ok h, t)) × (target ≤ h)
  unfolding reached ◌>>=◌
  reached-eq-some sb target h s t e = ground arith

  poll-rounds-ends :
      IsClock N
      → (sb : Sandbox) (target start : ℕ)
      → Triple Any (poll rounds sb target start 0) (λ r _. r ≢ none)
  poll-rounds-ends C sb target start = record {
    at = λ s t r _ e.
        λ q. poll-ne-none C rounds sb target start 0 s (omega arith) (omega arith) (cc);
  }

  fast_forward-ends :
      IsClock N
      → (sb : Sandbox) (blocks : ℕ) → Triple Any (fast_forward sb blocks) (λ r _. r ≢ none)
  unfolding fast_forward
  fast_forward-ends C sb blocks =
      Triple-bind (λ _. Any) _ _ (Triple-Any _)
        λ initial.
          Triple-bind (λ _. Any) _ _ (Triple-Any _)
            λ target.
              Triple-bind (λ _. Any) _ _ (Triple-Any _)
                λ answer.
                  Triple-bind (λ _. Any) _ _ (Triple-Any _)
                    λ start. poll-rounds-ends C sb target start

  -- Under a clock that waits as asked, 302 rounds of the loop are enough.
  pub fast_forward_ends :
      IsClock N
      → (sb : Sandbox) (blocks : ℕ) (s : Wire J N) → (fast_forward sb blocks s).0 ≢ ok none
  fast_forward_ends C sb blocks s =
      let t : Wire J N = (fast_forward sb blocks s).1 in
      λ e. (fast_forward-ends C sb blocks).at s t none tt (λ i. (e i, t)) refl

  -- The last thing that a successful loop has done is to read a height that is enough.
  abbrev pub Saw : Sandbox → ℕ → Wire J N → Type 0
  Saw sb target t = (u : Wire J N) × (h : ℕ) × (get_block_height sb u ≡ (ok h, t)) × (target ≤ h)

  abbrev IfFound : Sandbox → ℕ → Option ℕ → Wire J N → Type 0
  IfFound sb target none t = Unit {0}
  IfFound sb target (some h) t = Saw sb target t

  abbrev IfDone : Sandbox → ℕ → Option (Unit {0}) → Wire J N → Type 0
  IfDone sb target none t = Unit {0}
  IfDone sb target (some _) t = Saw sb target t

  reached-IfFound : (sb : Sandbox) (target : ℕ) → Triple Any (reached sb target) (IfFound sb target)
  reached-IfFound sb target = record { at = λ s t found _ e. seen found s t e }
    where
      seen :
          (found : Option ℕ) (s t : Wire J N)
          → reached sb target s ≡ (ok found, t)
          → IfFound sb target found t
      seen none s t e = tt
      seen (some h) s t e =
          let (read, enough) = reached-eq-some sb target h s t e in (s, h, read, enough)

  poll-IfDone :
      (fuel : ℕ) (sb : Sandbox) (target start k : ℕ)
      → Triple Any (poll fuel sb target start k) (IfDone sb target)
  unfolding poll
  poll-IfDone zero sb target start k = Triple-pure none λ s p. tt
  poll-IfDone (suc fuel) sb target start k =
      Triple-bind (λ _. Any) _ _ (Triple-Any _)
        λ _.
          Triple-bind (λ _. Any) _ _ (Triple-Any _)
            λ t. Triple-if (ltb 30000 (t - start)) _ _ (timeout_failure-fails sb target _) (
              Triple-bind (IfFound sb target) _ _ (reached-IfFound sb target) λ found.
                after found (poll fuel sb target start (k + 1))
                  (poll-IfDone fuel sb target start (k + 1)))
    where
      after :
          (found : Option ℕ) (rest : Rpc (Option (Unit {0})))
          → Triple Any rest (IfDone sb target)
          → Triple
              (IfFound sb target found)
              (elim found [ some h ↦ pure (some tt) | none ↦ rest ])
              (IfDone sb target)
      after none rest h = h
      after (some n) rest h = Triple-pure (some tt) λ s p. p

  -- What success of `fast_forward` means: heights were read at the start and at the end, and the
  -- last one is at least the first one plus `blocks`, as `u64` adds.
  pub fast_forward_reached :
      (sb : Sandbox) (blocks : ℕ) (s t : Wire J N)
      → fast_forward sb blocks s ≡ (ok (some tt), t)
      → (initial : ℕ) × (target : ℕ) × (u : Wire J N) × (get_block_height sb s ≡ (ok initial, u))
        × (add_u64 initial blocks ≡ ok target)
        × Saw sb target t
  unfolding fast_forward
  fast_forward_reached sb blocks s t e =
      let (initial, u, first, e1) = >>=-eq-ok _ _ s t _ e in
      let (target, u2, sum, e2) = >>=-eq-ok _ _ u t _ e1 in
      let (answer, u3, asked, e3) = >>=-eq-ok _ _ u2 t _ e2 in
      let (start, u4, read, e4) = >>=-eq-ok _ _ u3 t _ e3 in
      (
        initial,
        target,
        u,
        first,
        cc,
        (poll-IfDone rounds sb target start 0).at u4 t (some tt) tt e4,
      )
