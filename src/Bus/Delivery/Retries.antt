-- ===== src/Bus/Delivery/Retries.antt =====
-- How the delivery of one event goes.
use aegisops_ai.Base.{
  ℕ, zero, suc, ◌+◌, ◌≤◌, ◌<◌, ◌≡◌, refl, ◌⊎◌, inl, inr, Bool, true, false, Bool-cases, Option,
  none, some, Option-cases, arith, subst, ◌==◌, pos_part, ℤ, pos, negsuc, ltb_ℤ, if◌then◌else◌,
}
use aegisops_ai.Bus.Event.{Event, Config, settled, default_max_attempts}
use aegisops_ai.Bus.Delivery.{
  Handled, Cause, Ended, accepted, dead_lettered, abandoned, safe_handle, deliver_from, deliver,
}

positive : (n : ℤ) → ltb_ℤ (pos 0) n ≡ true → 1 ≤ pos_part n
positive (pos n) h = ground (arith, h)
positive (negsuc n) h = ground (arith, h)

module _ {W E : Type 0} (handler : Event → W → W × Handled E) (cancelled : Event → ℕ → Bool) where
  -- One attempt.
  abbrev pub attempted : ℕ → Event → W → W × Option (Cause E)
  attempted n e w = safe_handle handler cancelled (record e { attempt = n }) w

  -- `k` attempts from number `n` on fail, one after the other, and lead from `w` to `w'`.
  abbrev pub Failing : ℕ → ℕ → Event → W → W → Type 0
  Failing n zero e w w' = w ≡ w'
  Failing n (suc k) e w w' =
      (cause : Cause E) × ((attempted n e w).1 ≡ some cause)
      × (cancelled e n ≡ false)
      × Failing (suc n) k e (attempted n e w).0 w'

  -- What the last attempt, number `n`, makes of the delivery.
  abbrev pub LastOf : ℕ → ℕ → Event → W → W × Ended E → Type 0
  LastOf limit n e w out =
      (((attempted n e w).1 ≡ none) × (out ≡ ((attempted n e w).0, accepted n)))
      ⊎ ((cause : Cause E) × ((attempted n e w).1 ≡ some cause)
          × (((n ≡ limit)
                × (out ≡ ((attempted n e w).0, dead_lettered (record e { attempt = n }) cause)))
              ⊎ ((n < limit)
                  × (cancelled e n ≡ true)
                  × (out ≡ ((attempted n e w).0, abandoned n)))))

  pub record Ends (limit n : ℕ) (e : Event) (w : W) (out : W × Ended E) : Type 0 where
    pub failures : ℕ
    pub reached : W
    pub bounded : n + failures ≤ limit
    pub failing : Failing n failures e w reached
    pub last : LastOf limit (n + failures) e reached out

  -- The delivery ends with this attempt.
  last_attempt :
      (limit n : ℕ) (e : Event) (w : W) (out : W × Ended E)
      → n ≤ limit
      → LastOf limit n e w out
      → Ends limit n e w out
  last_attempt limit n e w out b l =
      let here : n ≡ n + 0 = omega arith in
      record {
        failures = 0;
        reached = w;
        bounded = omega arith;
        failing = refl;
        last = subst (λ k. LastOf limit k e w out) here l;
      }

  -- One failed attempt, and how the delivery ends from the next on.
  failed_attempt :
      (limit n : ℕ) (e : Event) (w : W) (out : W × Ended E) (cause : Cause E)
      → (attempted n e w).1 ≡ some cause
      → cancelled e n ≡ false
      → Ends limit (suc n) e (attempted n e w).0 out
      → Ends limit n e w out
  failed_attempt limit n e w out cause f c rest =
      let shifted : suc n + rest.failures ≡ n + suc rest.failures = omega arith in
      record {
        failures = suc rest.failures;
        reached = rest.reached;
        bounded = let b = rest.bounded in omega arith;
        failing = (cause, f, c, rest.failing);
        last = subst (λ k. LastOf limit k e rest.reached out) shifted rest.last;
      }

  deliver_from-Ends :
      (left limit n : ℕ) (e : Event) (w : W)
      → n + left ≡ suc limit
      → n ≤ limit
      → Ends limit n e w (deliver_from handler cancelled left limit n e w)
  unfolding deliver_from
  deliver_from-Ends zero limit n e w s b = absurd (omega arith)
  deliver_from-Ends (suc left) limit n e w s b = elim (Option-cases (attempted n e w).1) [
    | inl fine ↦ last_attempt limit n e w _ b (inl (fine, rw (fine, deliver_from) refl))
    | inr (cause, failed) ↦ elim (Bool-cases (n == limit)) [
      | inl end ↦
          last_attempt limit n e w _ b
            (inr (cause, failed, inl (ground arith, rw (failed, end, deliver_from) refl)))
      | inr more ↦ elim (Bool-cases (cancelled e n)) [
        | inl stop ↦ last_attempt limit n e w _ b (
            inr
              (cause, failed, inr (ground arith, stop, rw (failed, more, stop, deliver_from) refl)))
        | inr go ↦
            rw (failed, more, go, deliver_from)
              (failed_attempt limit n e w _ cause failed go (
                deliver_from-Ends left limit (suc n) e (attempted n e w).0 (omega arith)
                  (ground arith)))
      ]
    ]
  ]

  at_least : (n : ℤ) → 1 ≤ pos_part (if ltb_ℤ (pos 0) n then n else default_max_attempts)
  at_least n = elim (Bool-cases (ltb_ℤ (pos 0) n)) [
    | inl given ↦ rw given (positive n given)
    | inr missing ↦ rw missing (omega arith)
  ]

  settled-attempts : (cfg : Config) → 1 ≤ pos_part (settled cfg).max_attempts
  unfolding settled
  settled-attempts cfg = at_least cfg.max_attempts

  -- The delivery of an event always ends: after at most as many attempts as are configured, every one
  -- of which but the last failed. The event is accepted when the last attempt succeeds. It is
  -- dead-lettered, with the cause, exactly when the attempts are used up, and it is given up
  -- earlier only when the context ends in a wait.
  pub deliver-Ends :
      (cfg : Config) (e : Event) (w : W)
      → Ends
          (pos_part (settled cfg).max_attempts)
          1
          e
          w
          (deliver handler cancelled (settled cfg) e w)
  unfolding deliver
  deliver-Ends cfg e w =
      deliver_from-Ends (pos_part (settled cfg).max_attempts) (pos_part (settled cfg).max_attempts)
        1 e w (omega arith) (settled-attempts cfg)
