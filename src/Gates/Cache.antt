-- ===== src/Gates/Cache.antt =====
-- The cache of compiled rules in permission.go and policy.go (matrix, policies, Invalidate): the two
-- engines hold the same fields and run the same steps, over different rules. A reading of the clock
-- is an argument, and so is what the database answers: `none` for an error.
pub mod Freshness
use aegisops_ai.Base.{
  ℕ, ◌+◌, Bool, true, false, not, ◌&&◌, Option, none, some, ltb, ◌==◌, if◌then◌else◌,
}
use aegisops_ai.Shared.{Time}

-- `loaded_at` is 0 when nothing counts as loaded.
pub record Cache {ℓ} (A : Type ℓ) : Type ℓ where
  pub current : Option A
  pub loaded_at : Time

module _ {ℓ} {A : Type ℓ} where
  unfoldable pub cold : Cache A
  cold = record { current = none; loaded_at = 0 }

  -- Invalidate.
  unfoldable pub invalidate : Cache A → Cache A
  invalidate c = record { current = none; loaded_at = 0 }

  -- `now.Sub(loaded) < ttl`, where the difference may be negative.
  unfoldable pub is_fresh : ℕ → Time → Cache A → Bool
  is_fresh ttl now c = not (c.loaded_at == 0) && ltb now (c.loaded_at + ttl)

  -- The check at the head of a lookup, and again under the lock.
  unfoldable pub serve : ℕ → Time → Cache A → Option A
  unfolding is_fresh
  serve ttl now c = if is_fresh ttl now c then c.current else none

  -- What follows the database's answer.
  unfoldable pub settle : Time → Option A → Cache A → Cache A × Option A
  settle now none c = (c, c.current)
  settle now (some compiled) c =
      (record { current = some compiled; loaded_at = now }, some compiled)

  -- One lookup. `first` and `second` are the readings of the two checks, `third` the one that is
  -- stored; the result `none` is the error.
  unfoldable pub lookup : ℕ → Time → Time → Time → Option A → Cache A → Cache A × Option A
  unfolding serve settle
  lookup ttl first second third answer c = elim (serve ttl first c) [
    | some rules ↦ (c, some rules)
    | none ↦ elim (serve ttl second c) [
      | some rules ↦ (c, some rules)
      | none ↦ settle third answer c
    ]
  ]
