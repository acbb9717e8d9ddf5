-- ===== src/Gates/Cache/Freshness.antt =====
-- What a lookup may serve, and what an invalidation is worth.
use aegisops_ai.Base.{ℕ, ◌+◌, ◌<◌, ◌≢◌, ◌≡◌, ◌⊎◌, Option, none, some, arith}
use aegisops_ai.Shared.{Time}
use aegisops_ai.Gates.Cache.{Cache, invalidate, is_fresh, settle, lookup}

module _ {A : Type 0} (ttl : ℕ) (first second third : Time) (answer : Option A) (c : Cache A) where
  -- Rules that a lookup serves are the database's answer of this lookup, or the cached ones, and
  -- these only while they are younger than the ttl at one of the two checks or when the database
  -- did not answer.
  pub lookup_origin :
      (rules : A)
      → (lookup ttl first second third answer c).1 ≡ some rules
      → (answer ≡ some rules)
        ⊎ ((c.current ≡ some rules)
            × ((answer ≡ none) ⊎ (first < c.loaded_at + ttl) ⊎ (second < c.loaded_at + ttl)))
  unfolding lookup is_fresh
  lookup_origin rules h = ground arith

-- With nothing cached a lookup fails closed: it gives what the database answers, and an error when
-- the database does not answer. So it does after an invalidation, whatever was cached before.
pub lookup-invalidate :
    {A : Type 0} (ttl : ℕ) (first second third : Time) (answer : Option A) (c : Cache A)
    → (lookup ttl first second third answer (invalidate c)).1 ≡ answer
unfolding lookup invalidate is_fresh
lookup-invalidate ttl first second third answer c = ground arith

-- An invalidation between the database's answer and its storing is lost: the answer, read before it,
-- is stored after it and served by every lookup within the ttl, without asking the database again.
pub invalidate_lost :
    {A : Type 0} (ttl : ℕ) (stored first second third : Time) (old : A) (answer : Option A)
    (c : Cache A)
    → stored ≢ 0
    → first < stored + ttl
    → (lookup ttl first second third answer (settle stored (some old) (invalidate c)).0).1
      ≡ some old
unfolding lookup invalidate is_fresh
invalidate_lost ttl stored first second third old answer c h k = ground arith
