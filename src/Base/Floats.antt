-- ===== src/Base/Floats.antt =====
-- float64 as far as the program compares it. Every finite float64 is a whole multiple of 2^-1074,
-- so a finite value is given by that multiple, and comparison is exact.
use Prim.Native.Nat.{ℕ, ◌^◌}
use mathlib.Core.Bool.{Bool, true, false}
use aegisops_ai.Base.Tests.{ltb, leb}

-- `below n` is -(n + 1) * 2^-1074; `num n` is n * 2^-1074, both zeros as one.
pub data Float : Type 0 where
  nan : Float
  minus_inf : Float
  below : ℕ → Float
  num : ℕ → Float
  plus_inf : Float

-- Go's `<`: false if either side is not a number.
unfoldable pub lt_float : Float → Float → Bool
lt_float nan _ = false
lt_float _ nan = false
lt_float _ minus_inf = false
lt_float minus_inf _ = true
lt_float plus_inf _ = false
lt_float _ plus_inf = true
lt_float (below m) (below n) = ltb n m
lt_float (below _) (num _) = true
lt_float (num _) (below _) = false
lt_float (num m) (num n) = ltb m n

-- Go's `<=`.
unfoldable pub le_float : Float → Float → Bool
le_float nan _ = false
le_float _ nan = false
le_float minus_inf _ = true
le_float _ minus_inf = false
le_float _ plus_inf = true
le_float plus_inf _ = false
le_float (below m) (below n) = leb n m
le_float (below _) (num _) = true
le_float (num _) (below _) = false
le_float (num m) (num n) = leb m n

unfoldable pub zero_float : Float
zero_float = num 0

unfoldable pub one_float : Float
one_float = num (2 ^ 1074)
