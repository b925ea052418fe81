-- ===== src/Common/Floats.antt =====
-- The values of float64, a finite one as an exact quotient.
use Prim.Native.Nat.{ℕ, suc, ◌*◌}
use mathlib.Core.Bool.{Bool, true, false}
use fleetsweeper.Common.Tests.{leb}
use fleetsweeper.Common.Integers.{ℤ, pos, negsuc}

-- `ratio n d` is n divided by d + 1.
pub data Float : Type 0 where
  ratio : ℤ → ℕ → Float
  nan infinity minus_infinity : Float

-- `f >= n`
unfoldable pub float_at_least : ℕ → Float → Bool
float_at_least n (ratio (pos a) d) = leb (n * suc d) a
float_at_least n (ratio (negsuc a) d) = false
float_at_least n nan = false
float_at_least n infinity = true
float_at_least n minus_infinity = false
