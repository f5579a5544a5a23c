-- ===== src/Common/Tables.antt =====
-- Facts over a small range, checked at every value by evaluation.
use Prim.Native.Nat.{ℕ, zero, suc, ◌<◌}
use mathlib.Core.Path.{◌≡◌}
use mathlib.Core.Bool.{Bool, true, false}
use native.Mathlib.Omega.{arith}
use tuple_os.Common.Tests.{if◌then◌else◌}

-- The test passes at every number below `top`.
unfoldable pub holds_below : ℕ → (ℕ → Bool) → Bool
holds_below zero test = true
holds_below (suc top) test = let rest = holds_below top test in if test top then rest else false

pub holds_below_lem :
    (top : ℕ) (test : ℕ → Bool) (k : ℕ) → holds_below top test ≡ true → k < top → test k ≡ true
unfolding holds_below
holds_below_lem zero test k e h = absurd (omega arith)
holds_below_lem (suc top) test k e h = ground (arith, holds_below_lem top test k)
