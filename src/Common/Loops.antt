-- ===== src/Common/Loops.antt =====
-- Checks of a whole range of numbers, by evaluation.
use Prim.Native.Nat.{ℕ, zero, suc, ◌<◌}
use mathlib.Core.Path.{◌≡◌}
use mathlib.Core.Bool.{Bool, true, false}
use native.Mathlib.Omega.{arith}
use linux.Common.Tests.{if◌then◌else◌}

-- `test` holds at every number below `limit`.
unfoldable pub holds_below : ℕ → (ℕ → Bool) → Bool
holds_below zero test = true
holds_below (suc limit) test = if test limit then holds_below limit test else false

pub holds-of_below :
    (limit : ℕ) (test : ℕ → Bool) (i : ℕ)
    → holds_below limit test ≡ true
    → i < limit
    → test i ≡ true
unfolding holds_below
holds-of_below zero test i all_ l = elim l [ ]
holds-of_below (suc limit) test i all_ l = ground (arith, holds-of_below limit test i)
