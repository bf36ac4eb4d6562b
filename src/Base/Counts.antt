-- ===== src/Base/Counts.antt =====
-- How often a number stands in a list.
use Prim.Native.Nat.{ℕ, ◌+◌}
use mathlib.Core.Path.{◌≡◌}
use mathlib.Core.List.{List, [], ◌∷◌, ◌++◌}
use native.Mathlib.Omega.{arith}
use qth_frame.Base.Tests.{◌==◌, if◌then◌else◌}

abbrev pub times : ℕ → List ℕ → ℕ
times o [] = 0
times o (x ∷ xs) = (if x == o then 1 else 0) + times o xs

pub times-append : (o : ℕ) (xs ys : List ℕ) → times o (xs ++ ys) ≡ times o xs + times o ys
times-append o [] ys = omega arith
times-append o (x ∷ xs) ys = omega (arith, times-append o xs ys)
