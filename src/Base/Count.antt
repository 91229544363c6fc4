-- ===== src/Base/Count.antt =====
-- How often a number stands in a list.
use Prim.Native.Nat.{ℕ, ◌+◌}
use mathlib.Core.Path.{◌≡◌}
use mathlib.Core.List.{List, [], ◌∷◌, ◌++◌}
use native.Mathlib.Omega.{arith}
use pggat.Base.Tests.{◌==◌, if◌then◌else◌}

abbrev pub count : ℕ → List ℕ → ℕ
count d [] = 0
count d (x ∷ xs) = (if x == d then 1 else 0) + count d xs

abbrev pub remove_all : ℕ → List ℕ → List ℕ
remove_all c [] = []
remove_all c (x ∷ xs) = if x == c then remove_all c xs else x ∷ remove_all c xs

pub count-append : (d : ℕ) (xs ys : List ℕ) → count d (xs ++ ys) ≡ count d xs + count d ys
count-append d [] ys = omega arith
count-append d (x ∷ xs) ys = omega (arith, count-append d xs ys)

pub count-remove_all :
    (d c : ℕ) (xs : List ℕ) → count d (remove_all c xs) ≡ (if c == d then 0 else count d xs)
count-remove_all d c [] = ground arith
count-remove_all d c (x ∷ xs) = ground (arith, count-remove_all d c xs)
