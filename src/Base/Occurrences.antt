-- ===== src/Base/Occurrences.antt =====
-- How often a number occurs in a list.
use Prim.Native.Nat.{ℕ, ◌+◌}
use mathlib.Core.Path.{◌≡◌}
use mathlib.Core.Bool.{Bool, true, false}
use mathlib.Core.List.{List, [], ◌∷◌, ◌++◌}
use native.Mathlib.Omega.{arith}
use prog_tm_bmv.Base.Tests.{◌==◌}

abbrev pub as_bit : Bool → ℕ
as_bit true = 1
as_bit false = 0

unfoldable pub occurrences : ℕ → List ℕ → ℕ
occurrences h [] = 0
occurrences h (x ∷ xs) = as_bit (x == h) + occurrences h xs

pub occurrences-append :
    (h x : ℕ) (xs : List ℕ) → occurrences h (xs ++ x ∷ []) ≡ occurrences h xs + as_bit (x == h)
unfolding occurrences
occurrences-append h x [] = omega arith
occurrences-append h x (y ∷ ys) = omega (arith, occurrences-append h x ys)
