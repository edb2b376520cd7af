-- ===== src/Base/Sums.antt =====
-- Sums of a function over the numbers below a bound.
use Prim.Native.Nat.{ℕ, zero, suc, ◌+◌, ◌≤◌, ◌<◌}
use mathlib.Core.Path.{◌≡◌, refl, sym, ap}
use mathlib.Core.Logic.{◌≢◌, inl, inr}
use native.Mathlib.Omega.{arith}
use prog_tm_bmv.Base.Tests.{Order-cases}

unfoldable pub sum_below : (ℕ → ℕ) → ℕ → ℕ
sum_below f zero = 0
sum_below f (suc n) = f n + sum_below f n

pub sum_below-le : (f : ℕ → ℕ) (n : ℕ) → ((i : ℕ) → f i < 2) → sum_below f n ≤ n
unfolding sum_below
sum_below-le f zero h = omega arith
sum_below-le f (suc n) h = omega (arith, h n, sum_below-le f n h)

pub sum_below_ext :
    (f g : ℕ → ℕ) (n : ℕ) → ((i : ℕ) → i < n → f i ≡ g i) → sum_below f n ≡ sum_below g n
unfolding sum_below
sum_below_ext f g zero h = refl
sum_below_ext f g (suc n) h =
    omega (arith, h n (omega arith), sum_below_ext f g n (λ i p. h i (omega arith)))

-- Changing the function at one place.
pub sum_below_change :
    (f g : ℕ → ℕ) (n j : ℕ)
    → j < n
    → ((i : ℕ) → i ≢ j → g i ≡ f i)
    → sum_below g n + f j ≡ sum_below f n + g j
unfolding sum_below
sum_below_change f g zero j l h = absurd (omega arith)
sum_below_change f g (suc n) j l h = elim (Order-cases j n) [
  | inl lt ↦ omega (arith, sum_below_change f g n j lt h, h n (omega arith))
  | inr (inl e) ↦ rw e (omega (arith, sum_below_ext f g n (λ i p. sym (h i (omega arith)))))
  | inr (inr gt) ↦ absurd (omega arith)
]

-- Zeros at the end add nothing.
pub sum_below_extend :
    (f : ℕ → ℕ) (n k : ℕ) → ((i : ℕ) → n ≤ i → f i ≡ 0) → sum_below f (k + n) ≡ sum_below f n
unfolding sum_below
sum_below_extend f n zero h = ap (sum_below f) (omega arith)
sum_below_extend f n (suc k) h =
    rw next (omega (arith, h (k + n) (omega arith), sum_below_extend f n k h))
  where
    next : suc k + n ≡ suc (k + n)
    next = omega arith

pub sum_below-at : (f : ℕ → ℕ) (n i : ℕ) → i < n → f i ≤ sum_below f n
unfolding sum_below
sum_below-at f zero i h = absurd (omega arith)
sum_below-at f (suc n) i h = elim (Order-cases i n) [
  | inl lt ↦ omega (arith, sum_below-at f n i lt)
  | inr (inl e) ↦ rw e (omega arith)
  | inr (inr gt) ↦ absurd (omega arith)
]
