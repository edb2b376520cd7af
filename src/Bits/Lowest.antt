-- ===== src/Bits/Lowest.antt =====
-- The lowest set bit of a word: it exists in a word that is not zero, and `v & -v` isolates it.
use Prim.Native.Nat.{bit_and}
use native.Mathlib.Nat.{pow-suc}
use native.Mathlib.Decide.{dec_lt}
use prog_tm_bmv.Base.{ℕ, zero, suc, ◌-◌, ◌/◌, ◌%◌, ◌^◌, ◌<◌, ◌≡◌, ap, inl, inr, arith, Order-cases}
use prog_tm_bmv.Bits.Digits.{bit, bit_small, bit-bit_and, bit_and_step}
use prog_tm_bmv.Bits.Words.{bit-zero, bit_ext, bit-complement, bit_and-lt, two_pow_pos}

-- Bit `k` of `w` is set, and no bit below it.
abbrev pub IsLowest : ℕ → ℕ → Type 0
IsLowest w k = (bit w k ≡ 1) × ((i : ℕ) → i < k → bit w i ≡ 0)

IsLowest-half : (w k : ℕ) → w % 2 ≡ 0 → IsLowest (w / 2) k → IsLowest w (suc k)
unfolding bit
IsLowest-half w k even (one, zeros) = (one, below)
  where
    below : (i : ℕ) → i < suc k → bit w i ≡ 0
    below zero h = even
    below (suc i) h = zeros i (omega arith)

pub IsLowest-exists : (n w : ℕ) → 0 < w → w < 2 ^ n → (k : ℕ) × (k < n) × IsLowest w k
unfolding bit
IsLowest-exists zero w pos h = absurd (omega arith)
IsLowest-exists (suc n) w pos h = elim (dec_lt 0 (w % 2)) [
  | yes odd ↦ (0, omega arith, (omega arith, λ i l. absurd (omega arith)))
  | no even ↦
      let (k, lt, low) = IsLowest-exists n (w / 2) (omega arith) (omega (arith, pow-suc 2 n)) in
      (suc k, omega arith, IsLowest-half w k (omega arith) low)
]

pub lowest_unique : (w j k : ℕ) → IsLowest w j → IsLowest w k → j ≡ k
lowest_unique w j k (one, zeros) (one', zeros') = elim (Order-cases j k) [
  | inl lt ↦ absurd (omega (arith, zeros' j lt))
  | inr (inl e) ↦ e
  | inr (inr gt) ↦ absurd (omega (arith, zeros k gt))
]

-- A word and its complement share no bit.
pub bit_and-complement : (n a : ℕ) → a < 2 ^ n → bit_and a (2 ^ n - 1 - a) ≡ 0
bit_and-complement n a h = bit_ext n _ 0 (bit_and-lt n a _ h) (two_pow_pos n) λ i l.
    omega
      (arith, bit-bit_and a (2 ^ n - 1 - a) i, bit-complement n a i h l, bit-zero i, bit_small a i)

-- `v & -v` in `n` bits.
pub bit_and-neg : (n v k : ℕ) → v < 2 ^ n → k < n → IsLowest v k → bit_and v (2 ^ n - v) ≡ 2 ^ k
unfolding bit
bit_and-neg zero v k h l low = absurd (omega arith)
bit_and-neg (suc n) v zero h l low = omega (
  arith,
  pow-suc 2 n,
  bit_and_step v (2 ^ suc n - v),
  ap (bit_and (v / 2)) half,
  bit_and-complement n (v / 2) (omega (arith, pow-suc 2 n)),
  low.0,
)
  where
    half : (2 ^ suc n - v) / 2 ≡ 2 ^ n - 1 - v / 2
    half = omega (arith, pow-suc 2 n, low.0)
bit_and-neg (suc n) v (suc k) h l low = omega (
  arith,
  pow-suc 2 k,
  pow-suc 2 n,
  bit_and_step v (2 ^ suc n - v),
  ap (bit_and (v / 2)) half,
  bit_and-neg n (v / 2) k (omega (arith, pow-suc 2 n)) (omega arith)
      (low.0, λ i p. low.1 (suc i) (omega arith)),
  low.1 0 (omega arith),
)
  where
    half : (2 ^ suc n - v) / 2 ≡ 2 ^ n - v / 2
    half = omega (arith, pow-suc 2 n, low.1 0 (omega arith))
