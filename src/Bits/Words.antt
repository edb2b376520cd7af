-- ===== src/Bits/Words.antt =====
-- The bits of powers of two, complements, shifts and remainders, and words as their bits.
use Prim.Native.Nat.{bit_and, bit_or, bit_and-bitwise}
use native.Mathlib.Nat.{
  pow-suc, pow-succ', one-le-pow, div-add-mod, mul-add-mod_self_left, mod-eq_of_lt, mod-lt,
  div-div-eq-div-mul,
}
use prog_tm_bmv.Base.{
  ℕ, zero, suc, ◌+◌, ◌-◌, ◌*◌, ◌/◌, ◌%◌, ◌^◌, ◌≤◌, ◌<◌, ◌≡◌, refl, ap, sym, subst, ◌∙◌, arith, ltb,
  ◌==◌, if◌then◌else◌,
}
use prog_tm_bmv.Bits.Digits.{bit, bit_and_step, bit_or_step}

pub bit-zero : (i : ℕ) → bit 0 i ≡ 0
unfolding bit
bit-zero zero = refl
bit-zero (suc i) = bit-zero i

pub two_pow_pos : (n : ℕ) → 0 < 2 ^ n
two_pow_pos n = one-le-pow n 2 (omega arith)

pub bit-pow : (k i : ℕ) → bit (2 ^ k) i ≡ (if i == k then 1 else 0)
unfolding bit
bit-pow zero zero = refl
bit-pow zero (suc i) = rw (bit-zero i) (ground arith)
bit-pow (suc k) zero = ground (arith, pow-suc 2 k)
bit-pow (suc k) (suc i) = rw half (rw (bit-pow k i) (ground arith))
  where
    half : 2 ^ suc k / 2 ≡ 2 ^ k
    half = omega (arith, pow-suc 2 k)

-- Words of `n` bits with the same bits are the same number.
pub bit_ext : (n a b : ℕ) → a < 2 ^ n → b < 2 ^ n → ((i : ℕ) → i < n → bit a i ≡ bit b i) → a ≡ b
unfolding bit
bit_ext zero a b p q h = omega arith
bit_ext (suc n) a b p q h = omega (
  arith,
  h 0 (omega arith),
  bit_ext n (a / 2) (b / 2) (omega (arith, pow-suc 2 n)) (omega (arith, pow-suc 2 n))
      (λ i l. h (suc i) (omega arith)),
)

pub bit_above : (n w i : ℕ) → w < 2 ^ n → n ≤ i → bit w i ≡ 0
unfolding bit
bit_above zero w i p h = let e : w ≡ 0 = omega arith in rw e (bit-zero i)
bit_above (suc n) w zero p h = absurd (omega arith)
bit_above (suc n) w (suc i) p h = bit_above n (w / 2) i (omega (arith, pow-suc 2 n)) (omega arith)

-- `~a` in `n` bits.
pub bit-complement : (n a i : ℕ) → a < 2 ^ n → i < n → bit (2 ^ n - 1 - a) i ≡ 1 - bit a i
unfolding bit
bit-complement zero a i p h = absurd (omega arith)
bit-complement (suc n) a zero p h = omega (arith, pow-suc 2 n)
bit-complement (suc n) a (suc i) p h =
    rw half (bit-complement n (a / 2) i (omega (arith, pow-suc 2 n)) (omega arith))
  where
    half : (2 ^ suc n - 1 - a) / 2 ≡ 2 ^ n - 1 - a / 2
    half = omega (arith, pow-suc 2 n)

pub bit-ones : (n i : ℕ) → i < n → bit (2 ^ n - 1) i ≡ 1
bit-ones n i h =
    omega (arith, bit-complement n 0 i (two_pow_pos n) h, bit-zero i, ap (λ k. bit k i) whole)
  where
    whole : 2 ^ n - 1 - 0 ≡ 2 ^ n - 1
    whole = omega arith

-- `x << k` without a bound on the width.
pub bit-shl : (k x i : ℕ) → bit (x * 2 ^ k) i ≡ (if ltb i k then 0 else bit x (i - k))
unfolding bit
bit-shl zero x i = rw (same, still) (ground arith)
  where
    same : x * 2 ^ 0 ≡ x
    same = omega arith

    still : i - 0 ≡ i
    still = omega arith
bit-shl (suc k) x zero = ground (arith, double)
  where
    double : x * 2 ^ suc k ≡ 2 * (x * 2 ^ k)
    double = omega (arith, ap (λ (t : ℕ). x * t) (pow-suc 2 k))
bit-shl (suc k) x (suc i) = rw (half, bit-shl k x i) (ground (arith, ap (λ j. bit x j) less))
  where
    half : x * 2 ^ suc k / 2 ≡ x * 2 ^ k
    half = omega (arith, ap (λ (t : ℕ). x * t) (pow-suc 2 k))

    less : suc i - suc k ≡ i - k
    less = omega arith

-- The lowest digit of a remainder by an even number.
mod_double : (m x : ℕ) → 0 < m → x % (2 * m) ≡ 2 * (x / 2 % m) + x % 2
mod_double m x pos = subst (λ (y : ℕ). y % (2 * m) ≡ low) (sym split) small
  where
    low : ℕ
    low = 2 * (x / 2 % m) + x % 2

    split : x ≡ 2 * m * (x / 2 / m) + low
    split = omega (arith, div-add-mod (x / 2) m)

    small : (2 * m * (x / 2 / m) + low) % (2 * m) ≡ low
    small =
        mul-add-mod_self_left (2 * m) (x / 2 / m) low
        ∙ mod-eq_of_lt (omega (arith, mod-lt (x / 2) pos))

-- Cutting a number to `n` bits keeps its bits below `n`.
pub bit-mod : (n x i : ℕ) → i < n → bit (x % 2 ^ n) i ≡ bit x i
unfolding bit
bit-mod zero x i h = absurd (omega arith)
bit-mod (suc n) x zero h = omega (arith, double)
  where
    double : x % 2 ^ suc n ≡ 2 * (x / 2 % 2 ^ n) + x % 2
    double = rw pow-succ' (mod_double (2 ^ n) x (two_pow_pos n))
bit-mod (suc n) x (suc i) h = rw half (bit-mod n (x / 2) i (omega arith))
  where
    double : x % 2 ^ suc n ≡ 2 * (x / 2 % 2 ^ n) + x % 2
    double = rw pow-succ' (mod_double (2 ^ n) x (two_pow_pos n))

    half : x % 2 ^ suc n / 2 ≡ x / 2 % 2 ^ n
    half = omega (arith, double)

pub bit_and-lt : (n a b : ℕ) → a < 2 ^ n → bit_and a b < 2 ^ n
bit_and-lt zero a b h = omega (arith, bit_and_step a b, bit_and_zero (b / 2))
  where
    bit_and_zero : (b : ℕ) → bit_and (a / 2) b ≡ 0
    bit_and_zero b = let e : a / 2 ≡ 0 = omega arith in rw (e, bit_and-bitwise)
bit_and-lt (suc n) a b h = omega (
  arith,
  bit_and_step a b,
  pow-suc 2 n,
  bit_and-lt n (a / 2) (b / 2) (omega (arith, pow-suc 2 n)),
)

pub bit_or-lt : (n a b : ℕ) → a < 2 ^ n → b < 2 ^ n → bit_or a b < 2 ^ n
bit_or-lt zero a b h k =
    let p : a ≡ 0 = omega arith in let q : b ≡ 0 = omega arith in rw (p, q) (omega arith)
bit_or-lt (suc n) a b h k = omega (
  arith,
  bit_or_step a b,
  pow-suc 2 n,
  bit_or-lt n (a / 2) (b / 2) (omega (arith, pow-suc 2 n)) (omega (arith, pow-suc 2 n)),
)

-- `x >> k` moves bit `k + i` to bit `i`.
pub bit-shr : (k x i : ℕ) → bit (x / 2 ^ k) i ≡ bit x (k + i)
unfolding bit
bit-shr zero x i = rw (same, still)
  where
    same : x / 2 ^ 0 ≡ x
    same = omega arith

    still : 0 + i ≡ i
    still = omega arith
bit-shr (suc k) x i = rw (pow-succ', ← div-div-eq-div-mul, bit-shr k (x / 2) i, next)
  where
    next : suc k + i ≡ suc (k + i)
    next = omega arith

bit_and-le_fuel : (n a b : ℕ) → a ≤ n → bit_and a b ≤ b
bit_and-le_fuel n zero b h = rw bit_and-bitwise (omega arith)
bit_and-le_fuel zero (suc a) b h = absurd (omega arith)
bit_and-le_fuel (suc n) (suc a) b h =
    omega (arith, bit_and_step (suc a) b, bit_and-le_fuel n (suc a / 2) (b / 2) (omega arith))

pub bit_and-le_right : (a b : ℕ) → bit_and a b ≤ b
bit_and-le_right a b = bit_and-le_fuel a a b (omega arith)
