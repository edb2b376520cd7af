-- ===== src/Bitset/LowestBit.antt =====
-- `find_lowest_bit` of include/bm/bm_sim/dynamic_bitset.h finds the lowest set bit.
use Prim.Native.Nat.{bit_and}
use native.Mathlib.Nat.{mod-eq_of_lt}
use native.Mathlib.Decide.{dec_lt}
use prog_tm_bmv.Base.{
  ℕ, zero, suc, ◌+◌, ◌-◌, ◌/◌, ◌%◌, ◌^◌, ◌<◌, ◌≡◌, ◌≢◌, refl, ap, ◌∙◌, sym, inl, inr, arith,
  Order-cases, Bool, true, ◌&&◌, ◌==◌,
}
use prog_tm_bmv.Bits.{
  bit, bit-bit_and, bit-ones, bit-shr, bit-zero, bit_ext, two_pow_pos, IsLowest, bit_and-neg,
  IsLowest-exists, bit_small, bit_and-le_right,
}
use prog_tm_bmv.Bitset.{find_lowest_bit, find_lowest_bit32, de_bruijn_position}

-- The table, at every isolated bit.
positions : ℕ → Bool
positions zero = true
positions (suc n) = (de_bruijn_position (2 ^ n) == n) && positions n

positions-true : positions 32 ≡ true
unfolding positions de_bruijn_position
positions-true = refl

position_lem : (n k : ℕ) → positions n ≡ true → k < n → de_bruijn_position (2 ^ k) ≡ k
unfolding positions
position_lem zero k h l = absurd (omega arith)
position_lem (suc n) k h l = elim (Order-cases k n) [
  | inl lt ↦ position_lem n k (ground arith) lt
  | inr (inl e) ↦ rw e (ground arith)
  | inr (inr gt) ↦ absurd (omega arith)
]

find_lowest_bit32_lem : (v k : ℕ) → v < 2 ^ 32 → k < 32 → IsLowest v k → find_lowest_bit32 v ≡ k
unfolding find_lowest_bit32
find_lowest_bit32_lem v k h l low =
    ap de_bruijn_position (ap (bit_and v) neg ∙ bit_and-neg 32 v k h l low)
    ∙ position_lem 32 k positions-true l
  where
    nonzero : v ≢ 0
    nonzero e = omega (arith, low.0, ap (λ w. bit w k) e, bit-zero k)

    neg : (2 ^ 32 - v) % 2 ^ 32 ≡ 2 ^ 32 - v
    neg = mod-eq_of_lt (omega (arith, nonzero))

low_half_bit : (v i : ℕ) → i < 32 → bit (bit_and v 0xFFFFFFFF) i ≡ bit v i
low_half_bit v i h = omega (arith, bit-bit_and v 0xFFFFFFFF i, bit-ones 32 i h, bit_small v i)

low_half_lt : (v : ℕ) → bit_and v 0xFFFFFFFF < 2 ^ 32
low_half_lt v = omega (arith, bit_and-le_right v 0xFFFFFFFF)

-- The lowest set bit of a block that is not zero.
pub find_lowest_bit_lem : (v k : ℕ) → v < 2 ^ 64 → k < 64 → IsLowest v k → find_lowest_bit v ≡ k
unfolding find_lowest_bit
find_lowest_bit_lem v k h l low = elim (dec_lt k 32) [
  | yes lower ↦ ground (arith, in_low lower, low_nonzero lower)
  | no upper ↦ ground (arith, low_zero upper, in_high upper)
]
  where
    low_lowest : k < 32 → IsLowest (bit_and v 0xFFFFFFFF) k
    low_lowest lower =
        (low_half_bit v k lower ∙ low.0, λ i p. low_half_bit v i (omega arith) ∙ low.1 i p)

    in_low : k < 32 → find_lowest_bit32 (bit_and v 0xFFFFFFFF) ≡ k
    in_low lower = find_lowest_bit32_lem _ k (low_half_lt v) lower (low_lowest lower)

    low_nonzero : k < 32 → bit_and v 0xFFFFFFFF ≢ 0
    low_nonzero lower e = omega (arith, (low_lowest lower).0, ap (λ w. bit w k) e, bit-zero k)

    low_zero : ¬ (k < 32) → bit_and v 0xFFFFFFFF ≡ 0
    low_zero upper =
        bit_ext 32 _ 0 (low_half_lt v) (two_pow_pos 32)
          λ i p. low_half_bit v i p ∙ low.1 i (omega arith) ∙ sym (bit-zero i)

    cut : v / 2 ^ 32 % 2 ^ 32 ≡ v / 2 ^ 32
    cut = mod-eq_of_lt (omega arith)

    rest : ¬ (k < 32) → 32 + (k - 32) ≡ k
    rest upper = omega arith

    high_lowest : ¬ (k < 32) → IsLowest (v / 2 ^ 32) (k - 32)
    high_lowest upper = (
      bit-shr 32 v (k - 32) ∙ ap (bit v) (rest upper) ∙ low.0,
      λ i p. bit-shr 32 v i ∙ low.1 (32 + i) (omega arith),
    )

    in_high : ¬ (k < 32) → 32 + find_lowest_bit32 (v / 2 ^ 32 % 2 ^ 32) ≡ k
    in_high upper =
        ap (λ w. 32 + find_lowest_bit32 w) cut
        ∙ ap (λ j. 32 + j)
            (find_lowest_bit32_lem _ (k - 32) (omega arith) (omega arith) (high_lowest upper))
        ∙ rest upper

-- For a 64-bit block that is not zero, the De Bruijn search returns the position of its lowest set
-- bit.
pub find_lowest_bit-IsLowest :
    (v : ℕ) → v < 2 ^ 64 → v ≢ 0 → (find_lowest_bit v < 64) × IsLowest v (find_lowest_bit v)
find_lowest_bit-IsLowest v h nz =
    let (k, lt, low) = IsLowest-exists 64 v (omega arith) h in
    rw (find_lowest_bit_lem v k h lt low) (lt, low)
