-- ===== src/Bitset/Access.antt =====
-- The bits of a bitset by their index, and what `test`, `set`, `reset`, `push_back` and `resize` of
-- include/bm/bm_sim/dynamic_bitset.h do to each of them.
use Prim.Native.Nat.{bit_and, bit_or, bit_xor}
use native.Mathlib.Nat.{mod-eq_of_lt, pow-le-pow_right, mul-div_left}
use native.Mathlib.Decide.{ℕ_discrete}
use prog_tm_bmv.Base.{
  ℕ, zero, suc, ◌+◌, ◌-◌, ◌*◌, ◌/◌, ◌%◌, ◌^◌, ◌<◌, ◌≡◌, ◌≢◌, refl, ap, ◌∙◌, arith, min, max, not,
  ◌==◌, if◌then◌else◌, List, [], length, get_or, set, get_or-set_self, get_or-set_ne,
}
use prog_tm_bmv.Bits.{
  bit, bit-bit_and, bit-bit_or, bit-pow, bit-zero, bit_ext, bit_and-lt, bit-complement, two_pow_pos,
  bit_small,
}
use prog_tm_bmv.Bitset.{DynamicBitset, word_at, test, set_bit, reset, shl, shr, complement}

-- Bit `i` of a vector of blocks; 0 past its end.
unfoldable pub bit_at : List ℕ → ℕ → ℕ
bit_at ws i = bit (get_or ws (i / 64) 0) (i % 64)

pub bit_at_small : (ws : List ℕ) (i : ℕ) → bit_at ws i < 2
unfolding bit_at
bit_at_small ws i = bit_small (get_or ws (i / 64) 0) (i % 64)

pub bit_at-nil : (i : ℕ) → bit_at [] i ≡ 0
unfolding bit_at
bit_at-nil i = bit-zero (i % 64)

-- Writing one block.
bit_at-set :
    (ws : List ℕ) (j w i : ℕ)
    → j < length ws
    → bit_at (set ws j w) i ≡ (if i / 64 == j then bit w (i % 64) else bit_at ws i)
unfolding bit_at
bit_at-set ws j w i h = elim (ℕ_discrete j (i / 64)) [
  | yes e ↦ ground (arith, get_or-set_self ws j w 0 h)
  | no ne ↦ ground (arith, get_or-set_ne ws j (i / 64) w 0 ne)
]

pub mask_lt : (k : ℕ) → k < 64 → 2 ^ k < 2 ^ 64
mask_lt k h = omega (arith, pow-le-pow_right {n = 2} (omega arith) {i = k} {j = 63} (omega arith))

mask : (k : ℕ) → k < 64 → shl 1 k ≡ 2 ^ k
mask k h = ap (λ x. x % 2 ^ 64) one ∙ mod-eq_of_lt (mask_lt k h)
  where
    one : 1 * 2 ^ k ≡ 2 ^ k
    one = omega arith

-- What a block holds under the mask of bit `k`.
masked : (w k : ℕ) → w < 2 ^ 64 → k < 64 → bit_and w (2 ^ k) ≡ bit w k * 2 ^ k
masked w k h l = elim (ℕ_discrete (bit w k) 0) [ yes off ↦ clear off | no on ↦ whole on ]
  where
    bits : (i : ℕ) → bit (bit_and w (2 ^ k)) i ≡ min (bit w i) (if i == k then 1 else 0)
    bits i = bit-bit_and w (2 ^ k) i ∙ ap (min (bit w i)) (bit-pow k i)

    clear : bit w k ≡ 0 → bit_and w (2 ^ k) ≡ bit w k * 2 ^ k
    clear off =
        bit_ext 64 _ 0 (bit_and-lt 64 w _ h) (two_pow_pos 64)
          (λ i p. ground (arith, bits i, bit-zero i))
        ∙ rw off (omega arith)

    unit : bit w k ≢ 0 → 2 ^ k ≡ bit w k * 2 ^ k
    unit on = let one : bit w k ≡ 1 = omega (arith, bit_small w k) in rw one (omega arith)

    whole : bit w k ≢ 0 → bit_and w (2 ^ k) ≡ bit w k * 2 ^ k
    whole on =
        bit_ext 64 _ (2 ^ k) (bit_and-lt 64 w _ h) (mask_lt k l)
          (λ i p. ground (arith, bits i, bit-pow k i, bit_small w k, bit_small w i))
        ∙ unit on

module _ (b : DynamicBitset) (idx : ℕ) where
  old_mask :
      bit_and (word_at b (idx / 64)) (shl 1 (idx % 64))
      ≡ bit_and (word_at b (idx / 64)) (2 ^ (idx % 64))
  old_mask = ap (bit_and (word_at b (idx / 64))) (mask (idx % 64) (omega arith))

  same_block : (i : ℕ) → i / 64 ≡ idx / 64 → bit (word_at b (idx / 64)) (i % 64) ≡ bit_at b.words i
  unfolding bit_at
  same_block i e = rw e

  written :
      (i : ℕ)
      → bit (bit_or (word_at b (idx / 64)) (shl 1 (idx % 64))) (i % 64)
        ≡ max (bit (word_at b (idx / 64)) (i % 64)) (if i % 64 == idx % 64 then 1 else 0)
  written i =
      rw (mask (idx % 64) (omega arith))
        (bit-bit_or _ _ (i % 64) ∙ ap (max _) (bit-pow (idx % 64) (i % 64)))

  cleared :
      (i : ℕ)
      → bit (bit_and (word_at b (idx / 64)) (complement (shl 1 (idx % 64)))) (i % 64)
        ≡ min (bit (word_at b (idx / 64)) (i % 64)) (1 - (if i % 64 == idx % 64 then 1 else 0))
  cleared i = rw (mask (idx % 64) (omega arith)) (
      bit-bit_and _ _ (i % 64)
      ∙ ap (min _) (
          bit-complement 64 (2 ^ (idx % 64)) (i % 64) (mask_lt (idx % 64) (omega arith))
            (omega arith)
          ∙ ap (λ x. 1 - x) (bit-pow (idx % 64) (i % 64))))

  module _ (fits : (i : ℕ) → word_at b i < 2 ^ 64) where
    old_bit :
        bit_and (word_at b (idx / 64)) (shl 1 (idx % 64)) ≡ bit_at b.words idx * 2 ^ (idx % 64)
    unfolding bit_at
    old_bit = old_mask ∙ masked (word_at b (idx / 64)) (idx % 64) (fits (idx / 64)) (omega arith)

    -- `old >> bit_idx`
    shifted_bit :
        shr (bit_and (word_at b (idx / 64)) (shl 1 (idx % 64))) (idx % 64) ≡ bit_at b.words idx
    shifted_bit =
        ap (λ x. x / 2 ^ (idx % 64)) old_bit
        ∙ mul-div_left (bit_at b.words idx) (two_pow_pos (idx % 64))

    old_zero : (bit_and (word_at b (idx / 64)) (shl 1 (idx % 64)) == 0) ≡ (bit_at b.words idx == 0)
    old_zero = rw old_bit (product (bit_at b.words idx) (bit_at_small b.words idx))
      where
        product : (x : ℕ) → x < 2 → (x * 2 ^ (idx % 64) == 0) ≡ (x == 0)
        product zero h = ground arith
        product (suc zero) h = ground (arith, two_pow_pos (idx % 64))
        product (suc (suc x)) h = absurd (omega arith)

    pub test_lem : test b idx ≡ not (bit_at b.words idx == 0)
    unfolding test
    test_lem = rw old_zero

    pub set_bit_changed : (set_bit b idx).1 ≡ (bit_at b.words idx == 0)
    unfolding set_bit
    set_bit_changed = old_zero

    pub reset_changed : (reset b idx).1 ≡ not (bit_at b.words idx == 0)
    unfolding reset
    reset_changed = rw old_zero

    pub set_bit_count :
        (set_bit b idx).0.num_bits_set ≡ (b.num_bits_set + (1 - bit_at b.words idx)) % 2 ^ 64
    unfolding set_bit
    set_bit_count = rw shifted_bit (ap (λ c. (b.num_bits_set + c) % 2 ^ 64) flip)
      where
        flip : bit_xor (bit_at b.words idx) 1 ≡ 1 - bit_at b.words idx
        flip = table (bit_at b.words idx) (bit_at_small b.words idx)
          where
            table : (x : ℕ) → x < 2 → bit_xor x 1 ≡ 1 - x
            table zero h = refl
            table (suc zero) h = refl
            table (suc (suc x)) h = absurd (omega arith)

    pub reset_count :
        (reset b idx).0.num_bits_set ≡ (b.num_bits_set + 2 ^ 64 - bit_at b.words idx) % 2 ^ 64
    unfolding reset
    reset_count = rw shifted_bit

  module _ (inside : idx / 64 < length b.words) where
    pub bit_at-set_bit :
        (i : ℕ) → bit_at (set_bit b idx).0.words i ≡ (if i == idx then 1 else bit_at b.words i)
    unfolding set_bit
    bit_at-set_bit i = ground (
      arith,
      bit_at-set b.words (idx / 64) (bit_or (word_at b (idx / 64)) (shl 1 (idx % 64))) i inside,
      written i,
      same_block i,
      bit_small (word_at b (idx / 64)) (i % 64),
    )

    pub bit_at-reset :
        (i : ℕ) → bit_at (reset b idx).0.words i ≡ (if i == idx then 0 else bit_at b.words i)
    unfolding reset
    bit_at-reset i = ground (
      arith,
      bit_at-set b.words (idx / 64) (bit_and (word_at b (idx / 64)) (complement (shl 1 (idx % 64))))
          i inside,
      cleared i,
      same_block i,
      bit_small (word_at b (idx / 64)) (i % 64),
    )
