-- ===== src/Bitset/Inv.antt =====
-- The representation invariant of a bitset, kept by every operation that changes it.
use native.Mathlib.Nat.{mod-eq_of_lt}
use prog_tm_bmv.Base.{
  ℕ, zero, suc, ◌+◌, ◌/◌, ◌^◌, ◌≤◌, ◌<◌, ◌≡◌, refl, ap, ◌∙◌, sym, arith, List, [], ◌∷◌, length,
  get_or, set, length-set, sum_below, sum_below-le, sum_below_change,
}
use prog_tm_bmv.Bits.{bit_and-lt, bit_or-lt}
use prog_tm_bmv.Bitset.{DynamicBitset, word_at, set_bit, reset, empty}
use prog_tm_bmv.Bitset.Access.{
  bit_at, bit_at_small, bit_at-nil, bit_at-set_bit, bit_at-reset, set_bit_count, reset_count,
}

-- Bits past `num_bits` are clear, so that a block comparison (`==`, `ones`) sees only real bits.
pub record IsValid (b : DynamicBitset) : Type 0 where
  pub blocks : (i : ℕ) → word_at b i < 2 ^ 64
  pub packed : length b.words ≡ (b.num_bits + 63) / 64
  pub clear_above : (i : ℕ) → b.num_bits ≤ i → bit_at b.words i ≡ 0
  pub counted : b.num_bits_set ≡ sum_below (bit_at b.words) b.num_bits
  pub bounded : b.num_bits + 64 ≤ 2 ^ 64

pub empty-IsValid : IsValid empty
unfolding sum_below
empty-IsValid = record {
  blocks = λ i. omega arith;
  packed = omega arith;
  clear_above = λ i h. bit_at-nil i;
  counted = refl;
  bounded = omega arith;
}

block-lt-set :
    (ws : List ℕ) (j w : ℕ)
    → ((i : ℕ) → get_or ws i 0 < 2 ^ 64)
    → w < 2 ^ 64
    → (i : ℕ) → get_or (set ws j w) i 0 < 2 ^ 64
block-lt-set [] j w h l i = h i
block-lt-set (x ∷ xs) zero w h l zero = l
block-lt-set (x ∷ xs) zero w h l (suc i) = h (suc i)
block-lt-set (x ∷ xs) (suc j) w h l zero = h 0
block-lt-set (x ∷ xs) (suc j) w h l (suc i) = block-lt-set xs j w (λ k. h (suc k)) l i

module _ (b : DynamicBitset) (v : IsValid b) where
  pub count_small : sum_below (bit_at b.words) b.num_bits ≤ b.num_bits
  count_small = sum_below-le (bit_at b.words) b.num_bits (bit_at_small b.words)

module _ (b : DynamicBitset) (idx : ℕ) where
  pub num_bits-set_bit : (set_bit b idx).0.num_bits ≡ b.num_bits
  unfolding set_bit
  num_bits-set_bit = refl

  pub num_bits-reset : (reset b idx).0.num_bits ≡ b.num_bits
  unfolding reset
  num_bits-reset = refl

  pub length-set_bit : length (set_bit b idx).0.words ≡ length b.words
  unfolding set_bit
  length-set_bit = length-set b.words (idx / 64) _

  pub length-reset : length (reset b idx).0.words ≡ length b.words
  unfolding reset
  length-reset = length-set b.words (idx / 64) _

module _ (b : DynamicBitset) (v : IsValid b) (idx : ℕ) (h : idx < b.num_bits) where
  pub inside : idx / 64 < length b.words
  inside = omega (arith, v.packed)

  set_bit_sum :
      sum_below (bit_at (set_bit b idx).0.words) b.num_bits + bit_at b.words idx
      ≡ sum_below (bit_at b.words) b.num_bits + 1
  set_bit_sum =
      sum_below_change (bit_at b.words) (bit_at (set_bit b idx).0.words) b.num_bits idx h
        (λ i ne. ground (arith, bit_at-set_bit b idx inside i))
      ∙ ground (arith, bit_at-set_bit b idx inside idx)

  reset_sum :
      sum_below (bit_at (reset b idx).0.words) b.num_bits + bit_at b.words idx
      ≡ sum_below (bit_at b.words) b.num_bits
  reset_sum =
      sum_below_change (bit_at b.words) (bit_at (reset b idx).0.words) b.num_bits idx h
        (λ i ne. ground (arith, bit_at-reset b idx inside i))
      ∙ ground (arith, bit_at-reset b idx inside idx)

  set_bit_counted :
      (set_bit b idx).0.num_bits_set ≡ sum_below (bit_at (set_bit b idx).0.words) b.num_bits
  set_bit_counted =
      set_bit_count b idx v.blocks
      ∙ mod-eq_of_lt (omega (arith, v.counted, v.bounded, count_small b v))
      ∙ omega (arith, set_bit_sum, v.counted, bit_at_small b.words idx)

  reset_counted : (reset b idx).0.num_bits_set ≡ sum_below (bit_at (reset b idx).0.words) b.num_bits
  reset_counted =
      reset_count b idx v.blocks
      ∙ omega (arith, reset_sum, v.counted, v.bounded, count_small b v, bit_at_small b.words idx)

  set_bit_blocks : (i : ℕ) → word_at (set_bit b idx).0 i < 2 ^ 64
  unfolding set_bit
  set_bit_blocks =
      block-lt-set b.words (idx / 64) _ v.blocks
        (bit_or-lt 64 _ _ (v.blocks (idx / 64)) (omega arith))

  reset_blocks : (i : ℕ) → word_at (reset b idx).0 i < 2 ^ 64
  unfolding reset
  reset_blocks =
      block-lt-set b.words (idx / 64) _ v.blocks
        (bit_and-lt 64 (word_at b (idx / 64)) _ (v.blocks (idx / 64)))

  -- Setting a bit inside a valid bitset leaves it valid.
  pub set_bit-IsValid : IsValid (set_bit b idx).0
  set_bit-IsValid = record {
    blocks = set_bit_blocks;
    packed =
        length-set_bit b idx ∙ v.packed ∙ ap (λ n. (n + 63) / 64) (sym (num_bits-set_bit b idx));
    clear_above = λ i l.
        ground (arith, bit_at-set_bit b idx inside i, num_bits-set_bit b idx, v.clear_above i);
    counted = rw (num_bits-set_bit b idx) set_bit_counted;
    bounded = rw (num_bits-set_bit b idx) v.bounded;
  }

  -- Clearing a bit inside a valid bitset leaves it valid.
  pub reset-IsValid : IsValid (reset b idx).0
  reset-IsValid = record {
    blocks = reset_blocks;
    packed = length-reset b idx ∙ v.packed ∙ ap (λ n. (n + 63) / 64) (sym (num_bits-reset b idx));
    clear_above =
        λ i l. ground (arith, bit_at-reset b idx inside i, num_bits-reset b idx, v.clear_above i);
    counted = rw (num_bits-reset b idx) reset_counted;
    bounded = rw (num_bits-reset b idx) v.bounded;
  }

  -- One bit more is counted, if the bit was clear.
  pub count-set_bit : (set_bit b idx).0.num_bits_set + bit_at b.words idx ≡ b.num_bits_set + 1
  count-set_bit = omega (arith, set_bit_counted, set_bit_sum, v.counted)

  -- One bit less is counted, if the bit was set.
  pub count-reset : (reset b idx).0.num_bits_set + bit_at b.words idx ≡ b.num_bits_set
  count-reset = omega (arith, reset_counted, reset_sum, v.counted)
