-- ===== src/Bitset/Equal.antt =====
-- `operator==` of include/bm/bm_sim/dynamic_bitset.h, which compares blocks, by the bits.
use prog_tm_bmv.Base.{
  ℕ, zero, suc, ◌+◌, ◌*◌, ◌/◌, ◌%◌, ◌<◌, ◌≡◌, ◌↔◌, refl, ap, sym, ◌∙◌, arith, true, List, [], ◌∷◌,
  length, get_or,
}
use native.Mathlib.Decide.{dec_lt}
use prog_tm_bmv.Bits.{bit, bit_ext}
use prog_tm_bmv.Bitset.{DynamicBitset, words_equal, equal}
use prog_tm_bmv.Bitset.Access.{bit_at}
use prog_tm_bmv.Bitset.Inv.{IsValid}

same_words :
    (xs ys : List ℕ)
    → length xs ≡ length ys
    → ((j : ℕ) → get_or xs j 0 ≡ get_or ys j 0)
    → words_equal xs ys ≡ true
unfolding words_equal
same_words [] [] l e = refl
same_words [] (y ∷ ys) l e = absurd (omega (arith, l))
same_words (x ∷ xs) [] l e = absurd (omega (arith, l))
same_words (x ∷ xs) (y ∷ ys) l e =
    let rest = same_words xs ys (omega (arith, l)) (λ j. e (suc j)) in ground (arith, e 0, rest)

words_same : (xs ys : List ℕ) → words_equal xs ys ≡ true → (j : ℕ) → get_or xs j 0 ≡ get_or ys j 0
unfolding words_equal
words_same [] [] e j = refl
words_same [] (y ∷ ys) e j = absurd (ground arith)
words_same (x ∷ xs) [] e j = absurd (ground arith)
words_same (x ∷ xs) (y ∷ ys) e zero = ground arith
words_same (x ∷ xs) (y ∷ ys) e (suc j) = words_same xs ys (ground arith) j

-- a bit of a block, by its index
bit-block : (ws : List ℕ) (j i : ℕ) → i < 64 → bit (get_or ws j 0) i ≡ bit_at ws (j * 64 + i)
unfolding bit_at
bit-block ws j i h =
    sym
      (ap (λ k. bit (get_or ws k 0) ((j * 64 + i) % 64)) block ∙ ap (bit (get_or ws j 0)) position)
  where
    block : (j * 64 + i) / 64 ≡ j
    block = omega (arith, h)

    position : (j * 64 + i) % 64 ≡ i
    position = omega (arith, h)

module _ (b other : DynamicBitset) (v : IsValid b) (w : IsValid other) where
  same_blocks :
      b.num_bits ≡ other.num_bits
      → ((i : ℕ) → i < b.num_bits → bit_at b.words i ≡ bit_at other.words i)
      → (j : ℕ) → get_or b.words j 0 ≡ get_or other.words j 0
  same_blocks n e j =
      bit_ext 64 (get_or b.words j 0) (get_or other.words j 0) (v.blocks j) (w.blocks j)
        (λ i h. bit-block b.words j i h ∙ at (j * 64 + i) ∙ sym (bit-block other.words j i h))
    where
      at : (i : ℕ) → bit_at b.words i ≡ bit_at other.words i
      at i = elim (dec_lt i b.num_bits) [
        | yes inside ↦ e i inside
        | no above ↦ v.clear_above i (omega arith) ∙ sym (w.clear_above i (omega (arith, n)))
      ]

  -- Two valid bitsets are equal exactly if they have the same number of bits and the same bits.
  pub equal-bits : (equal b other ≡ true) ↔ (
      (b.num_bits ≡ other.num_bits)
      × ((i : ℕ) → i < b.num_bits → bit_at b.words i ≡ bit_at other.words i))
  unfolding equal bit_at
  equal-bits = (
    λ e.
        let sizes : b.num_bits ≡ other.num_bits = ground arith in
        let words : words_equal b.words other.words ≡ true = ground arith in
        (sizes, λ i h. ap (λ x. bit x (i % 64)) (words_same b.words other.words words (i / 64))),
    λ (n, e).
        let words =
          same_words b.words other.words (omega (arith, v.packed, w.packed, n)) (same_blocks n e) in
        ground (arith, n, words),
  )
