-- ===== src/Bitset/Grow.antt =====
-- `push_back` and `resize` of include/bm/bm_sim/dynamic_bitset.h: the blocks that they add are clear.
use native.Mathlib.Nat.{mod-eq_of_lt}
use mathlib.Core.List.{append-nil}
use prog_tm_bmv.Base.{
  ℕ, ◌+◌, ◌-◌, ◌/◌, ◌%◌, ◌^◌, ◌≤◌, ◌≡◌, ap, ◌∙◌, sym, inl, inr, arith, Bool-cases, true, ◌==◌,
  if◌then◌else◌, List, [], ◌∷◌, ◌++◌, length, length-append, length-replicate, replicate, take_all,
  get_or-append-replicate, sum_below, sum_below_extend, sum_below_ext,
}
use prog_tm_bmv.Bitset.{DynamicBitset, set_bit, push_back, resize}
use prog_tm_bmv.Bitset.Access.{bit_at, bit_at-set_bit}
use prog_tm_bmv.Bitset.Inv.{IsValid, inside, set_bit-IsValid, num_bits-set_bit, count-set_bit}

bit_at-append-replicate : (ws : List ℕ) (k i : ℕ) → bit_at (ws ++ replicate k 0) i ≡ bit_at ws i
unfolding bit_at
bit_at-append-replicate ws k i = rw (get_or-append-replicate ws k (i / 64) 0)

-- A bitset made longer by `k` clear blocks.
abbrev grown : DynamicBitset → ℕ → ℕ → DynamicBitset
grown b k n = record b { words = b.words ++ replicate k 0; num_bits = n }

grown-IsValid :
    (b : DynamicBitset) (k n : ℕ)
    → IsValid b
    → b.num_bits ≤ n
    → n + 64 ≤ 2 ^ 64
    → length b.words + k ≡ (n + 63) / 64
    → IsValid (grown b k n)
grown-IsValid b k n v more small fits = record {
  blocks = λ i. rw (get_or-append-replicate b.words k i 0) (v.blocks i);
  packed = omega (arith, length-append b.words (replicate k 0), length-replicate {A = ℕ} k 0, fits);
  clear_above = λ i h. bit_at-append-replicate b.words k i ∙ v.clear_above i (omega (arith, more));
  counted = v.counted ∙ sym same_sum;
  bounded = small;
}
  where
    longer : n ≡ n - b.num_bits + b.num_bits
    longer = omega arith

    same_sum :
        sum_below (bit_at (b.words ++ replicate k 0)) n ≡ sum_below (bit_at b.words) b.num_bits
    same_sum =
        sum_below_ext _ (bit_at b.words) n (λ i l. bit_at-append-replicate b.words k i)
        ∙ ap (sum_below (bit_at b.words)) longer
        ∙ sum_below_extend (bit_at b.words) b.num_bits (n - b.num_bits) v.clear_above

-- A block is added when the last one is full.
abbrev new_blocks : DynamicBitset → ℕ
new_blocks b = if b.num_bits % 64 == 0 then 1 else 0

push_back_words :
    (b : DynamicBitset)
    → (if b.num_bits % 64 == 0 then b.words ++ 0 ∷ [] else b.words)
      ≡ b.words ++ replicate (new_blocks b) 0
push_back_words b = elim (Bool-cases (b.num_bits % 64 == 0)) [
  | inl full ↦ rw full
  | inr room ↦ rw room (sym (append-nil b.words))
]

module _ (b : DynamicBitset) (v : IsValid b) (small : b.num_bits + 65 ≤ 2 ^ 64) where
  abbrev longer : DynamicBitset
  longer = grown b (new_blocks b) (b.num_bits + 1)

  longer-IsValid : IsValid longer
  longer-IsValid =
      grown-IsValid b (new_blocks b) (b.num_bits + 1) v (omega arith) (omega arith)
        (ground (arith, v.packed))

  push_back_eq : push_back b true ≡ (set_bit longer b.num_bits).0
  unfolding push_back
  push_back_eq = rw (push_back_words b, plus, last)
    where
      plus : (b.num_bits + 1) % 2 ^ 64 ≡ b.num_bits + 1
      plus = mod-eq_of_lt (omega arith)

      last : (b.num_bits + 1 + 2 ^ 64 - 1) % 2 ^ 64 ≡ b.num_bits
      last = omega arith

  -- Appending a set bit to a valid bitset with room for it leaves it valid.
  pub push_back-IsValid : IsValid (push_back b true)
  push_back-IsValid =
      rw push_back_eq (set_bit-IsValid longer longer-IsValid b.num_bits (omega arith))

  pub num_bits-push_back : (push_back b true).num_bits ≡ b.num_bits + 1
  num_bits-push_back = rw push_back_eq (num_bits-set_bit longer b.num_bits)

  pub bit_at-push_back :
      (i : ℕ)
      → bit_at (push_back b true).words i ≡ (if i == b.num_bits then 1 else bit_at b.words i)
  bit_at-push_back i = rw push_back_eq (
      bit_at-set_bit longer b.num_bits (inside longer longer-IsValid b.num_bits (omega arith)) i
      ∙ ap (λ x. if i == b.num_bits then 1 else x)
          (bit_at-append-replicate b.words (new_blocks b) i))

  pub count-push_back : (push_back b true).num_bits_set ≡ b.num_bits_set + 1
  count-push_back = rw push_back_eq (
      omega (
        arith,
        count-set_bit longer longer-IsValid b.num_bits (omega arith),
        bit_at-append-replicate b.words (new_blocks b) b.num_bits,
        v.clear_above b.num_bits (omega arith),
      ))

module _ (b : DynamicBitset) (v : IsValid b) (n : ℕ) (more : b.num_bits ≤ n)
    (small : n + 64 ≤ 2 ^ 64) where
  resize_eq : resize b n ≡ grown b ((n + 63) / 64 - length b.words) n
  unfolding resize
  resize_eq = rw (blocks, take_all ((n + 63) / 64) b.words (omega (arith, v.packed)))
    where
      blocks : (n + 64 - 1) % 2 ^ 64 / 64 ≡ (n + 63) / 64
      blocks = omega arith

  -- Growing a valid bitset, if it can grow to that size, leaves it valid.
  pub resize-IsValid : IsValid (resize b n)
  resize-IsValid =
      rw resize_eq
        (grown-IsValid b ((n + 63) / 64 - length b.words) n v more small (omega (arith, v.packed)))

  pub num_bits-resize : (resize b n).num_bits ≡ n
  num_bits-resize = rw resize_eq

  pub bit_at-resize : (i : ℕ) → bit_at (resize b n).words i ≡ bit_at b.words i
  bit_at-resize i = rw resize_eq (bit_at-append-replicate b.words _ i)

  pub count-resize : (resize b n).num_bits_set ≡ b.num_bits_set
  count-resize = rw resize_eq
