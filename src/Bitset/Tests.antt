-- ===== src/Bitset/Tests.antt =====
-- The theorems on include/bm/bm_sim/dynamic_bitset.h at bitsets of one and of two bits.
use prog_tm_bmv.Base.{ℕ, ◌≡◌, ◌<◌, ◌↔◌, arith, true}
use prog_tm_bmv.Bitset.{DynamicBitset, empty, push_back, equal, find_next}
use prog_tm_bmv.Bitset.Access.{bit_at}
use prog_tm_bmv.Bitset.Inv.{IsValid, empty-IsValid}
use prog_tm_bmv.Bitset.Grow.{push_back-IsValid, num_bits-push_back}
use prog_tm_bmv.Bitset.Equal.{equal-bits}
use prog_tm_bmv.Bitset.Scan.{FirstFrom, find_next-FirstFrom}

abbrev one_bit : DynamicBitset
one_bit = push_back empty true

one_bit-IsValid : IsValid one_bit
one_bit-IsValid = push_back-IsValid empty empty-IsValid (omega arith)

one_bit_size : one_bit.num_bits ≡ 1
one_bit_size = num_bits-push_back empty empty-IsValid (omega arith)

find_next-FirstFrom_example : FirstFrom (bit_at one_bit.words) 1 (find_next one_bit 0)
find_next-FirstFrom_example = find_next-FirstFrom one_bit 0 one_bit-IsValid (omega arith)

abbrev two_bits : DynamicBitset
two_bits = push_back one_bit true

two_bits-IsValid : IsValid two_bits
two_bits-IsValid = push_back-IsValid one_bit one_bit-IsValid (omega (arith, one_bit_size))

equal-bits_example : (equal one_bit two_bits ≡ true) ↔ (
    (one_bit.num_bits ≡ two_bits.num_bits)
    × ((i : ℕ) → i < one_bit.num_bits → bit_at one_bit.words i ≡ bit_at two_bits.words i))
equal-bits_example = equal-bits one_bit two_bits one_bit-IsValid two_bits-IsValid
