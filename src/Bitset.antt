-- ===== src/Bitset.antt =====
-- include/bm/bm_sim/dynamic_bitset.h: a growing bit vector in 64-bit blocks. The bounds that the code
-- asserts are the callers' to keep; a read outside the vector of blocks gives 0 here.
mod LowestBit
pub mod Access
pub mod Inv
pub mod Grow
pub mod Scan
pub mod ScanUnset
pub mod Equal
mod Tests
use Prim.Native.Nat.{bit_and, bit_or, bit_xor}
use prog_tm_bmv.Base.{
  ℕ, ◌+◌, ◌-◌, ◌*◌, ◌/◌, ◌%◌, ◌^◌, Bool, true, false, ◌&&◌, List, [], ◌∷◌, ◌++◌, leb, ◌==◌, not,
  if◌then◌else◌, length, get_or, set, drop, take, replicate,
}

abbrev pub block_width : ℕ
block_width = 64

abbrev pub ones : ℕ
ones = 2 ^ 64 - 1

-- `static_cast<size_type>(-1)`
abbrev pub npos : ℕ
npos = 2 ^ 64 - 1

-- `x << k`, `x >> k` and `~x` of an `unsigned long`
abbrev pub shl : ℕ → ℕ → ℕ
shl x k = x * 2 ^ k % 2 ^ 64

abbrev pub shr : ℕ → ℕ → ℕ
shr x k = x / 2 ^ k

abbrev pub complement : ℕ → ℕ
complement x = 2 ^ 64 - 1 - x

abbrev de_bruijn : List ℕ
de_bruijn =
    0 ∷ 1 ∷ 28 ∷ 2 ∷ 29 ∷ 14 ∷ 24 ∷ 3 ∷ 30 ∷ 22 ∷ 20 ∷ 15 ∷ 25 ∷ 17 ∷ 4 ∷ 8 ∷ 31 ∷ 27 ∷ 13 ∷ 23 ∷ 21
    ∷ 19 ∷ 16 ∷ 7 ∷ 26 ∷ 12 ∷ 18 ∷ 6 ∷ 11 ∷ 5 ∷ 10 ∷ 9 ∷ []

-- the table entry for a word that is `v & -v`
unfoldable pub de_bruijn_position : ℕ → ℕ
de_bruijn_position isolated = get_or de_bruijn (isolated * 0x077CB531 % 2 ^ 32 / 2 ^ 27) 0

unfoldable pub find_lowest_bit32 : ℕ → ℕ
find_lowest_bit32 v = de_bruijn_position (bit_and v ((2 ^ 32 - v) % 2 ^ 32))

unfoldable pub find_lowest_bit : ℕ → ℕ
find_lowest_bit v =
    let sw = bit_and v 0xFFFFFFFF in
    if sw == 0 then 32 + find_lowest_bit32 (v / 2 ^ 32 % 2 ^ 32) else find_lowest_bit32 sw

pub record DynamicBitset : Type 0 where
  pub words : List ℕ
  pub num_bits : ℕ
  pub num_bits_set : ℕ

abbrev pub empty : DynamicBitset
empty = record { words = []; num_bits = 0; num_bits_set = 0 }

abbrev pub word_at : DynamicBitset → ℕ → ℕ
word_at b i = get_or b.words i 0

unfoldable pub size : DynamicBitset → ℕ
size b = b.num_bits

unfoldable pub count : DynamicBitset → ℕ
count b = b.num_bits_set

unfoldable pub test : DynamicBitset → ℕ → Bool
test b idx = not (bit_and (word_at b (idx / block_width)) (shl 1 (idx % block_width)) == 0)

-- Each of the two returns the bitset and whether the bit changed.
unfoldable pub set_bit : DynamicBitset → ℕ → DynamicBitset × Bool
set_bit b idx =
    let mask = shl 1 (idx % block_width) in
    let old = bit_and (word_at b (idx / block_width)) mask in
    (
      record {
        words = set b.words (idx / block_width) (bit_or (word_at b (idx / block_width)) mask);
        num_bits = b.num_bits;
        num_bits_set = (b.num_bits_set + bit_xor (shr old (idx % block_width)) 1) % 2 ^ 64;
      },
      old == 0,
    )

unfoldable pub reset : DynamicBitset → ℕ → DynamicBitset × Bool
reset b idx =
    let mask = shl 1 (idx % block_width) in
    let old = bit_and (word_at b (idx / block_width)) mask in
    (
      record {
        words =
            set b.words (idx / block_width)
              (bit_and (word_at b (idx / block_width)) (complement mask));
        num_bits = b.num_bits;
        num_bits_set = (b.num_bits_set + 2 ^ 64 - shr old (idx % block_width)) % 2 ^ 64;
      },
      not (old == 0),
    )

unfoldable pub push_back : DynamicBitset → Bool → DynamicBitset
unfolding set_bit
push_back b v =
    let words' = if b.num_bits % block_width == 0 then b.words ++ 0 ∷ [] else b.words in
    let grown = record b { words = words'; num_bits = (b.num_bits + 1) % 2 ^ 64 } in
    if v then (set_bit grown ((grown.num_bits + 2 ^ 64 - 1) % 2 ^ 64)).0 else grown

unfoldable pub clear : DynamicBitset → DynamicBitset
clear b = empty

-- `std::vector::resize`
abbrev resize_words : List ℕ → ℕ → List ℕ
resize_words ws n = take n ws ++ replicate (n - length ws) 0

unfoldable pub resize : DynamicBitset → ℕ → DynamicBitset
resize b new_num_bits = record b {
  words = resize_words b.words ((new_num_bits + block_width - 1) % 2 ^ 64 / block_width);
  num_bits = new_num_bits;
}

-- The scans over the blocks from index `i` on; the list is `words[i..]`.
unfoldable pub find_from : List ℕ → ℕ → ℕ
find_from [] i = npos
find_from (w ∷ ws) i =
    let rest = find_from ws (i + 1) in if w == 0 then rest else i * block_width + find_lowest_bit w

unfoldable pub find_unset_from : List ℕ → ℕ → ℕ
find_unset_from [] i = npos
find_unset_from (w ∷ ws) i =
    let rest = find_unset_from ws (i + 1) in
    if w == ones then rest else i * block_width + find_lowest_bit (complement w)

unfoldable pub find_from_block : DynamicBitset → ℕ → ℕ
find_from_block b word_idx = find_from (drop word_idx b.words) word_idx

unfoldable pub find_unset_from_block : DynamicBitset → ℕ → ℕ
find_unset_from_block b word_idx = find_unset_from (drop word_idx b.words) word_idx

unfoldable pub find_first : DynamicBitset → ℕ
find_first b = find_from_block b 0

-- the scan for a set bit from `idx` on
unfoldable pub scan_set : DynamicBitset → ℕ → ℕ
scan_set b idx =
    let sw = bit_and (word_at b (idx / block_width)) (shl ones (idx % block_width)) in
    if sw == 0
    then find_from_block b (idx / block_width + 1)
    else idx / block_width * block_width + find_lowest_bit sw

unfoldable pub find_next : DynamicBitset → ℕ → ℕ
find_next b idx =
    let next = (idx + 1) % 2 ^ 64 in if leb b.num_bits next then npos else scan_set b next

unfoldable pub find_unset_first : DynamicBitset → ℕ
find_unset_first b = find_unset_from_block b 0

-- the scan for a clear bit from `idx` on
unfoldable pub scan_unset : DynamicBitset → ℕ → ℕ
scan_unset b idx =
    let sw = bit_or (word_at b (idx / block_width)) (complement (shl ones (idx % block_width))) in
    if sw == ones
    then find_unset_from_block b (idx / block_width + 1)
    else idx / block_width * block_width + find_lowest_bit (complement sw)

unfoldable pub find_unset_next : DynamicBitset → ℕ → ℕ
find_unset_next b idx =
    let next = (idx + 1) % 2 ^ 64 in if leb b.num_bits next then npos else scan_unset b next

unfoldable pub words_equal : List ℕ → List ℕ → Bool
words_equal [] [] = true
words_equal [] (y ∷ ys) = false
words_equal (x ∷ xs) [] = false
words_equal (x ∷ xs) (y ∷ ys) = (x == y) && words_equal xs ys

-- `operator==`
unfoldable pub equal : DynamicBitset → DynamicBitset → Bool
equal b other = (b.num_bits == other.num_bits) && words_equal b.words other.words
