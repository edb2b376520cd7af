-- ===== src/Bitset/ScanUnset.antt =====
-- The search for a clear bit in include/bm/bm_sim/dynamic_bitset.h.
use Prim.Native.Nat.{bit_or}
use native.Mathlib.Decide.{dec_lt}
use prog_tm_bmv.Base.{
  ℕ, zero, suc, ◌+◌, ◌-◌, ◌*◌, ◌/◌, ◌%◌, ◌^◌, ◌≤◌, ◌<◌, ◌≡◌, refl, ap, ◌∙◌, inl, inr, ◌⊎◌, arith,
  Bool-cases, true, false, ◌==◌, ltb, leb, le→leb, if◌then◌else◌, List, [], ◌∷◌, map, length,
  get_or, drop,
}
use prog_tm_bmv.Bits.{bit, bit-bit_or, bit-complement, bit_small, bit_or-lt}
use prog_tm_bmv.Bitset.{
  DynamicBitset, word_at, npos, ones, shl, complement, find_lowest_bit, find_from, find_unset_from,
  find_unset_next, scan_unset, find_unset_from_block,
}
use prog_tm_bmv.Bitset.Access.{bit_at, bit_at_small, bit_at-nil}
use prog_tm_bmv.Bitset.Inv.{IsValid}
use prog_tm_bmv.Bitset.Scan.{
  AreBlocks, FirstFrom, bit_at-cons, scan_cons, find_from-Scanned, bit-shl-ones, blocks-drop,
  from_bit, first_of_scan,
}

-- Clear bits of a block are set bits of its complement.
find_unset_from-eq :
    (ws : List ℕ) (i : ℕ) → AreBlocks ws → find_unset_from ws i ≡ find_from (map complement ws) i
unfolding find_unset_from find_from
find_unset_from-eq [] i fits = refl
find_unset_from-eq (w ∷ ws) i fits =
    ground (arith, fits 0, find_unset_from-eq ws (i + 1) (λ j. fits (suc j)))

bit_at-map-complement :
    (ws : List ℕ) (j : ℕ)
    → AreBlocks ws
    → bit_at (map complement ws) j ≡ (if ltb (j / 64) (length ws) then 1 - bit_at ws j else 0)
bit_at-map-complement [] j fits = bit_at-nil j ∙ ground arith
bit_at-map-complement (w ∷ ws) j fits =
    bit_at-cons (complement w) (map complement ws) j
    ∙ ground (
      arith,
      bit-complement 64 w j (fits 0),
      bit_at-map-complement ws (j - 64) (λ i. fits (suc i)),
      bit_at-cons w ws j,
    )

map-drop : (n : ℕ) (ws : List ℕ) → drop n (map complement ws) ≡ map complement (drop n ws)
map-drop zero ws = refl
map-drop (suc n) [] = refl
map-drop (suc n) (w ∷ ws) = map-drop n ws

complements : (ws : List ℕ) → AreBlocks (map complement ws)
complements [] i = omega arith
complements (w ∷ ws) zero = omega arith
complements (w ∷ ws) (suc i) = complements ws i

-- 1 at a clear bit inside the blocks.
abbrev pub clear_at : List ℕ → ℕ → ℕ
clear_at ws j = if ltb (j / 64) (length ws) then 1 - bit_at ws j else 0

get_or-map-complement :
    (ws : List ℕ) (n : ℕ)
    → n < length ws
    → get_or (map complement ws) n 0 ≡ complement (get_or ws n 0)
get_or-map-complement [] n h = absurd (omega arith)
get_or-map-complement (w ∷ ws) zero h = refl
get_or-map-complement (w ∷ ws) (suc n) h = get_or-map-complement ws n (omega arith)

ones_test : (x : ℕ) → x < 2 ^ 64 → (x == ones) ≡ (complement x == 0)
ones_test x h = ground arith

shl-ones-lt : (k : ℕ) → shl ones k < 2 ^ 64
shl-ones-lt k = omega arith

module _ (b : DynamicBitset) (idx : ℕ) (fits : AreBlocks b.words)
    (inside : idx / 64 < length b.words) where
  -- the block of `idx` with the bits below `idx` set
  abbrev cut_word : ℕ
  cut_word = bit_or (word_at b (idx / 64)) (complement (shl ones (idx % 64)))

  cut_word_lt : cut_word < 2 ^ 64
  cut_word_lt =
      bit_or-lt 64 (word_at b (idx / 64)) (complement (shl ones (idx % 64))) (fits (idx / 64))
        (omega arith)

  bit-cut_word :
      (j : ℕ)
      → j < 64
      → bit cut_word j ≡ (if ltb j (idx % 64) then 1 else bit (word_at b (idx / 64)) j)
  bit-cut_word j h =
      bit-bit_or (word_at b (idx / 64)) (complement (shl ones (idx % 64))) j
      ∙ ground (
        arith,
        bit-complement 64 (shl ones (idx % 64)) j (shl-ones-lt (idx % 64)) h,
        bit-shl-ones (idx % 64) j h,
        bit_small (word_at b (idx / 64)) j,
      )

  bit-cut :
      (j : ℕ)
      → j < 64
      → bit (complement cut_word) j
        ≡ (if ltb j (idx % 64) then 0 else bit (get_or (map complement b.words) (idx / 64) 0) j)
  bit-cut j h =
      bit-complement 64 cut_word j cut_word_lt h
      ∙ ap (λ x. 1 - x) (bit-cut_word j h)
      ∙ rw (get_or-map-complement b.words (idx / 64) inside)
          (ground (arith, bit-complement 64 (word_at b (idx / 64)) j (fits (idx / 64)) h))

  scan_unset-eq : scan_unset b idx ≡ (
      if complement cut_word == 0
      then find_from (drop (idx / 64 + 1) (map complement b.words)) (idx / 64 + 1)
      else idx / 64 * 64 + find_lowest_bit (complement cut_word))
  unfolding scan_unset find_unset_from_block
  scan_unset-eq =
      rw (map-drop (idx / 64 + 1) b.words, ones_test cut_word cut_word_lt)
        (ap
          (λ r.
            if complement cut_word == 0
            then r
            else idx / 64 * 64 + find_lowest_bit (complement cut_word))
          (find_unset_from-eq (drop (idx / 64 + 1) b.words) (idx / 64 + 1)
            (blocks-drop (idx / 64 + 1) b.words fits)))

  scan_unset-FirstFrom : FirstFrom (clear_at b.words) idx (scan_unset b idx)
  scan_unset-FirstFrom = rw scan_unset-eq (
      first_of_scan (clear_at b.words)
        (complement cut_word ∷ drop (idx / 64 + 1) (map complement b.words)) idx _
        (λ j.
          from_bit (map complement b.words) idx (complement cut_word) j bit-cut
          ∙ ap (λ x. if ltb j (idx % 64) then 0 else x)
              (bit_at-map-complement b.words (idx / 64 * 64 + j) fits))
        (scan_cons (complement cut_word) (drop (idx / 64 + 1) (map complement b.words)) (idx / 64) _
          (omega arith)
          (find_from-Scanned (drop (idx / 64 + 1) (map complement b.words)) (idx / 64 + 1)
            (blocks-drop (idx / 64 + 1) (map complement b.words) (complements b.words)))))

-- What `find_unset_next` promises: the first clear bit from `lo` on, at most one past the last bit, or
-- `npos` where all bits from `lo` on are set.
abbrev pub FirstUnset : DynamicBitset → ℕ → ℕ → Type 0
FirstUnset b lo r =
    ((r ≡ npos) × ((j : ℕ) → lo ≤ j → j < b.num_bits → bit_at b.words j ≡ 1))
    ⊎ ((lo ≤ r)
        × (r ≤ b.num_bits)
        × (bit_at b.words r ≡ 0)
        × ((j : ℕ) → lo ≤ j → j < r → bit_at b.words j ≡ 1))

clear_at_unset :
    (b : DynamicBitset) (lo r : ℕ)
    → IsValid b
    → lo < b.num_bits
    → FirstFrom (clear_at b.words) lo r
    → FirstUnset b lo r
clear_at_unset b lo r v h (inl (e, zeros)) =
    inl (e, λ j le l. ground (arith, zeros j le, v.packed, bit_at_small b.words j))
clear_at_unset b lo r v h (inr (le, one, zeros)) = inr (
  le,
  below,
  ground (arith, one),
  λ j le' l. ground (arith, zeros j le' l, v.packed, bit_at_small b.words j),
)
  where
    below : r ≤ b.num_bits
    below = elim (dec_lt b.num_bits r) [
      | yes gt ↦ absurd (
          ground
            (arith, zeros b.num_bits (omega arith) gt, one, v.clear_above b.num_bits (omega arith)))
      | no le' ↦ omega arith
    ]

pub find_unset_next-FirstUnset :
    (b : DynamicBitset) (idx : ℕ)
    → IsValid b
    → idx < npos
    → FirstUnset b (idx + 1) (find_unset_next b idx)
unfolding find_unset_next
find_unset_next-FirstUnset b idx v h = rw next (branch (Bool-cases (leb b.num_bits (idx + 1))))
  where
    next : (idx + 1) % 2 ^ 64 ≡ idx + 1
    next = omega arith

    branch :
        (leb b.num_bits (idx + 1) ≡ true) ⊎ (leb b.num_bits (idx + 1) ≡ false)
        → FirstUnset b (idx + 1) (if leb b.num_bits (idx + 1) then npos else scan_unset b (idx + 1))
    branch (inl past) = rw past (inl (refl, λ j le l. absurd (ground arith)))
    branch (inr before) = rw before (
        clear_at_unset b (idx + 1) _ v (ground arith)
          (scan_unset-FirstFrom b (idx + 1) v.blocks (ground (arith, v.packed))))

-- Nothing is searched past the last bit.
pub find_unset_next_past :
    (b : DynamicBitset) (idx : ℕ) → idx < npos → b.num_bits ≤ idx + 1 → find_unset_next b idx ≡ npos
unfolding find_unset_next
find_unset_next_past b idx h past = rw (next, le→leb b.num_bits (idx + 1) past)
  where
    next : (idx + 1) % 2 ^ 64 ≡ idx + 1
    next = omega arith
