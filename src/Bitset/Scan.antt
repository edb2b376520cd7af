-- ===== src/Bitset/Scan.antt =====
-- The searches of include/bm/bm_sim/dynamic_bitset.h: each returns the first set, or clear, bit from a
-- position on.
use Prim.Native.Nat.{bit_and}
use native.Mathlib.Decide.{dec_lt}
use prog_tm_bmv.Base.{
  ℕ, suc, ◌+◌, ◌-◌, ◌*◌, ◌/◌, ◌%◌, ◌^◌, ◌≤◌, ◌<◌, ◌≡◌, refl, ap, ◌∙◌, sym, inl, inr, ◌⊎◌, arith,
  Bool-cases, true, false, ◌==◌, ltb, leb, if◌then◌else◌, List, [], ◌∷◌, get_or, drop, get_or-drop,
}
use prog_tm_bmv.Bits.{bit, bit-bit_and, bit-zero, bit-ones, bit-mod, bit-shl, bit_small, bit_and-lt}
use prog_tm_bmv.Bitset.{
  DynamicBitset, word_at, npos, ones, shl, find_lowest_bit, find_from, find_first, find_from_block,
  find_next, scan_set,
}
use prog_tm_bmv.Bitset.LowestBit.{find_lowest_bit-IsLowest}
use prog_tm_bmv.Bitset.Access.{bit_at, bit_at-nil}
use prog_tm_bmv.Bitset.Inv.{IsValid}

-- `r` is the first place from `lo` on where `f` is 1, or `npos` where there is none.
abbrev pub FirstFrom : (ℕ → ℕ) → ℕ → ℕ → Type 0
FirstFrom f lo r =
    ((r ≡ npos) × ((j : ℕ) → lo ≤ j → f j ≡ 0))
    ⊎ ((lo ≤ r) × (f r ≡ 1) × ((j : ℕ) → lo ≤ j → j < r → f j ≡ 0))

abbrev pub AreBlocks : List ℕ → Type 0
AreBlocks ws = (i : ℕ) → get_or ws i 0 < 2 ^ 64

pub bit_at-cons :
    (w : ℕ) (ws : List ℕ) (j : ℕ)
    → bit_at (w ∷ ws) j ≡ (if ltb j 64 then bit w j else bit_at ws (j - 64))
unfolding bit_at
bit_at-cons w ws j = elim (Bool-cases (ltb j 64)) [
  | inl lt ↦
      let first : j / 64 ≡ 0 = ground arith in
      let same : j % 64 ≡ j = ground arith in rw (lt, first, same)
  | inr ge ↦
      let later : j / 64 ≡ suc ((j - 64) / 64) = ground arith in
      let same : j % 64 ≡ (j - 64) % 64 = ground arith in rw (ge, later, same)
]

-- What a scan over blocks from number `i` on returns.
abbrev pub Scanned : List ℕ → ℕ → ℕ → Type 0
Scanned ws i r =
    (((j : ℕ) → bit_at ws j ≡ 0) × (r ≡ npos))
    ⊎ ((j : ℕ) × (r ≡ i * 64 + j) × (bit_at ws j ≡ 1) × ((k : ℕ) → k < j → bit_at ws k ≡ 0))

pub scan_cons :
    (w : ℕ) (ws : List ℕ) (i r : ℕ)
    → w < 2 ^ 64
    → Scanned ws (i + 1) r
    → Scanned (w ∷ ws) i (if w == 0 then r else i * 64 + find_lowest_bit w)
scan_cons w ws i r fits rest = elim (Bool-cases (w == 0)) [
  | inl z ↦ rw z (skip (ground arith) rest)
  | inr nz ↦
      let (lt, low) = find_lowest_bit-IsLowest w fits (ground arith) in
      rw nz (
        inr (
          find_lowest_bit w,
          refl,
          bit_at-cons w ws (find_lowest_bit w) ∙ ground (arith, low.0),
          λ k l. bit_at-cons w ws k ∙ ground (arith, low.1 k l),
        ))
]
  where
    clear : w ≡ 0 → (j : ℕ) → bit w j ≡ 0
    clear e j = rw e (bit-zero j)

    skip : w ≡ 0 → Scanned ws (i + 1) r → Scanned (w ∷ ws) i r
    skip e (inl (zeros, none_left)) =
        inl (λ j. bit_at-cons w ws j ∙ ground (arith, clear e j, zeros (j - 64)), none_left)
    skip e (inr (j, found, one, below)) = inr (
      64 + j,
      omega arith,
      bit_at-cons w ws (64 + j) ∙ ground (arith, ap (bit_at ws) back, one),
      λ k l. bit_at-cons w ws k ∙ ground (arith, clear e k, below (k - 64)),
    )
      where
        back : 64 + j - 64 ≡ j
        back = omega arith

pub find_from-Scanned : (ws : List ℕ) (i : ℕ) → AreBlocks ws → Scanned ws i (find_from ws i)
unfolding find_from
find_from-Scanned [] i fits = inl (bit_at-nil, refl)
find_from-Scanned (w ∷ ws) i fits =
    scan_cons w ws i _ (fits 0) (find_from-Scanned ws (i + 1) (λ j. fits (suc j)))

bit_at-drop : (n : ℕ) (ws : List ℕ) (j : ℕ) → bit_at (drop n ws) j ≡ bit_at ws (n * 64 + j)
unfolding bit_at
bit_at-drop n ws j = rw (block, place) (ap (λ w. bit w (j % 64)) (get_or-drop n ws (j / 64) 0))
  where
    block : (n * 64 + j) / 64 ≡ n + j / 64
    block = omega arith

    place : (n * 64 + j) % 64 ≡ j % 64
    place = omega arith

-- `ones << k`
pub bit-shl-ones : (k j : ℕ) → j < 64 → bit (shl ones k) j ≡ (if ltb j k then 0 else 1)
bit-shl-ones k j h =
    bit-mod 64 (ones * 2 ^ k) j h ∙ bit-shl k ones j ∙ ground (arith, bit-ones 64 (j - k))

pub blocks-drop : (n : ℕ) (ws : List ℕ) → AreBlocks ws → AreBlocks (drop n ws)
blocks-drop n ws fits i = rw (get_or-drop n ws i 0) (fits (n + i))

bit_at_block : (ws : List ℕ) (n j : ℕ) → j < 64 → bit_at ws (n * 64 + j) ≡ bit (get_or ws n 0) j
unfolding bit_at
bit_at_block ws n j h = rw (block, place)
  where
    block : (n * 64 + j) / 64 ≡ n
    block = omega arith

    place : (n * 64 + j) % 64 ≡ j
    place = omega arith

-- Bit `j` of the block of `idx` and of what follows it, cut below `idx`.
pub from_bit :
    (ws : List ℕ) (idx w j : ℕ)
    → ((j : ℕ)
        → j < 64
        → bit w j ≡ (if ltb j (idx % 64) then 0 else bit (get_or ws (idx / 64) 0) j))
    → bit_at (w ∷ drop (idx / 64 + 1) ws) j
      ≡ (if ltb j (idx % 64) then 0 else bit_at ws (idx / 64 * 64 + j))
from_bit ws idx w j cut = elim (dec_lt j 64) [
  | yes lt ↦ bit_at-cons w _ j ∙ ground (arith, cut j lt, bit_at_block ws (idx / 64) j lt)
  | no ge ↦
      let same : (idx / 64 + 1) * 64 + (j - 64) ≡ idx / 64 * 64 + j = omega arith in
      bit_at-cons w _ j
      ∙ ground (arith, bit_at-drop (idx / 64 + 1) ws (j - 64), ap (bit_at ws) same)
]

-- The position that a scan starting in the block of `idx` gives, as a search from `idx` on.
pub first_of_scan :
    (f : ℕ → ℕ) (ws : List ℕ) (idx r : ℕ)
    → ((j : ℕ) → bit_at ws j ≡ (if ltb j (idx % 64) then 0 else f (idx / 64 * 64 + j)))
    → Scanned ws (idx / 64) r
    → FirstFrom f idx r
first_of_scan f ws idx r view found = go found
  where
    seen : (k : ℕ) → idx ≤ k → f k ≡ bit_at ws (k - idx / 64 * 64)
    seen k le =
        let back : idx / 64 * 64 + (k - idx / 64 * 64) ≡ k = omega arith in
        sym (view (k - idx / 64 * 64) ∙ ground (arith, ap f back))

    go : Scanned ws (idx / 64) r → FirstFrom f idx r
    go (inl (zeros, e)) = inl (e, λ j le. seen j le ∙ zeros _)
    go (inr (j, e, one, below)) =
        let place : idx % 64 ≤ j = ground (arith, view j) in
        let back : r - idx / 64 * 64 ≡ j = omega arith in
        let le : idx ≤ r = omega arith in
        inr (
          le,
          seen r le ∙ ap (bit_at ws) back ∙ one,
          λ k le' l. seen k le' ∙ below (k - idx / 64 * 64) (omega arith),
        )

scan_set-FirstFrom :
    (b : DynamicBitset) (idx : ℕ)
    → AreBlocks b.words
    → FirstFrom (bit_at b.words) idx (scan_set b idx)
unfolding scan_set find_from_block
scan_set-FirstFrom b idx fits =
    first_of_scan (bit_at b.words) (sw ∷ drop (idx / 64 + 1) b.words) idx _
      (λ j. from_bit b.words idx sw j cut)
      (scan_cons sw (drop (idx / 64 + 1) b.words) (idx / 64) _
        (bit_and-lt 64 (word_at b (idx / 64)) _ (fits (idx / 64)))
        (find_from-Scanned (drop (idx / 64 + 1) b.words) (idx / 64 + 1)
          (blocks-drop (idx / 64 + 1) b.words fits)))
  where
    sw : ℕ
    sw = bit_and (word_at b (idx / 64)) (shl ones (idx % 64))

    cut :
        (j : ℕ) → j < 64 → bit sw j ≡ (if ltb j (idx % 64) then 0 else bit (word_at b (idx / 64)) j)
    cut j h =
        bit-bit_and (word_at b (idx / 64)) (shl ones (idx % 64)) j
        ∙ ground (arith, bit-shl-ones (idx % 64) j h, bit_small (word_at b (idx / 64)) j)

-- On a valid bitset, find_next returns the first set bit after idx, or npos where there is none.
pub find_next-FirstFrom :
    (b : DynamicBitset) (idx : ℕ)
    → IsValid b
    → idx < npos
    → FirstFrom (bit_at b.words) (idx + 1) (find_next b idx)
unfolding find_next
find_next-FirstFrom b idx v h = rw next (branch (Bool-cases (leb b.num_bits (idx + 1))))
  where
    next : (idx + 1) % 2 ^ 64 ≡ idx + 1
    next = omega arith

    branch :
        (leb b.num_bits (idx + 1) ≡ true) ⊎ (leb b.num_bits (idx + 1) ≡ false)
        → FirstFrom
            (bit_at b.words)
            (idx + 1)
            (if leb b.num_bits (idx + 1) then npos else scan_set b (idx + 1))
    branch (inl past) = rw past (inl (refl, λ j le. v.clear_above j (ground arith)))
    branch (inr before) = rw before (scan_set-FirstFrom b (idx + 1) v.blocks)

-- On a valid bitset, `find_first` returns the first set bit, or `npos` where there is none.
pub find_first-FirstFrom :
    (b : DynamicBitset) → IsValid b → FirstFrom (bit_at b.words) 0 (find_first b)
unfolding find_first find_from_block
find_first-FirstFrom b v = elim (find_from-Scanned b.words 0 v.blocks) [
  | inl (zeros, e) ↦ inl (e, λ j le. zeros j)
  | inr (j, e, one, below) ↦
      let at_start : find_from b.words 0 ≡ j = e ∙ omega arith in
      inr (
        omega arith,
        ap (bit_at b.words) at_start ∙ one,
        λ k le l. below k (omega (arith, at_start)),
      )
]
