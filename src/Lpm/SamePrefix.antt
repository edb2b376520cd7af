-- ===== src/Lpm/SamePrefix.antt =====
-- When two prefixes given to src/bf_lpm_trie/bf_lpm_trie.c are the same: they have the same bits, or
-- the same place in the tree.
use prog_tm_bmv.Base.{
  ℕ, ◌-◌, ◌≤◌, ◌<◌, ◌≡◌, refl, ap, ◌∙◌, arith, ◌==◌, leb, if◌then◌else◌, Bool, true, false, ◌&&◌,
  le→leb, lt→leb, Bool-cases, List, [], ◌∷◌, inl, inr,
}
use native.Mathlib.Decide.{dec_le}
use prog_tm_bmv.Lpm.{top_bits}
use prog_tm_bmv.Lpm.Sorted.{rank}
use prog_tm_bmv.Lpm.Tree.{
  place, HasBits, same_path, same_place, top_bits-lt, place_more, place_last, place-nil,
}

-- The first `len` bits are the same.
unfoldable pub same_bits : List ℕ → List ℕ → ℕ → Bool
same_bits [] q len = true
same_bits (b ∷ p) [] len = true
same_bits (b ∷ p) (c ∷ q) len =
    let below = same_bits p q (len - 8) in
    if leb 8 len then c == b && below else top_bits c len == top_bits b len

unfoldable pub same_prefix : List ℕ → ℕ → List ℕ → ℕ → Bool
same_prefix p len q len' = len' == len && same_bits p q len

rank_same :
    (l k l' k' : ℕ)
    → l < 8
    → k < 256
    → l' < 8
    → k' < 256
    → (rank l' k' == rank l k) ≡ (l' == l && k' == k)
rank_same l k l' k' h₁ h₂ h₃ h₄ = ground arith

short_of_nil : (b len : ℕ) → b < 256 → len ≡ 0 → top_bits b len ≡ 0
short_of_nil b len h e = rw e (omega arith)

same_top :
    (b c len len' : ℕ)
    → (len' == len && top_bits c len' == top_bits b len)
      ≡ (len' == len && top_bits c len == top_bits b len)
same_top b c len len' = elim (Bool-cases (len' == len)) [
  | inl e ↦ let same : len' ≡ len = ground arith in rw same
  | inr e ↦ rw e
]

module _ (b : ℕ) (p : List ℕ) (c : ℕ) (q : List ℕ) (len : ℕ) where
  same_bits_more : 8 ≤ len → same_bits (b ∷ p) (c ∷ q) len ≡ (c == b && same_bits p q (len - 8))
  unfolding same_bits
  same_bits_more h = rw (le→leb 8 len h, same_bits)

  same_bits_last : len < 8 → same_bits (b ∷ p) (c ∷ q) len ≡ (top_bits c len == top_bits b len)
  unfolding same_bits
  same_bits_last h = rw (lt→leb 8 len h, same_bits)

same_path_more : (b c : ℕ) (p q : List ℕ) → same_path (b ∷ p) (c ∷ q) ≡ (c == b && same_path p q)
unfolding same_path
same_path_more b c p q = refl

and_shuffle : (a b c d : Bool) (r : Bool) → (b && c) ≡ (d && r) → ((a && b) && c) ≡ (d && (a && r))
and_shuffle true b c true r e = e
and_shuffle true b c false r e = e
and_shuffle false b c true r e = refl
and_shuffle false b c false r e = refl

less_eight : (len len' : ℕ) → 8 ≤ len → 8 ≤ len' → (len' - 8 == len - 8) ≡ (len' == len)
less_eight len len' h h' = ground arith

-- Two prefixes have the same place exactly if they have the same bits.
pub same_prefix-place :
    (p : List ℕ) (len : ℕ) (q : List ℕ) (len' : ℕ)
    → HasBits p len
    → HasBits q len'
    → same_place (place p len) (place q len').path (place q len').len (place q len').key
      ≡ same_prefix p len q len'
unfolding same_prefix same_bits same_path
same_prefix-place [] len [] len' h h' = rw (place-nil len, place-nil len') (ground arith)
same_prefix-place [] len (c ∷ q) len' h h' = elim (dec_le 8 len') [
  | yes more ↦ rw (place-nil len, place_more c q len' more) (ground arith)
  | no last ↦
      rw
        (
          place-nil len,
          place_last c q len' (omega arith),
          rank_same len 0 len' (top_bits c len') (omega arith) (omega arith) (omega arith)
              (top_bits-lt c len' h'.0.0),
        )
        (ground (arith, short_of_nil c len' h'.0.0))
]
same_prefix-place (b ∷ p) len [] len' h h' = elim (dec_le 8 len) [
  | yes more ↦ rw (place-nil len', place_more b p len more) (ground arith)
  | no last ↦
      rw
        (
          place-nil len',
          place_last b p len (omega arith),
          rank_same len (top_bits b len) len' 0 (omega arith) (top_bits-lt b len h.0.0)
              (omega arith) (omega arith),
        )
        (ground (arith, short_of_nil b len h.0.0))
]
same_prefix-place (b ∷ p) len (c ∷ q) len' h h' = elim (dec_le 8 len) [
  | yes more ↦ elim (dec_le 8 len') [
    | yes more' ↦
        rw (place_more b p len more, place_more c q len' more', same_bits_more b p c q len more)
          (and_shuffle (c == b) _ _ _ _ (
            same_prefix-place p (len - 8) q (len' - 8) (h.0.1, omega arith) (h'.0.1, omega arith)
            ∙ ap (λ t. t && same_bits p q (len - 8)) (less_eight len len' more more')))
    | no last' ↦ rw (place_more b p len more, place_last c q len' (omega arith)) (ground arith)
  ]
  | no last ↦ elim (dec_le 8 len') [
    | yes more' ↦ rw (place_last b p len (omega arith), place_more c q len' more') (ground arith)
    | no last' ↦
        rw
          (
            place_last b p len (omega arith),
            place_last c q len' (omega arith),
            same_bits_last b p c q len (omega arith),
            rank_same len (top_bits b len) len' (top_bits c len') (omega arith)
                (top_bits-lt b len h.0.0) (omega arith) (top_bits-lt c len' h'.0.0),
          )
          (same_top b c len len')
  ]
]
