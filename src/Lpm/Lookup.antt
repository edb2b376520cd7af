-- ===== src/Lpm/Lookup.antt =====
-- `bf_lpm_trie_lookup` of src/bf_lpm_trie/bf_lpm_trie.c against a search through all prefix lengths.
use prog_tm_bmv.Base.{
  ℕ, zero, suc, ◌+◌, ◌-◌, ◌*◌, ◌≤◌, ◌<◌, ◌≡◌, refl, ap, ap₂, sym, ◌∙◌, arith, Option-cases, List,
  [], ◌∷◌, length, Option, none, some, inl, inr,
}
use prog_tm_bmv.Lpm.{
  Prefix, Node, prefixes, get_next_node, get_empty_prefix, top_bits, first_match, or_else,
  lookup_from,
}
use prog_tm_bmv.Lpm.Vector.{find}
use prog_tm_bmv.Lpm.Sorted.{rank, prefix_key, child, entry, get_next_node-child}
use prog_tm_bmv.Lpm.Tree.{
  IsValid, IsValid-sorted, IsValid-ordered, IsValid-child, IsValid-zero, place, AreBytes, value_at,
  value_at-some, value_at-none, value_at-nil, place_more, place_last, place-nil,
}
use prog_tm_bmv.Lpm.Match.{
  value_of, longest_in, first_match-longest_in, last_prefix, last_prefix-find,
}

-- The value that the tree has for the first `len` bits of `key`.
abbrev pub stored : Node → List ℕ → ℕ → Option ℕ
stored n key len =
    value_of (value_at n (place key len).path (place key len).len (place key len).key)

-- The value for the longest of the prefixes of `key` of at most `len` bits that the tree has.
unfoldable pub longest : Node → List ℕ → ℕ → Option ℕ
longest n key zero = stored n key zero
longest n key (suc len) = or_else (stored n key (suc len)) (longest n key len)

get_empty_prefix-entry : (n : Node) → IsValid n → get_empty_prefix n ≡ entry n 0 0
unfolding get_empty_prefix last_prefix
get_empty_prefix-entry n v =
    last_prefix-find 0 (prefixes n) (IsValid-ordered v).sorted (IsValid-ordered v).short
      (IsValid-zero v)

or_else_assoc : (a b c : Option ℕ) → or_else (or_else a b) c ≡ or_else a (or_else b c)
or_else_assoc none b c = refl
or_else_assoc (some v) b c = refl

suc_add : (len : ℕ) → suc len + 8 ≡ suc (len + 8)
suc_add len = omega arith

module _ (n : Node) (byte : ℕ) (rest : List ℕ) where
  stored_last :
      (len : ℕ)
      → len < 8
      → stored n (byte ∷ rest) len
        ≡ value_of (find prefix_key (rank len (top_bits byte len)) (prefixes n))
  stored_last len h = rw (place_last byte rest len h, value_at-nil)

  stored_more :
      (next : Node) (len : ℕ)
      → 8 ≤ len
      → child n byte ≡ some next
      → stored n (byte ∷ rest) len ≡ stored next rest (len - 8)
  stored_more next len h e =
      rw (place_more byte rest len h) (ap value_of (value_at-some n byte _ _ _ next e))

  stored-none : (len : ℕ) → 8 ≤ len → child n byte ≡ none → stored n (byte ∷ rest) len ≡ none
  stored-none len h e = rw (place_more byte rest len h) (ap value_of (value_at-none n byte _ _ _ e))

  longest_last :
      (len : ℕ) → len < 8 → longest n (byte ∷ rest) len ≡ longest_in (prefixes n) byte len
  unfolding longest longest_in
  longest_last zero h = stored_last 0 h
  longest_last (suc len) h = ap₂ or_else (stored_last (suc len) h) (longest_last len (omega arith))

  longest_more :
      (next : Node) (len : ℕ)
      → child n byte ≡ some next
      → longest n (byte ∷ rest) (len + 8)
        ≡ or_else (longest next rest len) (longest n (byte ∷ rest) 7)
  unfolding longest
  longest_more next zero e =
      ap (λ o. or_else o (longest n (byte ∷ rest) 7)) (stored_more next 8 (omega arith) e)
  longest_more next (suc len) e =
      ap (longest n (byte ∷ rest)) (suc_add len)
      ∙ ap₂ or_else
          (stored_more next (suc (len + 8)) (omega arith) e ∙ ap (stored next rest) (the_rest len))
          (longest_more next len e)
      ∙ sym (
          or_else_assoc (stored next rest (suc len)) (longest next rest len)
            (longest n (byte ∷ rest) 7))
    where
      the_rest : (l : ℕ) → suc (l + 8) - 8 ≡ suc l
      the_rest l = omega arith

  longest-none :
      (len : ℕ)
      → child n byte ≡ none
      → longest n (byte ∷ rest) (len + 8) ≡ longest n (byte ∷ rest) 7
  unfolding longest
  longest-none zero e = rw (stored-none 8 (omega arith) e)
  longest-none (suc len) e =
      ap (longest n (byte ∷ rest)) (suc_add len)
      ∙ rw (stored-none (suc (len + 8)) (omega arith) e) (longest-none len e)

  lookup_from-some :
      (best : Option ℕ) (next : Node)
      → get_next_node n byte ≡ some next
      → lookup_from n (byte ∷ rest) best
        ≡ lookup_from next rest (or_else (first_match (prefixes n) byte) best)
  unfolding lookup_from
  lookup_from-some best next e = rw (e, lookup_from)

  lookup_from-none :
      (best : Option ℕ)
      → get_next_node n byte ≡ none
      → lookup_from n (byte ∷ rest) best ≡ or_else (first_match (prefixes n) byte) best
  unfolding lookup_from
  lookup_from-none best e = rw (e, lookup_from)

lookup_from-nil :
    (n : Node) (best : Option ℕ)
    → get_empty_prefix n ≡ entry n 0 0
    → lookup_from n [] best ≡ or_else (longest n [] 0) best
unfolding lookup_from longest
lookup_from-nil n best e =
    ap (λ o. elim o [ some p ↦ some p.value | none ↦ best ]) e
    ∙ cases (entry n 0 0)
    ∙ ap (λ o. or_else o best) (sym none_left)
  where
    cases :
        (o : Option Prefix)
        → (elim o [ some p ↦ some p.value | none ↦ best ]) ≡ or_else (value_of o) best
    cases none = refl
    cases (some p) = refl

    none_left : longest n [] 0 ≡ value_of (entry n 0 0)
    none_left = rw (place-nil 0, value_at-nil)

-- The descent returns the value of the longest prefix of the key, or the best from before.
pub lookup_from-longest :
    (n : Node) (key : List ℕ) (best : Option ℕ)
    → IsValid n
    → AreBytes key
    → lookup_from n key best ≡ or_else (longest n key (length key * 8)) best
lookup_from-longest n [] best v h = lookup_from-nil n best (get_empty_prefix-entry n v)
lookup_from-longest n (byte ∷ rest) best v h = elim (Option-cases (child n byte)) [
  | inl e ↦
      lookup_from-none n byte rest best (to ∙ e)
      ∙ ap (λ o. or_else o best)
          (matched
            ∙ sym
                (ap (longest n (byte ∷ rest)) bits ∙ longest-none n byte rest (length rest * 8) e))
  | inr (next, e) ↦
      lookup_from-some n byte rest best next (to ∙ e)
      ∙ lookup_from-longest next rest _ (IsValid-child v byte next e) h.1
      ∙ sym
          (or_else_assoc (longest next rest (length rest * 8)) (first_match (prefixes n) byte) best)
      ∙ ap (λ o. or_else o best)
          (ap (or_else (longest next rest (length rest * 8))) matched
            ∙ sym (
                ap (longest n (byte ∷ rest)) bits
                ∙ longest_more n byte rest next (length rest * 8) e))
]
  where
    to : get_next_node n byte ≡ child n byte
    to = get_next_node-child n byte (IsValid-sorted v)

    bits : suc (length rest) * 8 ≡ length rest * 8 + 8
    bits = omega arith

    matched : first_match (prefixes n) byte ≡ longest n (byte ∷ rest) 7
    matched =
        first_match-longest_in (prefixes n) byte 0 h.0 (IsValid-ordered v).sorted
          (IsValid-ordered v).short
        ∙ sym (longest_last n byte rest 7 (omega arith))
