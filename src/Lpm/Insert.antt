-- ===== src/Lpm/Insert.antt =====
-- `bf_lpm_trie_insert` of src/bf_lpm_trie/bf_lpm_trie.c: the trie after it, as a map.
use prog_tm_bmv.Base.{
  ℕ, ◌-◌, ◌≤◌, ◌<◌, ◌≡◌, refl, ap, sym, ◌∙◌, arith, ◌==◌, if◌then◌else◌, le→leb, lt→leb, Bool-cases,
  Option-cases, List, [], ◌∷◌, none, some, inl, inr,
}
use native.Mathlib.Decide.{dec_le}
use prog_tm_bmv.Lpm.{
  Prefix, Node, empty_node, get_next_node, set_next_node, update_next_node, insert_prefix, top_bits,
  insert_from,
}
use prog_tm_bmv.Lpm.Vector.{find}
use prog_tm_bmv.Lpm.Sorted.{
  rank, prefix_key, child, next_of, get_next_node-child, Leads, update_next_node-Leads,
  set_next_node-Leads, branch_key,
}
use prog_tm_bmv.Lpm.Prefixes.{Holds, insert_prefix-Holds}
use prog_tm_bmv.Lpm.Tree.{
  IsValid, IsValid-sorted, IsValid-ordered, IsValid-child, empty_node-IsValid, Place, place,
  HasBits, value_at, same_path, same_place, top_bits-lt, top_bits_zero, value_at-some,
  value_at-none, value_at_same, value_at-nil, place_more, place_last, place-nil, value_at-Leads,
  Leads-IsValid, Holds-IsValid,
}

abbrev pub prefix_of : Place → ℕ → Prefix
prefix_of p value = record { prefix_length = p.len; key = p.key; value = value }

-- A tree with one place set to a value, and else as before.
pub record Stores (n : Node) (p : Place) (value : ℕ) (n' : Node) : Type 0 where
  pub is_valid : IsValid n'
  pub values :
      (path : List ℕ) (len key : ℕ)
      → value_at n' path len key
        ≡ (if same_place p path len key then some (prefix_of p value) else value_at n path len key)

module _ (byte : ℕ) (rest : List ℕ) (len value : ℕ) (n : Node) where
  insert_from_more_some :
      8 ≤ len
      → (next : Node) → get_next_node n byte ≡ some next
      → insert_from n (byte ∷ rest) len value
        ≡ update_next_node n byte (insert_from next rest (len - 8) value)
  unfolding insert_from
  insert_from_more_some h next e = rw (le→leb 8 len h, e)

  insert_from_more_none :
      8 ≤ len
      → get_next_node n byte ≡ none
      → insert_from n (byte ∷ rest) len value
        ≡ set_next_node n byte (insert_from empty_node rest (len - 8) value)
  unfolding insert_from
  insert_from_more_none h e = rw (le→leb 8 len h, e)

  insert_from_last :
      len < 8
      → insert_from n (byte ∷ rest) len value ≡ insert_prefix n len (top_bits byte len) value
  unfolding insert_from
  insert_from_last h = rw (lt→leb 8 len h)

insert_from-nil :
    (n : Node) (len value : ℕ) → insert_from n [] len value ≡ insert_prefix n len 0 value
unfolding insert_from
insert_from-nil n len value = refl

-- In the node itself.
Holds-Stores :
    (n n' : Node) (len key value : ℕ)
    → IsValid n
    → len < 8
    → key < 256
    → (len ≡ 0 → key ≡ 0)
    → Holds n (record { prefix_length = len; key = key; value = value }) n'
    → Stores n (record { path = []; len = len; key = key }) value n'
unfolding same_path
Holds-Stores n n' len key value v short small zero_key w = record {
  is_valid = Holds-IsValid n n' _ v short small zero_key w;
  values = values;
}
  where
    values :
        (path : List ℕ) (l k : ℕ)
        → value_at n' path l k ≡ (
            if same_place (record { path = []; len = len; key = key }) path l k
            then some (record { prefix_length = len; key = key; value = value })
            else value_at n path l k)
    values [] l k = rw (value_at-nil n' l k, value_at-nil n l k) (w.entries l k)
    values (c ∷ path) l k =
        value_at_same n' n c path l k (ap (λ bs. next_of (find branch_key c bs)) w.same_branches)

-- Below a branch: `old` is what was there, the empty node where there was none.
Leads-Stores :
    (n n' old next : Node) (byte : ℕ) (p : Place) (value : ℕ)
    → IsValid n
    → byte < 256
    → ((path : List ℕ) (l k : ℕ) → value_at n (byte ∷ path) l k ≡ value_at old path l k)
    → Stores old p value next
    → Leads n byte next n'
    → Stores n (record p { path = byte ∷ p.path }) value n'
unfolding same_path
Leads-Stores n n' old next byte p value v small before st w = record {
  is_valid = Leads-IsValid n n' next byte v small st.is_valid w;
  values = values;
}
  where
    values :
        (path : List ℕ) (l k : ℕ)
        → value_at n' path l k ≡ (
            if same_place (record p { path = byte ∷ p.path }) path l k
            then some (prefix_of p value)
            else value_at n path l k)
    values [] l k =
        rw (value_at-nil n' l k, value_at-nil n l k)
          (ap (λ ps. find prefix_key (rank l k) ps) w.same_prefixes)
    values (c ∷ path) l k = elim (Bool-cases (c == byte)) [
      | inl e ↦
          let same : c ≡ byte = ground arith in
          value_at-Leads n n' next byte w c path l k ∙ rw (e, same, before) (st.values path l k)
      | inr ne ↦ value_at-Leads n n' next byte w c path l k ∙ rw ne
    ]

pub value_at-empty_node : (path : List ℕ) (l k : ℕ) → value_at empty_node path l k ≡ none
unfolding value_at find
value_at-empty_node [] l k = refl
value_at-empty_node (c ∷ path) l k = refl

-- Insertion sets the place of the prefix, and leaves every other place of the tree as it was.
pub insert_from-Stores :
    (n : Node) (bytes : List ℕ) (len value : ℕ)
    → IsValid n
    → HasBits bytes len
    → Stores n (place bytes len) value (insert_from n bytes len value)
insert_from-Stores n [] len value v h =
    rw (insert_from-nil, place-nil)
      (Holds-Stores n _ len 0 value v (omega arith) (omega arith) (λ e. refl)
        (insert_prefix-Holds n (IsValid-ordered v) _ (omega arith, omega arith)))
insert_from-Stores n (byte ∷ rest) len value v h = elim (dec_le 8 len) [
  | no last ↦
      rw
        (
          place_last byte rest len (omega arith),
          insert_from_last byte rest len value n (omega arith),
        )
        (Holds-Stores n _ len (top_bits byte len) value v (omega arith) (top_bits-lt byte len h.0.0)
          (λ e. rw e (top_bits_zero byte h.0.0))
          (insert_prefix-Holds n (IsValid-ordered v) _ (omega arith, top_bits-lt byte len h.0.0)))
  | yes more ↦ elim (Option-cases (child n byte)) [
    | inl e ↦
        rw
          (
            place_more byte rest len more,
            insert_from_more_none byte rest len value n more
                (get_next_node-child n byte (IsValid-sorted v) ∙ e),
          )
          (Leads-Stores n _ empty_node (insert_from empty_node rest (len - 8) value) byte
            (place rest (len - 8)) value v h.0.0
            (λ path l k. value_at-none n byte path l k e ∙ sym (value_at-empty_node path l k))
            (insert_from-Stores empty_node rest (len - 8) value empty_node-IsValid
              (h.0.1, omega arith))
            (set_next_node-Leads n byte (IsValid-sorted v) _ e))
    | inr (next, e) ↦
        rw
          (
            place_more byte rest len more,
            insert_from_more_some byte rest len value n more next
                (get_next_node-child n byte (IsValid-sorted v) ∙ e),
          )
          (Leads-Stores n _ next (insert_from next rest (len - 8) value) byte (place rest (len - 8))
            value v h.0.0 (λ path l k. value_at-some n byte path l k next e)
            (insert_from-Stores next rest (len - 8) value (IsValid-child v byte next e)
              (h.0.1, omega arith))
            (update_next_node-Leads n byte (IsValid-sorted v) _ (λ f. cc (f, e))))
  ]
]
