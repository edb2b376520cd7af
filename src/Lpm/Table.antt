-- ===== src/Lpm/Table.antt =====
-- The interface of src/bf_lpm_trie/bf_lpm_trie.c as a table from prefixes to values.
use prog_tm_bmv.Base.{
  ℕ, ◌*◌, ◌≡◌, refl, ap, sym, ◌∙◌, arith, if◌then◌else◌, Bool, true, false, Option-cases, ap₂, zero,
  suc, List, [], ◌∷◌, length, Option, none, some, inl, inr,
}
use prog_tm_bmv.Lpm.{
  Prefix, prefixes, lookup_from, Node, or_else, Trie, create, insert, retrieve_value, lookup,
}
use prog_tm_bmv.Lpm.Sorted.{rank, child, prefix_key}
use prog_tm_bmv.Lpm.Vector.{find}
use prog_tm_bmv.Lpm.Tree.{
  Place, IsValid, empty_node-IsValid, place, AreBytes, HasBits, value_at, same_path, same_place,
  retrieve_from-value_at, value_at-nil, value_at-some, value_at-none,
}
use prog_tm_bmv.Base.{take_all}
use prog_tm_bmv.Lpm.SamePrefix.{same_prefix, same_prefix-place}
use prog_tm_bmv.Lpm.Insert.{Stores, insert_from-Stores, value_at-empty_node}
use prog_tm_bmv.Lpm.Match.{value_of}
use prog_tm_bmv.Lpm.Lookup.{stored, longest, lookup_from-longest}

pub retrieve_value-stored :
    (t : Trie) (key : List ℕ) (len : ℕ)
    → IsValid t.root
    → HasBits key len
    → retrieve_value t key len ≡ stored t.root key len
unfolding retrieve_value
retrieve_value-stored t key len v h =
    rw (retrieve_value, retrieve_from-value_at t.root key len v h) (as_value _)
  where
    as_value : (o : Option Prefix) → (elim o [ some p ↦ some p.value | none ↦ none ]) ≡ value_of o
    as_value none = refl
    as_value (some p) = refl

pub value_of-if :
    (t : Bool) (a b : Option Prefix)
    → value_of (if t then a else b) ≡ (if t then value_of a else value_of b)
value_of-if true a b = refl
value_of-if false a b = refl

-- A new trie is valid and holds no prefix.
pub create-IsEmpty :
    (width : ℕ) (auto_shrink : Bool) (key : List ℕ) (len : ℕ)
    → HasBits key len
    → IsValid (create width auto_shrink).root
      × (retrieve_value (create width auto_shrink) key len ≡ none)
unfolding create
create-IsEmpty width auto_shrink key len h = (
  empty_node-IsValid,
  retrieve_value-stored (create width auto_shrink) key len empty_node-IsValid h
      ∙ ap value_of
          (value_at-empty_node (place key len).path (place key len).len (place key len).key),
)

module _ (t : Trie) (p : List ℕ) (len value : ℕ) (v : IsValid t.root) (h : HasBits p len) where
  insert-Stores : Stores t.root (place p len) value (insert t p len value).root
  unfolding insert
  insert-Stores = insert_from-Stores t.root p len value v h

  -- Insertion of a prefix whose bits are given keeps a trie valid.
  pub insert-IsValid : IsValid (insert t p len value).root
  insert-IsValid = insert-Stores.is_valid

  -- After the insertion into a valid trie of a prefix whose bits are given, that prefix, however
  -- it is written, has the value given, and every other prefix has what it had.
  pub retrieve_value-insert :
      (q : List ℕ) (len' : ℕ)
      → HasBits q len'
      → retrieve_value (insert t p len value) q len'
        ≡ (if same_prefix p len q len' then some value else retrieve_value t q len')
  retrieve_value-insert q len' h' =
      let at_q : Place = place q len' in
      retrieve_value-stored (insert t p len value) q len' insert-IsValid h'
      ∙ ap value_of (insert-Stores.values at_q.path at_q.len at_q.key)
      ∙ value_of-if (same_place (place p len) at_q.path at_q.len at_q.key) _ _
      ∙ rw (same_prefix-place p len q len' h h', retrieve_value-stored t q len' v h')

-- The value of the longest of the first `len` bits of a key that the trie has a value for: all the
-- lengths are tried, the longest first.
unfoldable pub longest_prefix : Trie → List ℕ → ℕ → Option ℕ
longest_prefix t key zero = retrieve_value t key 0
longest_prefix t key (suc len) = or_else (retrieve_value t key (suc len)) (longest_prefix t key len)

longest_prefix-longest :
    (t : Trie) (key : List ℕ) (len : ℕ)
    → IsValid t.root
    → HasBits key len
    → longest_prefix t key len ≡ longest t.root key len
unfolding longest_prefix longest
longest_prefix-longest t key zero v h = retrieve_value-stored t key 0 v h
longest_prefix-longest t key (suc len) v h =
    ap₂ or_else (retrieve_value-stored t key (suc len) v h)
      (longest_prefix-longest t key len v (h.0, omega arith))

-- On a valid trie, a lookup of a key of the trie's width returns the value that trying all prefix
-- lengths, the longest first, finds.
pub lookup-longest_prefix :
    (t : Trie) (key : List ℕ)
    → IsValid t.root
    → AreBytes key
    → length key ≡ t.key_width_bytes
    → lookup t key ≡ longest_prefix t key (length key * 8)
unfolding lookup
lookup-longest_prefix t key v h w =
    ap (λ k. lookup_from t.root k none) (take_all t.key_width_bytes key (omega arith))
    ∙ lookup_from-longest t.root key none v h
    ∙ or_else_none (longest t.root key (length key * 8))
    ∙ sym (longest_prefix-longest t key (length key * 8) v (h, omega arith))
  where
    or_else_none : (o : Option ℕ) → or_else o none ≡ o
    or_else_none none = refl
    or_else_none (some x) = refl

same_path-eq : (p q : List ℕ) → same_path p q ≡ true → q ≡ p
unfolding same_path
same_path-eq [] [] e = refl
same_path-eq [] (c ∷ q) e = absurd (ground arith)
same_path-eq (b ∷ p) [] e = absurd (ground arith)
same_path-eq (b ∷ p) (c ∷ q) e = ap₂ ◌∷◌ (ground arith) (same_path-eq p q (ground arith))

value_at-rank :
    (n : Node) (path : List ℕ) (l k l' k' : ℕ)
    → rank l k ≡ rank l' k'
    → value_at n path l k ≡ value_at n path l' k'
value_at-rank n [] l k l' k' e =
    rw (value_at-nil n l k, value_at-nil n l' k') (ap (λ r. find prefix_key r (prefixes n)) e)
value_at-rank n (c ∷ path) l k l' k' e = elim (Option-cases (child n c)) [
  | inl f ↦ value_at-none n c path l k f ∙ sym (value_at-none n c path l' k' f)
  | inr (next, f) ↦
      value_at-some n c path l k next f
      ∙ value_at-rank next path l k l' k' e
      ∙ sym (value_at-some n c path l' k' next f)
]

-- Two names of one prefix retrieve one value.
pub retrieve_value-same :
    (t : Trie) (p : List ℕ) (len : ℕ) (q : List ℕ) (len' : ℕ)
    → IsValid t.root
    → HasBits p len
    → HasBits q len'
    → same_prefix p len q len' ≡ true
    → retrieve_value t q len' ≡ retrieve_value t p len
retrieve_value-same t p len q len' v h h' e =
    let same : same_place (place p len) (place q len').path (place q len').len (place q len').key
        ≡ true =
      same_prefix-place p len q len' h h' ∙ e in
    retrieve_value-stored t q len' v h'
    ∙ ap (λ path. value_of (value_at t.root path (place q len').len (place q len').key))
        (same_path-eq (place p len).path (place q len').path (ground arith))
    ∙ ap value_of (
        value_at-rank t.root (place p len).path (place q len').len (place q len').key
          (place p len).len (place p len).key (ground arith))
    ∙ sym (retrieve_value-stored t p len v h)
