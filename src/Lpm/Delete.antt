-- ===== src/Lpm/Delete.antt =====
-- `bf_lpm_trie_delete` of src/bf_lpm_trie/bf_lpm_trie.c: the tree after it, as a map, with the
-- unlinking of the nodes that become empty.
use prog_tm_bmv.Base.{
  ℕ, ◌-◌, ◌≤◌, ◌<◌, ◌≡◌, ◌≢◌, refl, ap, sym, ◌∙◌, arith, ◌==◌, if◌then◌else◌, true, le→leb, lt→leb,
  Bool-cases, Option-cases, List, [], ◌∷◌, length, none, some, inl, inr,
}
use native.Mathlib.Decide.{dec_le}
use prog_tm_bmv.Lpm.{
  Node, branches, prefixes, get_next_node, delete_prefix, top_bits, is_empty, shrink, delete_from,
}
use prog_tm_bmv.Lpm.Vector.{find}
use prog_tm_bmv.Lpm.Sorted.{
  rank, prefix_key, child, next_of, get_next_node-child, Leads, update_next_node-Leads, Cut,
  delete_branch-Cut, branch_key,
}
use prog_tm_bmv.Lpm.Prefixes.{Drops, delete_prefix-Drops}
use prog_tm_bmv.Lpm.Tree.{
  IsValid, valid, IsValid-sorted, IsValid-ordered, IsValid-byte, IsValid-zero, IsValid-child, Place,
  place, HasBits, value_at, same_path, same_place, top_bits-lt, value_at-some, value_at-none,
  value_at_same, value_at-nil, place_more, place_last, place-nil, value_at-Leads, Leads-IsValid,
}

-- A tree with one place cleared, and else as before.
pub record Removes (n : Node) (p : Place) (n' : Node) : Type 0 where
  pub is_valid : IsValid n'
  pub values :
      (path : List ℕ) (len key : ℕ)
      → value_at n' path len key
        ≡ (if same_place p path len key then none else value_at n path len key)

Drops-IsValid : (n n' : Node) (len key : ℕ) → IsValid n → Drops n len key n' → IsValid n'
Drops-IsValid n n' len key v w =
    valid n' (rw w.same_branches (IsValid-sorted v)) w.ordered
      (λ c m e. IsValid-byte v c m (same c ∙ e))
      (λ k e. elim (Bool-cases (rank 0 k == rank len key)) [
        | inl y ↦ absurd (e (w.entries 0 k ∙ rw y))
        | inr y ↦ IsValid-zero v k (λ f. e (w.entries 0 k ∙ rw y f))
      ])
      (λ c m e. IsValid-child v c m (same c ∙ e))
  where
    same : (c : ℕ) → child n c ≡ child n' c
    same c = ap (λ bs. next_of (find branch_key c bs)) (sym w.same_branches)

Drops-Removes :
    (n n' : Node) (len key : ℕ)
    → IsValid n
    → Drops n len key n'
    → Removes n (record { path = []; len = len; key = key }) n'
unfolding same_path
Drops-Removes n n' len key v w = record {
  is_valid = Drops-IsValid n n' len key v w;
  values = values;
}
  where
    values :
        (path : List ℕ) (l k : ℕ)
        → value_at n' path l k ≡ (
            if same_place (record { path = []; len = len; key = key }) path l k
            then none
            else value_at n path l k)
    values [] l k = rw (value_at-nil n' l k, value_at-nil n l k) (w.entries l k)
    values (c ∷ path) l k =
        value_at_same n' n c path l k (ap (λ bs. next_of (find branch_key c bs)) w.same_branches)

Cut-IsValid : (n n' : Node) (byte : ℕ) → IsValid n → Cut n byte n' → IsValid n'
Cut-IsValid n n' byte v w =
    valid n' w.sorted
      (record {
        sorted = rw w.same_prefixes (IsValid-ordered v).sorted;
        short = rw w.same_prefixes (IsValid-ordered v).short;
      })
      (λ c m e. IsValid-byte v c m (same c m e))
      (λ k e. IsValid-zero v k (λ f. e (ap (find prefix_key (rank 0 k)) w.same_prefixes ∙ f)))
      (λ c m e. IsValid-child v c m (same c m e))
  where
    same : (c : ℕ) (m : Node) → child n' c ≡ some m → child n c ≡ some m
    same c m e = elim (Bool-cases (c == byte)) [
      | inl y ↦ let gone : child n' c ≡ none = w.children c ∙ ground arith in cc (gone, e)
      | inr y ↦ sym (w.children c ∙ ground arith) ∙ e
    ]

length-none : {A : Type 0} (xs : List A) → (length xs == 0) ≡ true → xs ≡ []
length-none [] e = refl
length-none (x ∷ xs) e = absurd (ground arith)

value_at_empty :
    (n : Node) → is_empty n ≡ true → (path : List ℕ) (l k : ℕ) → value_at n path l k ≡ none
unfolding find
value_at_empty n e [] l k =
    value_at-nil n l k ∙ ap (find prefix_key (rank l k)) (length-none (prefixes n) (ground arith))
value_at_empty n e (c ∷ path) l k =
    value_at-none n c path l k
      (ap (λ bs. next_of (find branch_key c bs)) (length-none (branches n) (ground arith)))

module _ (n next below : Node) (byte : ℕ) (p : Place) (v : IsValid n) (small : byte < 256)
    (e : child n byte ≡ some next) (r : Removes next p below) where
  -- The branch to an empty node is cut.
  Cut-Removes :
      (n' : Node)
      → is_empty below ≡ true
      → Cut n byte n'
      → Removes n (record p { path = byte ∷ p.path }) n'
  unfolding same_path
  Cut-Removes n' none_left w = record { is_valid = Cut-IsValid n n' byte v w; values = values }
    where
      values :
          (path : List ℕ) (l k : ℕ)
          → value_at n' path l k ≡ (
              if same_place (record p { path = byte ∷ p.path }) path l k
              then none
              else value_at n path l k)
      values [] l k =
          rw (value_at-nil n' l k, value_at-nil n l k)
            (ap (λ ps. find prefix_key (rank l k) ps) w.same_prefixes)
      values (c ∷ path) l k = elim (Bool-cases (c == byte)) [
        | inl y ↦
            let same : c ≡ byte = ground arith in
            value_at-none n' c path l k (w.children c ∙ rw y)
            ∙ rw (y, same, value_at-some n byte path l k next e)
                (sym (value_at_empty below none_left path l k) ∙ r.values path l k)
        | inr y ↦ value_at_same n' n c path l k (w.children c ∙ rw y) ∙ rw y
      ]

  -- The branch to another node leads to what is left of it.
  Leads-Removes :
      (n' : Node) → Leads n byte below n' → Removes n (record p { path = byte ∷ p.path }) n'
  unfolding same_path
  Leads-Removes n' w = record {
    is_valid = Leads-IsValid n n' below byte v small r.is_valid w;
    values = values;
  }
    where
      values :
          (path : List ℕ) (l k : ℕ)
          → value_at n' path l k ≡ (
              if same_place (record p { path = byte ∷ p.path }) path l k
              then none
              else value_at n path l k)
      values [] l k =
          rw (value_at-nil n' l k, value_at-nil n l k)
            (ap (λ ps. find prefix_key (rank l k) ps) w.same_prefixes)
      values (c ∷ path) l k = elim (Bool-cases (c == byte)) [
        | inl y ↦
            let same : c ≡ byte = ground arith in
            value_at-Leads n n' below byte w c path l k
            ∙ rw (y, same, value_at-some n byte path l k next e) (r.values path l k)
        | inr y ↦ value_at-Leads n n' below byte w c path l k ∙ rw y
      ]

  leads_on : child n byte ≢ none
  leads_on f = cc (f, e)

  shrink-Removes : Removes n (record p { path = byte ∷ p.path }) (shrink n byte below)
  unfolding shrink
  shrink-Removes = elim (Bool-cases (is_empty below)) [
    | inl y ↦
        let (n', found, w) = delete_branch-Cut n byte (IsValid-sorted v) leads_on in
        rw (y, found) (Cut-Removes n' y w)
    | inr y ↦
        rw y (Leads-Removes _ (update_next_node-Leads n byte (IsValid-sorted v) below leads_on))
  ]

module _ (byte : ℕ) (rest : List ℕ) (len : ℕ) (n : Node) where
  delete_from_more :
      8 ≤ len
      → (next : Node) → get_next_node n byte ≡ some next
      → delete_from n (byte ∷ rest) len ≡ shrink n byte (delete_from next rest (len - 8))
  unfolding delete_from
  delete_from_more h next e = rw (le→leb 8 len h, e, delete_from)

  delete_from_last :
      len < 8
      → (n' : Node) → delete_prefix n len (top_bits byte len) ≡ some n'
      → delete_from n (byte ∷ rest) len ≡ n'
  unfolding delete_from
  delete_from_last h n' e = rw (lt→leb 8 len h, e, delete_from)

delete_from-nil :
    (n : Node) (len : ℕ) (n' : Node) → delete_prefix n len 0 ≡ some n' → delete_from n [] len ≡ n'
unfolding delete_from
delete_from-nil n len n' e = rw (e, delete_from)

-- Deletion of a prefix that is there clears its place, and leaves every other place as it was.
pub delete_from-Removes :
    (n : Node) (bytes : List ℕ) (len : ℕ)
    → IsValid n
    → HasBits bytes len
    → value_at n (place bytes len).path (place bytes len).len (place bytes len).key ≢ none
    → Removes n (place bytes len) (delete_from n bytes len)
delete_from-Removes n [] len v h was_there =
    let (n', found, w) =
      delete_prefix-Drops n (IsValid-ordered v) len 0 (omega arith) (omega arith)
        (λ f. was_there (rw (place-nil len, value_at-nil) f)) in
    rw (delete_from-nil n len n' found, place-nil) (Drops-Removes n n' len 0 v w)
delete_from-Removes n (byte ∷ rest) len v h was_there = elim (dec_le 8 len) [
  | no last ↦
      let (n', found, w) =
        delete_prefix-Drops n (IsValid-ordered v) len (top_bits byte len) (omega arith)
          (top_bits-lt byte len h.0.0)
          (λ f. was_there (rw (place_last byte rest len (omega arith), value_at-nil) f)) in
      rw
        (
          delete_from_last byte rest len n (omega arith) n' found,
          place_last byte rest len (omega arith),
        )
        (Drops-Removes n n' len (top_bits byte len) v w)
  | yes more ↦ elim (Option-cases (child n byte)) [
    | inl e ↦ absurd (was_there (rw (place_more byte rest len more) (value_at-none n byte _ _ _ e)))
    | inr (next, e) ↦
        rw
          (
            place_more byte rest len more,
            delete_from_more byte rest len n more next
                (get_next_node-child n byte (IsValid-sorted v) ∙ e),
          )
          (shrink-Removes n next (delete_from next rest (len - 8)) byte (place rest (len - 8)) v
            h.0.0 e
            (delete_from-Removes next rest (len - 8) (IsValid-child v byte next e)
              (h.0.1, omega arith)
              (λ f.
                was_there
                  (rw (place_more byte rest len more) (value_at-some n byte _ _ _ next e ∙ f)))))
  ]
]
