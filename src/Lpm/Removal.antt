-- ===== src/Lpm/Removal.antt =====
-- Deletion through the interface of src/bf_lpm_trie/bf_lpm_trie.c.
use prog_tm_bmv.Base.{
  ℕ, ◌≡◌, ap, sym, ◌∙◌, if◌then◌else◌, true, false, Bool-cases, Option-cases, List, none, some, inl,
  inr,
}
use prog_tm_bmv.Lpm.{Prefix, Trie, retrieve_value, has_prefix, delete, retrieve_from, delete_from}
use prog_tm_bmv.Lpm.Tree.{
  Place, IsValid, place, HasBits, value_at, same_place, retrieve_from-value_at,
}
use prog_tm_bmv.Lpm.SamePrefix.{same_prefix, same_prefix-place}
use prog_tm_bmv.Lpm.Match.{value_of}
use prog_tm_bmv.Lpm.Delete.{Removes, delete_from-Removes}
use prog_tm_bmv.Lpm.Table.{retrieve_value-stored, value_of-if, retrieve_value-same}

module _ (t : Trie) (p : List ℕ) (len : ℕ) where
  delete-some :
      (e : Prefix)
      → retrieve_from t.root p len ≡ some e
      → delete t p len
        ≡ (true, if t.release_memory then record t { root = delete_from t.root p len } else t)
  unfolding delete
  delete-some e found = rw (found, delete)

  delete_shrinks :
      (e : Prefix)
      → retrieve_from t.root p len ≡ some e
      → t.release_memory ≡ true
      → delete t p len ≡ (true, record t { root = delete_from t.root p len })
  delete_shrinks e found m =
      delete-some e found
      ∙ ap (λ s. (true, if s then record t { root = delete_from t.root p len } else t)) m

  delete_stays :
      (e : Prefix)
      → retrieve_from t.root p len ≡ some e
      → t.release_memory ≡ false
      → delete t p len ≡ (true, t)
  delete_stays e found m =
      delete-some e found
      ∙ ap (λ s. (true, if s then record t { root = delete_from t.root p len } else t)) m

  delete-none : retrieve_from t.root p len ≡ none → delete t p len ≡ (false, t)
  unfolding delete
  delete-none missing = rw (missing, delete)

  has_prefix-some : (e : Prefix) → retrieve_from t.root p len ≡ some e → has_prefix t p len ≡ true
  unfolding has_prefix retrieve_value
  has_prefix-some e found = rw (found, has_prefix)

  has_prefix-none : retrieve_from t.root p len ≡ none → has_prefix t p len ≡ false
  unfolding has_prefix retrieve_value
  has_prefix-none missing = rw (missing, has_prefix)

  retrieve_value-none : retrieve_from t.root p len ≡ none → retrieve_value t p len ≡ none
  unfolding retrieve_value
  retrieve_value-none missing = rw (missing, retrieve_value)

module _ (t : Trie) (p : List ℕ) (len : ℕ) where
  -- Deletion answers whether the trie had the prefix.
  pub delete-has_prefix : (delete t p len).0 ≡ has_prefix t p len
  delete-has_prefix = elim (Option-cases (retrieve_from t.root p len)) [
    | inl missing ↦ rw (delete-none t p len missing, has_prefix-none t p len missing)
    | inr (e, found) ↦ rw (delete-some t p len e found, has_prefix-some t p len e found)
  ]

  module _ (v : IsValid t.root) (h : HasBits p len) where
    delete_from-found :
        (e : Prefix)
        → retrieve_from t.root p len ≡ some e
        → Removes t.root (place p len) (delete_from t.root p len)
    delete_from-found e found =
        let there : value_at t.root (place p len).path (place p len).len (place p len).key
            ≡ some e =
          sym (retrieve_from-value_at t.root p len v h) ∙ found in
        delete_from-Removes t.root p len v h (λ f. cc (f, there))

    -- Deletion of a prefix whose bits are given keeps a trie valid, made with auto_shrink or not.
    pub delete-IsValid : IsValid (delete t p len).1.root
    delete-IsValid = elim (Option-cases (retrieve_from t.root p len)) [
      | inl missing ↦ rw (delete-none t p len missing) v
      | inr (e, found) ↦ elim (Bool-cases t.release_memory) [
        | inl m ↦ rw (delete_shrinks t p len e found m) (delete_from-found e found).is_valid
        | inr m ↦ rw (delete_stays t p len e found m) v
      ]
    ]

    -- After the deletion from a valid trie made with auto_shrink of a prefix whose bits are given,
    -- that prefix, however it is written, has no value, and every other prefix has what it had.
    pub retrieve_value-delete :
        t.release_memory ≡ true
        → (q : List ℕ) (len' : ℕ) → HasBits q len'
        → retrieve_value (delete t p len).1 q len'
          ≡ (if same_prefix p len q len' then none else retrieve_value t q len')
    retrieve_value-delete m q len' h' = elim (Option-cases (retrieve_from t.root p len)) [
      | inl missing ↦
          rw (delete-none t p len missing) (elim (Bool-cases (same_prefix p len q len')) [
            | inl e ↦
                rw e (
                  retrieve_value-same t p len q len' v h h' e ∙ retrieve_value-none t p len missing)
            | inr e ↦ rw e
          ])
      | inr (e, found) ↦
          let r : Removes t.root (place p len) (delete_from t.root p len) =
            delete_from-found e found in
          let at_q : Place = place q len' in
          rw (delete_shrinks t p len e found m) (
            retrieve_value-stored (record t { root = delete_from t.root p len }) q len' r.is_valid
              h'
            ∙ ap value_of (r.values at_q.path at_q.len at_q.key)
            ∙ value_of-if (same_place (place p len) at_q.path at_q.len at_q.key) _ _
            ∙ rw (same_prefix-place p len q len' h h', retrieve_value-stored t q len' v h'))
    ]
