-- ===== src/Lpm/Tests.antt =====
-- The theorems on src/bf_lpm_trie/bf_lpm_trie.c at a trie of two-byte keys.
use prog_tm_bmv.Base.{ℕ, ◌≡◌, refl, arith, List, [], ◌∷◌, true, some, none, if◌then◌else◌, length}
use prog_tm_bmv.Lpm.{Trie, create, insert, retrieve_value, lookup, delete}
use prog_tm_bmv.Lpm.Tree.{IsValid}
use prog_tm_bmv.Lpm.SamePrefix.{same_prefix}
use prog_tm_bmv.Lpm.Table.{
  create-IsEmpty, insert-IsValid, retrieve_value-insert, longest_prefix, lookup-longest_prefix,
}
use prog_tm_bmv.Lpm.Removal.{retrieve_value-delete}

abbrev net : List ℕ
net = 10 ∷ 160 ∷ []

abbrev host : List ℕ
host = 10 ∷ 170 ∷ []

abbrev empty_table : Trie
empty_table = create 2 true

abbrev wide : Trie
wide = insert empty_table net 8 1

-- 10/8 has value 1 and 10.160/11 has value 2.
abbrev table : Trie
table = insert wide net 11 2

empty_table-IsValid : IsValid empty_table.root
empty_table-IsValid = (create-IsEmpty 2 true net 8 (omega arith)).0

wide-IsValid : IsValid wide.root
wide-IsValid = insert-IsValid empty_table net 8 1 empty_table-IsValid (omega arith)

table-IsValid : IsValid table.root
table-IsValid = insert-IsValid wide net 11 2 wide-IsValid (omega arith)

table_width : length host ≡ table.key_width_bytes
unfolding insert create
table_width = refl

table_shrinks : table.release_memory ≡ true
unfolding insert create
table_shrinks = refl

retrieve_value-insert_example :
    retrieve_value (insert wide net 11 2) host 11
    ≡ (if same_prefix net 11 host 11 then some 2 else retrieve_value wide host 11)
retrieve_value-insert_example =
    retrieve_value-insert wide net 11 2 wide-IsValid (omega arith) host 11 (omega arith)

lookup-longest_prefix_example : lookup table host ≡ longest_prefix table host 16
lookup-longest_prefix_example =
    lookup-longest_prefix table host table-IsValid (omega arith) table_width

retrieve_value-delete_example :
    retrieve_value (delete table net 11).1 host 8
    ≡ (if same_prefix net 11 host 8 then none else retrieve_value table host 8)
retrieve_value-delete_example =
    retrieve_value-delete table net 11 table-IsValid (omega arith) table_shrinks host 8
      (omega arith)
