-- ===== src/Lpm.antt =====
-- src/bf_lpm_trie/bf_lpm_trie.c: the trie behind longest-prefix-match tables. A node holds the
-- prefixes that end inside its byte and one branch for each next byte, both in sorted arrays. A node
-- is a value here: a write through a pointer into a node is the node with that part replaced, and the
-- way back along `parent` and `child_id` is the way back out of the recursion. Capacities are left out.
mod Bisect
mod Vector
mod Sorted
mod Prefixes
pub mod Tree
mod Insert
mod Match
mod Lookup
mod Delete
pub mod SamePrefix
pub mod Table
pub mod Removal
mod Tests
use Prim.Native.Nat.{compare, Ordering}
use Bisect.{Search, found, missing, search}
use Vector.{insert_at, remove_at}
use prog_tm_bmv.Base.{
  ℕ, ◌+◌, ◌-◌, ◌*◌, ◌/◌, ◌^◌, Bool, true, false, ◌&&◌, leb, ◌==◌, if◌then◌else◌, List, [], ◌∷◌,
  length, get_or, get_elem?, set, map, take, Option, none, some,
}

-- `prefix_t`: `prefix_length` bits, below 8, whose value is `key`
pub record Prefix : Type 0 where
  pub prefix_length : ℕ
  pub key : ℕ
  pub value : ℕ

-- `node_t`, and its vector of `branch_t`
mutual
  pub data Node : Type 0 where
    node : Branches → List Prefix → Node

  pub data Branches : Type 0 where
    nil : Branches
    cons : ℕ → Node → Branches → Branches

abbrev pub Branch : Type 0
Branch = ℕ × Node

abbrev pub unpack : Branches → List Branch
unpack nil = []
unpack (cons v n bs) = (v, n) ∷ unpack bs

abbrev pub pack : List Branch → Branches
pack [] = nil
pack ((v, n) ∷ bs) = cons v n (pack bs)

abbrev pub branches : Node → List Branch
branches (node bs ps) = unpack bs

abbrev pub prefixes : Node → List Prefix
prefixes (node bs ps) = ps

abbrev pub with_branches : Node → List Branch → Node
with_branches (node bs ps) bs' = node (pack bs') ps

abbrev pub with_prefixes : Node → List Prefix → Node
with_prefixes (node bs ps) ps' = node bs ps'

-- `allocate_node`
abbrev pub empty_node : Node
empty_node = node nil []

-- the search for a byte among the branches
abbrev find_branch : Node → ℕ → Search
find_branch n byte =
    search (λ i. compare byte (get_or (map (λ b. b.0) (branches n)) i 0)) (length (branches n))

unfoldable pub get_next_node : Node → ℕ → Option Node
get_next_node n byte = elim (find_branch n byte) [
  | found idx ↦ elim (get_elem? (branches n) idx) [ some b ↦ some b.1 | none ↦ none ]
  | missing a ↦ none
]

unfoldable pub set_next_node : Node → ℕ → Node → Node
set_next_node n byte next = elim (find_branch n byte) [
  | found idx ↦ n
  | missing a ↦ with_branches n (insert_at (branches n) a (byte, next))
]

-- What a change below the branch of `byte`, made through its pointer, does to the node.
unfoldable pub update_next_node : Node → ℕ → Node → Node
update_next_node n byte next = elim (find_branch n byte) [
  | found idx ↦ with_branches n (set (branches n) idx (byte, next))
  | missing a ↦ n
]

-- The three that follow return nothing where the code returns 0.
unfoldable pub delete_branch : Node → ℕ → Option Node
delete_branch n byte = elim (find_branch n byte) [
  | found idx ↦ some (with_branches n (remove_at (branches n) idx))
  | missing a ↦ none
]

unfoldable pub prefix_cmp : Prefix → Prefix → Ordering
prefix_cmp p1 p2 =
    if p1.prefix_length == p2.prefix_length
    then compare p1.key p2.key
    else compare p2.prefix_length p1.prefix_length

abbrev find_prefix : Node → Prefix → Search
find_prefix n p = search (λ i. prefix_cmp p (get_or (prefixes n) i p)) (length (prefixes n))

unfoldable pub insert_prefix : Node → ℕ → ℕ → ℕ → Node
insert_prefix n prefix_length key value =
    let p : Prefix = record { prefix_length = prefix_length; key = key; value = value } in
    elim (find_prefix n p) [
      | found idx ↦
          with_prefixes n
            (set (prefixes n) idx (record (get_or (prefixes n) idx p) { value = value }))
      | missing a ↦ with_prefixes n (insert_at (prefixes n) a p)
    ]

unfoldable pub get_prefix : Node → ℕ → ℕ → Option Prefix
get_prefix n prefix_length key =
    elim (find_prefix n (record { prefix_length = prefix_length; key = key; value = 0 })) [
      | found idx ↦ get_elem? (prefixes n) idx
      | missing a ↦ none
    ]

unfoldable pub get_empty_prefix : Node → Option Prefix
get_empty_prefix n = elim (get_elem? (prefixes n) (length (prefixes n) - 1)) [
  | some p ↦ if p.prefix_length == 0 then some p else none
  | none ↦ none
]

unfoldable pub delete_prefix : Node → ℕ → ℕ → Option Node
delete_prefix n prefix_length key =
    elim (find_prefix n (record { prefix_length = prefix_length; key = key; value = 0 })) [
      | found idx ↦ some (with_prefixes n (remove_at (prefixes n) idx))
      | missing a ↦ none
    ]

-- `(unsigned char) *prefix >> (8 - prefix_length)`
abbrev pub top_bits : ℕ → ℕ → ℕ
top_bits byte prefix_length = byte / 2 ^ (8 - prefix_length)

-- The list is what `prefix` points at. The code reads one more byte at its end, when
-- `prefix_length` has come to 0, and shifts it out whatever it is.
unfoldable pub insert_from : Node → List ℕ → ℕ → ℕ → Node
insert_from n [] prefix_length value = insert_prefix n prefix_length 0 value
insert_from n (byte ∷ rest) prefix_length value =
    let below = λ (next : Node). insert_from next rest (prefix_length - 8) value in
    if leb 8 prefix_length
    then elim (get_next_node n byte) [
      | some next ↦ update_next_node n byte (below next)
      | none ↦ set_next_node n byte (below empty_node)
    ]
    else insert_prefix n prefix_length (top_bits byte prefix_length) value

-- The prefix at the end of the descent, which `retrieve_value` and `delete` share.
unfoldable pub retrieve_from : Node → List ℕ → ℕ → Option Prefix
retrieve_from n [] prefix_length = get_prefix n prefix_length 0
retrieve_from n (byte ∷ rest) prefix_length =
    let below = λ (next : Node). retrieve_from next rest (prefix_length - 8) in
    if leb 8 prefix_length
    then elim (get_next_node n byte) [ some next ↦ below next | none ↦ none ]
    else get_prefix n prefix_length (top_bits byte prefix_length)

-- The first of a node's prefixes that the byte starts with.
unfoldable pub first_match : List Prefix → ℕ → Option ℕ
first_match [] byte = none
first_match (p ∷ ps) byte =
    if p.key == top_bits byte p.prefix_length then some p.value else first_match ps byte

abbrev pub or_else : Option ℕ → Option ℕ → Option ℕ
or_else none best = best
or_else (some v) best = some v

-- `best` is `*pvalue` once `found` is set; the list is the rest of the key.
unfoldable pub lookup_from : Node → List ℕ → Option ℕ → Option ℕ
lookup_from n [] best = elim (get_empty_prefix n) [ some p ↦ some p.value | none ↦ best ]
lookup_from n (byte ∷ rest) best =
    let best' = or_else (first_match (prefixes n) byte) best in
    let below = λ (next : Node). lookup_from next rest best' in
    elim (get_next_node n byte) [ some next ↦ below next | none ↦ best' ]

-- `prefixes.size == 0 && branches.size == 0`
abbrev pub is_empty : Node → Bool
is_empty n = length (prefixes n) == 0 && length (branches n) == 0

-- The `while` loop of `delete`: an empty node is unlinked from its parent, which may be empty then.
unfoldable pub shrink : Node → ℕ → Node → Node
shrink n byte next =
    if is_empty next
    then elim (delete_branch n byte) [ some n' ↦ n' | none ↦ n ]
    else update_next_node n byte next

-- The tree without the prefix, which is there.
unfoldable pub delete_from : Node → List ℕ → ℕ → Node
delete_from n [] prefix_length = elim (delete_prefix n prefix_length 0) [ some n' ↦ n' | none ↦ n ]
delete_from n (byte ∷ rest) prefix_length =
    let below = λ (next : Node). delete_from next rest (prefix_length - 8) in
    if leb 8 prefix_length
    then elim (get_next_node n byte) [ some next ↦ shrink n byte (below next) | none ↦ n ]
    else elim (delete_prefix n prefix_length (top_bits byte prefix_length)) [
      | some n' ↦ n'
      | none ↦ n
    ]

-- `bf_lpm_trie_t`
pub record Trie : Type 0 where
  pub root : Node
  pub key_width_bytes : ℕ
  pub release_memory : Bool

unfoldable pub create : ℕ → Bool → Trie
create key_width_bytes auto_shrink = record {
  root = empty_node;
  key_width_bytes = key_width_bytes;
  release_memory = auto_shrink;
}

unfoldable pub insert : Trie → List ℕ → ℕ → ℕ → Trie
insert t prefix prefix_length value = record t {
  root = insert_from t.root prefix prefix_length value;
}

unfoldable pub retrieve_value : Trie → List ℕ → ℕ → Option ℕ
retrieve_value t prefix prefix_length = elim (retrieve_from t.root prefix prefix_length) [
  | some p ↦ some p.value
  | none ↦ none
]

unfoldable pub has_prefix : Trie → List ℕ → ℕ → Bool
unfolding retrieve_value
has_prefix t prefix prefix_length = elim (retrieve_value t prefix prefix_length) [
  | some v ↦ true
  | none ↦ false
]

unfoldable pub lookup : Trie → List ℕ → Option ℕ
lookup t key = lookup_from t.root (take t.key_width_bytes key) none

unfoldable pub delete : Trie → List ℕ → ℕ → Bool × Trie
delete t prefix prefix_length = elim (retrieve_from t.root prefix prefix_length) [
  | none ↦ (false, t)
  | some p ↦ (
    true,
    if t.release_memory then record t { root = delete_from t.root prefix prefix_length } else t,
  )
]
