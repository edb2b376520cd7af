-- ===== src/Lpm/Sorted.antt =====
-- The order of a trie's vectors, and the vector functions of src/bf_lpm_trie/bf_lpm_trie.c by what they
-- do to `child` and `entry`: the branch of a byte, and the prefix of a length and key.
use Prim.Native.Nat.{compare}
use prog_tm_bmv.Base.{
  ℕ, ◌+◌, ◌-◌, ◌*◌, ◌<◌, ◌≡◌, ◌≢◌, refl, ap, ◌∙◌, arith, ◌==◌, Bool, true, false, if◌then◌else◌,
  List, [], ◌∷◌, get_or, get_elem?, set, Option, none, some,
}
use prog_tm_bmv.Lpm.Bisect.{Search, found, missing, Located, here, between, search-Located}
use prog_tm_bmv.Lpm.Vector.{
  insert_at, remove_at, keys, Ascending, find, length-keys, Ascending-Rises, At, find-here,
  find-between, find-set, Ascending-set, find-insert_at, Ascending-insert_at, find-remove_at,
  Ascending-remove_at,
}
use prog_tm_bmv.Lpm.{
  Prefix, Node, node, Branch, unpack, pack, branches, prefixes, with_branches, with_prefixes,
  find_branch, get_next_node, set_next_node, update_next_node, delete_branch,
}

abbrev pub branch_key : Branch → ℕ
branch_key b = b.0

-- Longer prefixes come first, and among those of one length smaller keys.
abbrev pub rank : ℕ → ℕ → ℕ
rank prefix_length key = (8 - prefix_length) * 256 + key

abbrev pub prefix_key : Prefix → ℕ
prefix_key p = rank p.prefix_length p.key

abbrev pub AreShort : List Prefix → Type 0
AreShort [] = Unit {0}
AreShort (p ∷ ps) = (p.prefix_length < 8) × (p.key < 256) × AreShort ps

abbrev pub next_of : Option Branch → Option Node
next_of none = none
next_of (some b) = some b.1

-- The node that the branch of a byte leads to.
abbrev pub child : Node → ℕ → Option Node
child n byte = next_of (find branch_key byte (branches n))

-- The prefix of a length and key that ends in the node.
abbrev pub entry : Node → ℕ → ℕ → Option Prefix
entry n prefix_length key = find prefix_key (rank prefix_length key) (prefixes n)

pub unpack-pack : (bs : List Branch) → unpack (pack bs) ≡ bs
unpack-pack [] = refl
unpack-pack ((v, n) ∷ bs) = ap (◌∷◌ (v, n)) (unpack-pack bs)

pub branches-with : (n : Node) (bs : List Branch) → branches (with_branches n bs) ≡ bs
branches-with (node bs ps) bs' = unpack-pack bs'

pub prefixes-with_branches :
    (n : Node) (bs : List Branch) → prefixes (with_branches n bs) ≡ prefixes n
prefixes-with_branches (node bs ps) bs' = refl

pub branches-with_prefixes :
    (n : Node) (ps : List Prefix) → branches (with_prefixes n ps) ≡ branches n
branches-with_prefixes (node bs ps) ps' = refl

pub prefixes-with : (n : Node) (ps : List Prefix) → prefixes (with_prefixes n ps) ≡ ps
prefixes-with (node bs ps) ps' = refl

module _ (n : Node) (byte : ℕ) (sorted : Ascending branch_key 0 (branches n)) where
  abbrev bytes : List ℕ
  bytes = keys branch_key (branches n)

  find_branch-Located : Located byte bytes (find_branch n byte)
  find_branch-Located = rw (← length-keys branch_key (branches n)) (
      search-Located byte bytes (λ i. compare byte (get_or bytes i 0)) (λ i h. refl)
        (Ascending-Rises branch_key 0 (branches n) sorted))

  next_at :
      (s : Search)
      → Located byte bytes s
      → (elim s [
        | found idx ↦ elim (get_elem? (branches n) idx) [ some b ↦ some b.1 | none ↦ none ]
        | missing a ↦ none
      ])
        ≡ child n byte
  next_at (found i) (here _ h e) =
      let r : At branch_key byte (branches n) i =
        find-here branch_key byte 0 (branches n) i sorted h e in
      rw (r.there, r.first)
  next_at (missing a) (between _ h below above) =
      rw (find-between branch_key byte 0 (branches n) a sorted below above)

  pub get_next_node-child : get_next_node n byte ≡ child n byte
  unfolding get_next_node
  get_next_node-child = next_at (find_branch n byte) find_branch-Located

-- A node with one branch set to lead to `next`, and else as before.
pub record Leads (n : Node) (byte : ℕ) (next : Node) (n' : Node) : Type 0 where
  pub same_prefixes : prefixes n' ≡ prefixes n
  pub sorted : Ascending branch_key 0 (branches n')
  pub children : (c : ℕ) → child n' c ≡ (if c == byte then some next else child n c)

-- A node with one branch taken out.
pub record Cut (n : Node) (byte : ℕ) (n' : Node) : Type 0 where
  pub same_prefixes : prefixes n' ≡ prefixes n
  pub sorted : Ascending branch_key 0 (branches n')
  pub children : (c : ℕ) → child n' c ≡ (if c == byte then none else child n c)

next_of-if :
    (t : Bool) (b : Branch) (o : Option Branch)
    → next_of (if t then some b else o) ≡ (if t then some b.1 else next_of o)
next_of-if true b o = refl
next_of-if false b o = refl

next_of-if_none :
    (t : Bool) (o : Option Branch)
    → next_of (if t then none else o) ≡ (if t then none else next_of o)
next_of-if_none true o = refl
next_of-if_none false o = refl

module _ (n : Node) (byte : ℕ) (sorted : Ascending branch_key 0 (branches n)) (next : Node) where
  update_at :
      (s : Search)
      → Located byte (keys branch_key (branches n)) s
      → child n byte ≢ none
      → Leads n byte next (elim s [
        | found idx ↦ with_branches n (set (branches n) idx (byte, next))
        | missing a ↦ n
      ])
  update_at (found i) (here _ h e) some_child = record {
    same_prefixes = prefixes-with_branches n _;
    sorted = rw branches-with (Ascending-set branch_key (byte, next) 0 (branches n) i sorted e);
    children = λ c. rw branches-with (
        ap next_of (find-set branch_key (byte, next) 0 (branches n) i sorted h e c)
        ∙ next_of-if (c == byte) (byte, next) _);
  }
  update_at (missing a) (between _ h below above) some_child =
      absurd
        (some_child (ap next_of (find-between branch_key byte 0 (branches n) a sorted below above)))

  -- A change below an existing branch.
  pub update_next_node-Leads :
      child n byte ≢ none → Leads n byte next (update_next_node n byte next)
  unfolding update_next_node
  update_next_node-Leads = update_at (find_branch n byte) (find_branch-Located n byte sorted)

  set_at :
      (s : Search)
      → Located byte (keys branch_key (branches n)) s
      → child n byte ≡ none
      → Leads n byte next (elim s [
        | found idx ↦ n
        | missing a ↦ with_branches n (insert_at (branches n) a (byte, next))
      ])
  set_at (found i) (here _ h e) no_child =
      let r : At branch_key byte (branches n) i =
        find-here branch_key byte 0 (branches n) i sorted h e in
      cc (ap next_of r.first, no_child)
  set_at (missing a) (between _ h below above) no_child = record {
    same_prefixes = prefixes-with_branches n _;
    sorted = rw branches-with (
        Ascending-insert_at branch_key (byte, next) 0 (branches n) a sorted (omega arith) h below
          above);
    children = λ c. rw branches-with (
        ap next_of (find-insert_at branch_key (byte, next) (branches n) a h below c)
        ∙ next_of-if (c == byte) (byte, next) _);
  }

  -- A new branch.
  pub set_next_node-Leads : child n byte ≡ none → Leads n byte next (set_next_node n byte next)
  unfolding set_next_node
  set_next_node-Leads = set_at (find_branch n byte) (find_branch-Located n byte sorted)

module _ (n : Node) (byte : ℕ) (sorted : Ascending branch_key 0 (branches n)) where
  delete_at :
      (s : Search)
      → Located byte (keys branch_key (branches n)) s
      → child n byte ≢ none
      → (n' : Node) × ((elim s [
        | found idx ↦ some (with_branches n (remove_at (branches n) idx))
        | missing a ↦ none
      ])
          ≡ some n')
        × Cut n byte n'
  delete_at (found i) (here _ h e) some_child = (
    with_branches n (remove_at (branches n) i),
    refl,
    record {
      same_prefixes = prefixes-with_branches n _;
      sorted = rw branches-with (Ascending-remove_at branch_key 0 (branches n) i sorted);
      children = λ c. rw branches-with (
          ap next_of (find-remove_at branch_key byte 0 (branches n) i sorted h e c)
          ∙ next_of-if_none (c == byte) _);
    },
  )
  delete_at (missing a) (between _ h below above) some_child =
      absurd
        (some_child (ap next_of (find-between branch_key byte 0 (branches n) a sorted below above)))

  -- `delete_branch` finds a branch that is there, and takes it out.
  pub delete_branch-Cut :
      child n byte ≢ none → (n' : Node) × (delete_branch n byte ≡ some n') × Cut n byte n'
  unfolding delete_branch
  delete_branch-Cut = delete_at (find_branch n byte) (find_branch-Located n byte sorted)
