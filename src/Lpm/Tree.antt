-- ===== src/Lpm/Tree.antt =====
-- The trie of src/bf_lpm_trie/bf_lpm_trie.c as a map from prefixes to values: insertion and retrieval.
use prog_tm_bmv.Base.{
  ℕ, ◌-◌, ◌*◌, ◌^◌, ◌≤◌, ◌<◌, ◌≡◌, ◌≢◌, refl, ap, subst, sym, ◌∙◌, arith, ◌==◌, leb, if◌then◌else◌,
  Bool, true, false, ◌&&◌, le→leb, lt→leb, Bool-cases, Option-cases, List, [], ◌∷◌, length, Option,
  none, some, inl, inr,
}
use native.Mathlib.Decide.{dec_le}
use native.Mathlib.Nat.{div-le_self}
use prog_tm_bmv.Lpm.Vector.{Ascending, find}
use prog_tm_bmv.Lpm.{
  Prefix, Node, branches, empty_node, get_next_node, get_prefix, top_bits, retrieve_from,
}
use prog_tm_bmv.Lpm.Sorted.{
  branch_key, next_of, rank, prefix_key, child, entry, get_next_node-child, Leads,
}
use prog_tm_bmv.Lpm.Prefixes.{AreOrdered, get_prefix-entry, Holds}

-- All vectors of the trie are sorted, its prefixes are shorter than a byte, the empty one has no
-- bits, and branches are by byte.
pub data IsValid : Node → Type 0 where
  valid :
      (n : Node)
      → Ascending branch_key 0 (branches n)
      → AreOrdered n
      → ((byte : ℕ) (next : Node) → child n byte ≡ some next → byte < 256)
      → ((key : ℕ) → entry n 0 key ≢ none → key ≡ 0)
      → ((byte : ℕ) (next : Node) → child n byte ≡ some next → IsValid next)
      → IsValid n

pub IsValid-sorted : {n : Node} → IsValid n → Ascending branch_key 0 (branches n)
IsValid-sorted (valid n s o b z c) = s

pub IsValid-ordered : {n : Node} → IsValid n → AreOrdered n
IsValid-ordered (valid n s o b z c) = o

pub IsValid-byte :
    {n : Node} → IsValid n → (byte : ℕ) (next : Node) → child n byte ≡ some next → byte < 256
IsValid-byte (valid n s o b z c) = b

pub IsValid-zero : {n : Node} → IsValid n → (key : ℕ) → entry n 0 key ≢ none → key ≡ 0
IsValid-zero (valid n s o b z c) = z

pub IsValid-child :
    {n : Node} → IsValid n → (byte : ℕ) (next : Node) → child n byte ≡ some next → IsValid next
IsValid-child (valid n s o b z c) = c

pub empty_node-IsValid : IsValid empty_node
unfolding find
empty_node-IsValid =
    valid empty_node tt (record { sorted = tt; short = tt }) (λ b n e. cc) (λ k e. absurd (e refl))
      (λ b n e. cc)

-- Where a prefix of `length` bits of `bytes` ends: the branches to its node, and its last bits.
pub record Place : Type 0 where
  pub path : List ℕ
  pub len : ℕ
  pub key : ℕ

unfoldable pub place : List ℕ → ℕ → Place
place [] len = record { path = []; len = len; key = 0 }
place (byte ∷ rest) len =
    if leb 8 len
    then record (place rest (len - 8)) { path = byte ∷ (place rest (len - 8)).path }
    else record { path = []; len = len; key = top_bits byte len }

abbrev pub AreBytes : List ℕ → Type 0
AreBytes [] = Unit {0}
AreBytes (b ∷ bs) = (b < 256) × AreBytes bs

-- The buffer holds the bits of the prefix.
abbrev pub HasBits : List ℕ → ℕ → Type 0
HasBits bytes len = AreBytes bytes × (len ≤ 8 * length bytes)

-- The prefix that the trie has at a place, by following the branches.
unfoldable pub value_at : Node → List ℕ → ℕ → ℕ → Option Prefix
value_at n [] len key = entry n len key
value_at n (byte ∷ path) len key = elim (child n byte) [
  | some next ↦ value_at next path len key
  | none ↦ none
]

unfoldable pub same_path : List ℕ → List ℕ → Bool
same_path [] [] = true
same_path [] (c ∷ q) = false
same_path (b ∷ p) [] = false
same_path (b ∷ p) (c ∷ q) = c == b && same_path p q

abbrev pub same_place : Place → List ℕ → ℕ → ℕ → Bool
same_place p path len key = same_path p.path path && rank len key == rank p.len p.key

pub top_bits-lt : (byte len : ℕ) → byte < 256 → top_bits byte len < 256
top_bits-lt byte len h = omega (arith, div-le_self byte (2 ^ (8 - len)))

-- No bits of a byte are none.
pub top_bits_zero : (byte : ℕ) → byte < 256 → top_bits byte 0 ≡ 0
top_bits_zero byte h = omega arith

pub place-IsShort :
    (bytes : List ℕ) (len : ℕ)
    → HasBits bytes len
    → ((place bytes len).len < 8) × ((place bytes len).key < 256)
unfolding place
place-IsShort [] len h = omega arith
place-IsShort (byte ∷ rest) len h =
    ground (arith, top_bits-lt byte len h.0.0, place-IsShort rest (len - 8))

module _ (n : Node) (byte : ℕ) (path : List ℕ) (len key : ℕ) where
  pub value_at-some :
      (next : Node)
      → child n byte ≡ some next
      → value_at n (byte ∷ path) len key ≡ value_at next path len key
  unfolding value_at
  value_at-some next e =
      ap (λ (o : Option Node). elim o [ some m ↦ value_at m path len key | none ↦ none ]) e

  pub value_at-none : child n byte ≡ none → value_at n (byte ∷ path) len key ≡ none
  unfolding value_at
  value_at-none e =
      ap (λ (o : Option Node). elim o [ some m ↦ value_at m path len key | none ↦ none ]) e

pub value_at_same :
    (n n' : Node) (byte : ℕ) (path : List ℕ) (len key : ℕ)
    → child n byte ≡ child n' byte
    → value_at n (byte ∷ path) len key ≡ value_at n' (byte ∷ path) len key
unfolding value_at
value_at_same n n' byte path len key e =
    ap (λ (o : Option Node). elim o [ some m ↦ value_at m path len key | none ↦ none ]) e

pub value_at-nil : (n : Node) (len key : ℕ) → value_at n [] len key ≡ entry n len key
unfolding value_at
value_at-nil n len key = refl

module _ (byte : ℕ) (rest : List ℕ) (len : ℕ) where
  pub place_more :
      8 ≤ len
      → place (byte ∷ rest) len
        ≡ record (place rest (len - 8)) { path = byte ∷ (place rest (len - 8)).path }
  unfolding place
  place_more h = rw (le→leb 8 len h)

  pub place_last :
      len < 8 → place (byte ∷ rest) len ≡ record { path = []; len = len; key = top_bits byte len }
  unfolding place
  place_last h = rw (lt→leb 8 len h)

  pub retrieve_from_more :
      (n : Node)
      → 8 ≤ len
      → retrieve_from n (byte ∷ rest) len ≡ (elim (get_next_node n byte) [
        | some next ↦ retrieve_from next rest (len - 8)
        | none ↦ none
      ])
  unfolding retrieve_from
  retrieve_from_more n h = rw (le→leb 8 len h)

  pub retrieve_from_last :
      (n : Node)
      → len < 8
      → retrieve_from n (byte ∷ rest) len ≡ get_prefix n len (top_bits byte len)
  unfolding retrieve_from
  retrieve_from_last n h = rw (lt→leb 8 len h)

pub retrieve_from-nil : (n : Node) (len : ℕ) → retrieve_from n [] len ≡ get_prefix n len 0
unfolding retrieve_from
retrieve_from-nil n len = refl

pub place-nil : (len : ℕ) → place [] len ≡ record { path = []; len = len; key = 0 }
unfolding place
place-nil len = refl

-- Retrieval follows the branches to the place of the prefix.
pub retrieve_from-value_at :
    (n : Node) (bytes : List ℕ) (len : ℕ)
    → IsValid n
    → HasBits bytes len
    → let p = place bytes len in retrieve_from n bytes len ≡ value_at n p.path p.len p.key
retrieve_from-value_at n [] len v h =
    rw (retrieve_from-nil, place-nil, value_at-nil)
      (get_prefix-entry n (IsValid-ordered v) len 0 (omega arith) (omega arith))
retrieve_from-value_at n (byte ∷ rest) len v h = elim (dec_le 8 len) [
  | yes more ↦
      rw
        (
          place_more byte rest len more,
          retrieve_from_more byte rest len n more,
          get_next_node-child n byte (IsValid-sorted v),
        )
        (elim (Option-cases (child n byte)) [
          | inl e ↦ rw (value_at-none n byte _ _ _ e, e)
          | inr (next, e) ↦
              rw (value_at-some n byte _ _ _ next e, e)
                (retrieve_from-value_at next rest (len - 8) (IsValid-child v byte next e)
                  (h.0.1, omega arith))
        ])
  | no last ↦
      rw
        (
          place_last byte rest len (omega arith),
          retrieve_from_last byte rest len n (omega arith),
          value_at-nil,
        )
        (get_prefix-entry n (IsValid-ordered v) len (top_bits byte len) (omega arith)
          (top_bits-lt byte len h.0.0))
]

-- After a branch is set, paths through it go on in the new node, and others are as before.
pub value_at-Leads :
    (n n' next : Node) (byte : ℕ)
    → Leads n byte next n'
    → (c : ℕ) (path : List ℕ) (len key : ℕ)
    → value_at n' (c ∷ path) len key
      ≡ (if c == byte then value_at next path len key else value_at n (c ∷ path) len key)
value_at-Leads n n' next byte w c path len key = elim (Bool-cases (c == byte)) [
  | inl e ↦
      let to : child n' c ≡ some next = w.children c ∙ ground arith in
      rw e (value_at-some n' c path len key next to)
  | inr ne ↦
      let to : child n' c ≡ child n c = w.children c ∙ ground arith in
      rw ne (value_at_same n' n c path len key to)
]

pub Leads-IsValid :
    (n n' next : Node) (byte : ℕ)
    → IsValid n
    → byte < 256
    → IsValid next
    → Leads n byte next n'
    → IsValid n'
Leads-IsValid n n' next byte v small vn w =
    valid n' w.sorted
      (record {
        sorted = rw w.same_prefixes (IsValid-ordered v).sorted;
        short = rw w.same_prefixes (IsValid-ordered v).short;
      })
      (λ c m e. elim (Bool-cases (c == byte)) [
        | inl same ↦ ground arith
        | inr ne ↦ IsValid-byte v c m (sym (w.children c ∙ ground arith) ∙ e)
      ])
      (λ k e. IsValid-zero v k (λ f. e (ap (find prefix_key (rank 0 k)) w.same_prefixes ∙ f)))
      (λ c m e. elim (Bool-cases (c == byte)) [
        | inl same ↦
            let to : some next ≡ some m = sym (w.children c ∙ ground arith) ∙ e in
            let same_node : next ≡ m = cc to in subst IsValid same_node vn
        | inr ne ↦ IsValid-child v c m (sym (w.children c ∙ ground arith) ∙ e)
      ])

pub Holds-IsValid :
    (n n' : Node) (p : Prefix)
    → IsValid n
    → p.prefix_length < 8
    → p.key < 256
    → (p.prefix_length ≡ 0 → p.key ≡ 0)
    → Holds n p n'
    → IsValid n'
Holds-IsValid n n' p v short small none_zero w =
    valid n' (rw w.same_branches (IsValid-sorted v)) w.ordered
      (λ c m e. IsValid-byte v c m (same c ∙ e)) zero_key
      (λ c m e. IsValid-child v c m (same c ∙ e))
  where
    same : (c : ℕ) → child n c ≡ child n' c
    same c = ap (λ bs. next_of (find branch_key c bs)) (sym w.same_branches)

    zero_key : (k : ℕ) → entry n' 0 k ≢ none → k ≡ 0
    zero_key k e = elim (Bool-cases (rank 0 k == prefix_key p)) [
      | inl y ↦ ground (arith, none_zero)
      | inr y ↦ IsValid-zero v k (λ f. e (w.entries 0 k ∙ rw y f))
    ]
