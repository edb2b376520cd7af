-- ===== src/Lpm/Match.antt =====
-- The prefixes of one node of src/bf_lpm_trie/bf_lpm_trie.c that a byte starts with: the first match is
-- the longest, and the empty prefix is the last.
use prog_tm_bmv.Base.{
  ℕ, zero, suc, ◌-◌, ◌≤◌, ◌<◌, ◌≡◌, ◌≢◌, refl, ap, ap₂, sym, ◌∙◌, arith, ◌==◌, if◌then◌else◌,
  Bool-cases, List, [], ◌∷◌, length, get_elem?, Option, none, some, inl, inr,
}
use native.Mathlib.Decide.{dec_le, dec_lt}
use prog_tm_bmv.Lpm.{Prefix, top_bits, first_match, or_else}
use prog_tm_bmv.Lpm.Vector.{Ascending, find, find_below}
use prog_tm_bmv.Lpm.Sorted.{rank, prefix_key, AreShort}
use prog_tm_bmv.Lpm.Prefixes.{rank_injective}
use prog_tm_bmv.Lpm.Tree.{top_bits-lt}

abbrev pub value_of : Option Prefix → Option ℕ
value_of none = none
value_of (some p) = some p.value

-- The same in a node, over the leading bits of one byte.
unfoldable pub longest_in : List Prefix → ℕ → ℕ → Option ℕ
longest_in ps byte zero = value_of (find prefix_key (rank 0 (top_bits byte 0)) ps)
longest_in ps byte (suc len) =
    or_else (value_of (find prefix_key (rank (suc len) (top_bits byte (suc len))) ps))
      (longest_in ps byte len)

longest_in-nil : (byte len : ℕ) → longest_in [] byte len ≡ none
unfolding longest_in find
longest_in-nil byte zero = refl
longest_in-nil byte (suc len) = longest_in-nil byte len

find_head :
    (p : Prefix) (ps : List Prefix) (k : ℕ) → prefix_key p ≡ k → find prefix_key k (p ∷ ps) ≡ some p
unfolding find
find_head p ps k e = rw e (ground arith)

find_skip :
    (p : Prefix) (ps : List Prefix) (k : ℕ)
    → prefix_key p ≢ k
    → find prefix_key k (p ∷ ps) ≡ find prefix_key k ps
unfolding find
find_skip p ps k e = ground arith

module _ (p : Prefix) (ps : List Prefix) (byte : ℕ) (b : byte < 256) (h : p.prefix_length < 8)
    (k : p.key < 256) where
  skip_one :
      (len : ℕ)
      → len < 8
      → p.key ≢ top_bits byte p.prefix_length
      → find prefix_key (rank len (top_bits byte len)) (p ∷ ps)
        ≡ find prefix_key (rank len (top_bits byte len)) ps
  skip_one len l ne = find_skip p ps _ (λ e.
      let same : (p.prefix_length ≡ len) × (p.key ≡ top_bits byte len) =
        rank_injective p.prefix_length p.key len (top_bits byte len) h k l (top_bits-lt byte len b)
          e in
      ne (same.1 ∙ ap (top_bits byte) (sym same.0)))

  -- A prefix that the byte does not start with is passed over.
  longest_in_skip :
      (len : ℕ)
      → len < 8
      → p.key ≢ top_bits byte p.prefix_length
      → longest_in (p ∷ ps) byte len ≡ longest_in ps byte len
  unfolding longest_in
  longest_in_skip zero l ne = ap value_of (skip_one 0 l ne)
  longest_in_skip (suc len) l ne =
      ap₂ or_else (ap value_of (skip_one (suc len) l ne)) (longest_in_skip len (omega arith) ne)

  -- A prefix that it starts with is the longest one, if it is the first.
  longest_in_hit :
      (len lo : ℕ)
      → len < 8
      → p.prefix_length ≤ len
      → Ascending prefix_key lo (p ∷ ps)
      → p.key ≡ top_bits byte p.prefix_length
      → longest_in (p ∷ ps) byte len ≡ some p.value
  unfolding longest_in
  longest_in_hit zero lo l le a e =
      let none_left : p.prefix_length ≡ 0 = omega arith in
      ap value_of (find_head p ps _ (ap₂ rank none_left (e ∙ ap (top_bits byte) none_left)))
  longest_in_hit (suc len) lo l le a e = elim (dec_le p.prefix_length len) [
    | yes shorter ↦
        rw
          (find_below prefix_key (rank (suc len) (top_bits byte (suc len))) (prefix_key p) (p ∷ ps)
            (omega arith, a.1) (omega (arith, top_bits-lt byte (suc len) b)))
          (longest_in_hit len lo (omega arith) shorter a e)
    | no longer ↦
        let all : p.prefix_length ≡ suc len = omega arith in
        rw (
          find_head p ps (rank (suc len) (top_bits byte (suc len)))
            (ap₂ rank all (e ∙ ap (top_bits byte) all)))
  ]

-- The first match in a sorted vector is the longest.
pub first_match-longest_in :
    (ps : List Prefix) (byte lo : ℕ)
    → byte < 256
    → Ascending prefix_key lo ps
    → AreShort ps
    → first_match ps byte ≡ longest_in ps byte 7
unfolding first_match
first_match-longest_in [] byte lo b a s = sym (longest_in-nil byte 7)
first_match-longest_in (p ∷ ps) byte lo b a s =
    elim (Bool-cases (p.key == top_bits byte p.prefix_length)) [
      | inl e ↦ rw e (
          sym
            (longest_in_hit p ps byte b s.0 s.1 7 lo (omega arith) (omega arith) a (ground arith)))
      | inr e ↦ rw e (
          first_match-longest_in ps byte (suc (prefix_key p)) b a.1 s.2
          ∙ sym (longest_in_skip p ps byte b s.0 s.1 7 (omega arith) (ground arith)))
    ]

abbrev pub no_bits : Option Prefix → Option Prefix
no_bits o = elim o [ some p ↦ if p.prefix_length == 0 then some p else none | none ↦ none ]

unfoldable pub last_prefix : List Prefix → Option Prefix
last_prefix ps = no_bits (get_elem? ps (length ps - 1))

suc-minus_one : (n : ℕ) → suc n - 1 ≡ n
suc-minus_one n = omega arith

last_prefix-cons :
    (p q : Prefix) (ps : List Prefix) → last_prefix (p ∷ q ∷ ps) ≡ last_prefix (q ∷ ps)
unfolding last_prefix
last_prefix-cons p q ps =
    ap (λ i. no_bits (get_elem? (p ∷ q ∷ ps) i)) (suc-minus_one (suc (length ps)))
    ∙ sym (ap (λ i. no_bits (get_elem? (q ∷ ps) i)) (suc-minus_one (length ps)))

last_prefix-one :
    (p : Prefix) → last_prefix (p ∷ []) ≡ (if p.prefix_length == 0 then some p else none)
unfolding last_prefix
last_prefix-one p = refl

-- The vector has no prefix of no bits other than the empty one.
abbrev pub HasZeroKey : List Prefix → Type 0
HasZeroKey ps = (k : ℕ) → find prefix_key (rank 0 k) ps ≢ none → k ≡ 0

head_zero : (p : Prefix) (ps : List Prefix) → HasZeroKey (p ∷ ps) → p.prefix_length ≡ 0 → p.key ≡ 0
head_zero p ps z e = z p.key (λ f. cc (find_head p ps (rank 0 p.key) (ap (λ l. rank l p.key) e), f))

tail_zero :
    (p : Prefix) (ps : List Prefix) (lo : ℕ)
    → Ascending prefix_key lo (p ∷ ps)
    → HasZeroKey (p ∷ ps)
    → HasZeroKey ps
tail_zero p ps lo a z k e = elim (dec_lt (prefix_key p) (rank 0 k)) [
  | yes below ↦ z k (λ f. e (sym (find_skip p ps (rank 0 k) (omega arith)) ∙ f))
  | no above ↦
      absurd (e (find_below prefix_key (rank 0 k) (suc (prefix_key p)) ps a.1 (omega arith)))
]

-- The empty prefix, if it is there, is the last of the vector.
pub last_prefix-find :
    (lo : ℕ) (ps : List Prefix)
    → Ascending prefix_key lo ps
    → AreShort ps
    → HasZeroKey ps
    → last_prefix ps ≡ find prefix_key (rank 0 0) ps
unfolding last_prefix find
last_prefix-find lo [] a s z = refl
last_prefix-find lo (p ∷ []) a s z = elim (Bool-cases (p.prefix_length == 0)) [
  | inl e ↦
      let none_left : p.prefix_length ≡ 0 = ground arith in
      last_prefix-one p
      ∙ rw e (sym (find_head p [] (rank 0 0) (ap₂ rank none_left (head_zero p [] z none_left))))
  | inr e ↦
      let some_left : p.prefix_length ≢ 0 = ground arith in
      last_prefix-one p ∙ rw e (sym (find_skip p [] (rank 0 0) (omega (arith, s.0, s.1))))
]
last_prefix-find lo (p ∷ q ∷ ps) a s z =
    last_prefix-cons p q ps
    ∙ last_prefix-find (suc (prefix_key p)) (q ∷ ps) a.1 s.2 (tail_zero p (q ∷ ps) lo a z)
    ∙ sym (
        find_skip p (q ∷ ps) (rank 0 0) (λ e.
          let q_zero : q.prefix_length ≡ 0 = omega (arith, a.1.0, s.2.0, s.2.1) in
          let key_zero : q.key ≡ 0 = head_zero q ps (tail_zero p (q ∷ ps) lo a z) q_zero in
          omega (arith, a.1.0, q_zero, key_zero)))
