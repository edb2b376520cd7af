-- ===== src/Lpm/Prefixes.antt =====
-- The prefix vector of a node of src/bf_lpm_trie/bf_lpm_trie.c: `prefix_cmp` orders by rank, and
-- insertion, search and removal keep the vector sorted.
use Prim.Native.Nat.{compare}
use prog_tm_bmv.Base.{
  ℕ, zero, suc, ◌<◌, ◌≡◌, ◌≢◌, refl, ap, sym, ◌∙◌, arith, ◌==◌, if◌then◌else◌, List, [], ◌∷◌,
  length, get_or, get_elem?, set, none, some,
}
use prog_tm_bmv.Lpm.Bisect.{Search, found, missing, Located, here, between, search-Located}
use prog_tm_bmv.Lpm.Vector.{
  insert_at, remove_at, keys, Ascending, length-keys, Ascending-Rises, At, find-here, find-between,
  find-set, Ascending-set, find-insert_at, Ascending-insert_at, find-remove_at, Ascending-remove_at,
}
use prog_tm_bmv.Lpm.{
  Prefix, Node, branches, prefixes, with_prefixes, prefix_cmp, find_prefix, insert_prefix,
  get_prefix, delete_prefix,
}
use prog_tm_bmv.Lpm.Sorted.{
  rank, prefix_key, AreShort, entry, branches-with_prefixes, prefixes-with,
}

abbrev IsShort : Prefix → Type 0
IsShort p = (p.prefix_length < 8) × (p.key < 256)

-- `prefix_cmp` is the order of ranks.
prefix_cmp-rank :
    (p q : Prefix) → IsShort p → IsShort q → prefix_cmp p q ≡ compare (prefix_key p) (prefix_key q)
unfolding prefix_cmp
prefix_cmp-rank p q h k = ground arith

-- A rank says the length and the key.
pub rank_injective :
    (l k l' k' : ℕ)
    → l < 8
    → k < 256
    → l' < 8
    → k' < 256
    → rank l k ≡ rank l' k'
    → (l ≡ l') × (k ≡ k')
rank_injective l k l' k' h₁ h₂ h₃ h₄ e = omega arith

get_or-IsShort :
    (ps : List Prefix) (i : ℕ) (p : Prefix) → AreShort ps → IsShort p → IsShort (get_or ps i p)
get_or-IsShort [] i p a h = h
get_or-IsShort (q ∷ ps) zero p a h = (a.0, a.1)
get_or-IsShort (q ∷ ps) (suc i) p a h = get_or-IsShort ps i p a.2 h

key_at :
    (ps : List Prefix) (i : ℕ) (p : Prefix)
    → i < length (keys prefix_key ps)
    → prefix_key (get_or ps i p) ≡ get_or (keys prefix_key ps) i 0
key_at [] i p h = absurd (omega arith)
key_at (q ∷ ps) zero p h = refl
key_at (q ∷ ps) (suc i) p h = key_at ps i p (omega arith)

pub set-AreShort :
    (ps : List Prefix) (i : ℕ) (p : Prefix) → AreShort ps → IsShort p → AreShort (set ps i p)
set-AreShort [] i p a h = tt
set-AreShort (q ∷ ps) zero p a h = (h.0, h.1, a.2)
set-AreShort (q ∷ ps) (suc i) p a h = (a.0, a.1, set-AreShort ps i p a.2 h)

insert_at-AreShort :
    (ps : List Prefix) (i : ℕ) (p : Prefix) → AreShort ps → IsShort p → AreShort (insert_at ps i p)
unfolding insert_at
insert_at-AreShort ps zero p a h = (h.0, h.1, a)
insert_at-AreShort [] (suc i) p a h = (h.0, h.1, tt)
insert_at-AreShort (q ∷ ps) (suc i) p a h = (a.0, a.1, insert_at-AreShort ps i p a.2 h)

remove_at-AreShort : (ps : List Prefix) (i : ℕ) → AreShort ps → AreShort (remove_at ps i)
unfolding remove_at
remove_at-AreShort [] i a = tt
remove_at-AreShort (q ∷ ps) zero a = a.2
remove_at-AreShort (q ∷ ps) (suc i) a = (a.0, a.1, remove_at-AreShort ps i a.2)

-- The prefixes of a node, in order and each shorter than a byte.
pub record AreOrdered (n : Node) : Type 0 where
  pub sorted : Ascending prefix_key 0 (prefixes n)
  pub short : AreShort (prefixes n)

module _ (n : Node) (o : AreOrdered n) (p : Prefix) (h : IsShort p) where
  find_prefix-Located : Located (prefix_key p) (keys prefix_key (prefixes n)) (find_prefix n p)
  find_prefix-Located = rw (← length-keys prefix_key (prefixes n)) (
      search-Located (prefix_key p) (keys prefix_key (prefixes n))
        (λ i. prefix_cmp p (get_or (prefixes n) i p))
        (λ i l.
          prefix_cmp-rank p _ h (get_or-IsShort (prefixes n) i p o.short h)
          ∙ ap (compare (prefix_key p)) (key_at (prefixes n) i p l))
        (Ascending-Rises prefix_key 0 (prefixes n) o.sorted))

module _ (n : Node) (o : AreOrdered n) (len key : ℕ) (h : len < 8) (h' : key < 256) where
  abbrev wanted : Prefix
  wanted = record { prefix_length = len; key = key; value = 0 }

  get_at :
      (s : Search)
      → Located (prefix_key wanted) (keys prefix_key (prefixes n)) s
      → (elim s [ found idx ↦ get_elem? (prefixes n) idx | missing a ↦ none ]) ≡ entry n len key
  get_at (found i) (here _ l e) =
      let r : At prefix_key (rank len key) (prefixes n) i =
        find-here prefix_key (rank len key) 0 (prefixes n) i o.sorted l e in
      rw (r.there, r.first)
  get_at (missing a) (between _ l below above) =
      sym (find-between prefix_key (rank len key) 0 (prefixes n) a o.sorted below above)

  -- The binary search of `get_prefix` finds what is there.
  pub get_prefix-entry : get_prefix n len key ≡ entry n len key
  unfolding get_prefix
  get_prefix-entry = get_at (find_prefix n wanted) (find_prefix-Located n o wanted (h, h'))

-- A node with one prefix set to a value, and else as before.
pub record Holds (n : Node) (p : Prefix) (n' : Node) : Type 0 where
  pub same_branches : branches n' ≡ branches n
  pub ordered : AreOrdered n'
  pub entries :
      (l k : ℕ) → entry n' l k ≡ (if rank l k == prefix_key p then some p else entry n l k)

-- A node with one prefix taken out.
pub record Drops (n : Node) (len key : ℕ) (n' : Node) : Type 0 where
  pub same_branches : branches n' ≡ branches n
  pub ordered : AreOrdered n'
  pub entries : (l k : ℕ) → entry n' l k ≡ (if rank l k == rank len key then none else entry n l k)

module _ (n : Node) (o : AreOrdered n) (p : Prefix) (h : IsShort p) where
  rewritten :
      (i : ℕ)
      → i < length (keys prefix_key (prefixes n))
      → get_or (keys prefix_key (prefixes n)) i 0 ≡ prefix_key p
      → record (get_or (prefixes n) i p) { value = p.value } ≡ p
  rewritten i l e =
      let q : Prefix = get_or (prefixes n) i p in
      let short : IsShort q = get_or-IsShort (prefixes n) i p o.short h in
      let same : (q.prefix_length ≡ p.prefix_length) × (q.key ≡ p.key) =
        rank_injective q.prefix_length q.key p.prefix_length p.key short.0 short.1 h.0 h.1
          (key_at (prefixes n) i p l ∙ e) in
      λ j. record { prefix_length = same.0 j; key = same.1 j; value = p.value }

  insert_prefix_at :
      (s : Search)
      → Located (prefix_key p) (keys prefix_key (prefixes n)) s
      → Holds n p (elim s [
        | found idx ↦
            with_prefixes n
              (set (prefixes n) idx (record (get_or (prefixes n) idx p) { value = p.value }))
        | missing a ↦ with_prefixes n (insert_at (prefixes n) a p)
      ])
  insert_prefix_at (found i) (here _ l e) = rw (rewritten i l e) held
    where
      held : Holds n p (with_prefixes n (set (prefixes n) i p))
      held = record {
        same_branches = branches-with_prefixes n _;
        ordered = record {
          sorted = rw prefixes-with (Ascending-set prefix_key p 0 (prefixes n) i o.sorted e);
          short = rw prefixes-with (set-AreShort (prefixes n) i p o.short h);
        };
        entries = λ l' k.
            rw prefixes-with (find-set prefix_key p 0 (prefixes n) i o.sorted l e (rank l' k));
      }
  insert_prefix_at (missing a) (between _ l below above) = record {
    same_branches = branches-with_prefixes n _;
    ordered = record {
      sorted =
          rw prefixes-with (
            Ascending-insert_at prefix_key p 0 (prefixes n) a o.sorted (omega arith) l below above);
      short = rw prefixes-with (insert_at-AreShort (prefixes n) a p o.short h);
    };
    entries =
        λ l' k. rw prefixes-with (find-insert_at prefix_key p (prefixes n) a l below (rank l' k));
  }

  -- `insert_prefix` sets the prefix, new or not.
  pub insert_prefix-Holds : Holds n p (insert_prefix n p.prefix_length p.key p.value)
  unfolding insert_prefix
  insert_prefix-Holds = insert_prefix_at (find_prefix n p) (find_prefix-Located n o p h)

module _ (n : Node) (o : AreOrdered n) (len key : ℕ) (h : len < 8) (h' : key < 256)
    (present : entry n len key ≢ none) where
  delete_prefix_at :
      (s : Search)
      → Located (rank len key) (keys prefix_key (prefixes n)) s
      → (n' : Node) × ((elim s [
        | found idx ↦ some (with_prefixes n (remove_at (prefixes n) idx))
        | missing a ↦ none
      ])
          ≡ some n')
        × Drops n len key n'
  delete_prefix_at (found i) (here _ l e) = (
    with_prefixes n (remove_at (prefixes n) i),
    refl,
    record {
      same_branches = branches-with_prefixes n _;
      ordered = record {
        sorted = rw prefixes-with (Ascending-remove_at prefix_key 0 (prefixes n) i o.sorted);
        short = rw prefixes-with (remove_at-AreShort (prefixes n) i o.short);
      };
      entries = λ l' k.
          rw prefixes-with
            (find-remove_at prefix_key (rank len key) 0 (prefixes n) i o.sorted l e (rank l' k));
    },
  )
  delete_prefix_at (missing a) (between _ l below above) =
      absurd
        (present (find-between prefix_key (rank len key) 0 (prefixes n) a o.sorted below above))

  -- `delete_prefix` finds a prefix that is there, and takes it out.
  pub delete_prefix-Drops : (n' : Node) × (delete_prefix n len key ≡ some n') × Drops n len key n'
  unfolding delete_prefix
  delete_prefix-Drops =
      delete_prefix_at (find_prefix n (wanted n o len key h h'))
        (find_prefix-Located n o (wanted n o len key h h') (h, h'))
