-- ===== src/Lpm/Vector.antt =====
-- The growing arrays of src/bf_lpm_trie/bf_lpm_trie.c, kept ascending by a key without repetition:
-- the insertion and removal that the code does by `memmove`, against a search from the front.
use prog_tm_bmv.Base.{
  ℕ, zero, suc, ◌≤◌, ◌<◌, ◌≡◌, refl, ap, subst, arith, ◌==◌, if◌then◌else◌, List, [], ◌∷◌, length,
  get_or, get_elem?, set, map, Option, none, some,
}
use prog_tm_bmv.Lpm.Bisect.{Rises}

module _ {ℓ} {E : Type ℓ} where
  -- `memmove` one place up from index `a`, and a write there.
  unfoldable pub insert_at : List E → ℕ → E → List E
  insert_at xs zero e = e ∷ xs
  insert_at [] (suc a) e = e ∷ []
  insert_at (x ∷ xs) (suc a) e = x ∷ insert_at xs a e

  -- `memmove` one place down onto index `i`.
  unfoldable pub remove_at : List E → ℕ → List E
  remove_at [] i = []
  remove_at (x ∷ xs) zero = xs
  remove_at (x ∷ xs) (suc i) = x ∷ remove_at xs i

module _ {ℓ} {E : Type ℓ} (key : E → ℕ) where
  abbrev pub keys : List E → List ℕ
  keys = map key

  abbrev pub Ascending : ℕ → List E → Type 0
  Ascending lo [] = Unit {0}
  Ascending lo (x ∷ xs) = (lo ≤ key x) × Ascending (suc (key x)) xs

  -- The element with a key, from the front.
  unfoldable pub find : ℕ → List E → Option E
  find k [] = none
  find k (x ∷ xs) = if key x == k then some x else find k xs

  pub length-keys : (xs : List E) → length (keys xs) ≡ length xs
  length-keys [] = refl
  length-keys (x ∷ xs) = ap suc (length-keys xs)

  pub Ascending-le : (lo lo' : ℕ) (xs : List E) → lo ≤ lo' → Ascending lo' xs → Ascending lo xs
  Ascending-le lo lo' [] h a = tt
  Ascending-le lo lo' (x ∷ xs) h a = (omega arith, a.1)

  above_lo :
      (lo : ℕ) (xs : List E) (i : ℕ)
      → Ascending lo xs
      → i < length (keys xs)
      → lo ≤ get_or (keys xs) i 0
  above_lo lo [] i a h = absurd (omega arith)
  above_lo lo (x ∷ xs) zero a h = a.0
  above_lo lo (x ∷ xs) (suc i) a h = omega (arith, above_lo (suc (key x)) xs i a.1 (omega arith))

  pub Ascending-Rises : (lo : ℕ) (xs : List E) → Ascending lo xs → Rises (keys xs)
  Ascending-Rises lo [] a i j l h = absurd (omega arith)
  Ascending-Rises lo (x ∷ xs) a zero zero l h = absurd (omega arith)
  Ascending-Rises lo (x ∷ xs) a zero (suc j) l h = above_lo (suc (key x)) xs j a.1 (omega arith)
  Ascending-Rises lo (x ∷ xs) a (suc i) zero l h = absurd (omega arith)
  Ascending-Rises lo (x ∷ xs) a (suc i) (suc j) l h =
      Ascending-Rises (suc (key x)) xs a.1 i j (omega arith) (omega arith)

  pub find_below : (k lo : ℕ) (xs : List E) → Ascending lo xs → k < lo → find k xs ≡ none
  unfolding find
  find_below k lo [] a h = refl
  find_below k lo (x ∷ xs) a h = ground (arith, find_below k (suc (key x)) xs a.1)

  -- The element at the place where the key stands.
  pub record At (k : ℕ) (xs : List E) (i : ℕ) : Type ℓ where
    pub element : E
    pub there : get_elem? xs i ≡ some element
    pub its_key : key element ≡ k
    pub first : find k xs ≡ some element

  pub find-here :
      (k lo : ℕ) (xs : List E) (i : ℕ)
      → Ascending lo xs
      → i < length (keys xs)
      → get_or (keys xs) i 0 ≡ k
      → At k xs i
  unfolding find
  find-here k lo [] i a h e = absurd (omega arith)
  find-here k lo (x ∷ xs) zero a h e = record {
    element = x;
    there = refl;
    its_key = e;
    first = ground arith;
  }
  find-here k lo (x ∷ xs) (suc i) a h e =
      let r : At k xs i = find-here k (suc (key x)) xs i a.1 (omega arith) e in
      record {
        element = r.element;
        there = r.there;
        its_key = r.its_key;
        first = ground (arith, above_lo (suc (key x)) xs i a.1, r.first);
      }

  pub find-between :
      (k lo : ℕ) (xs : List E) (a : ℕ)
      → Ascending lo xs
      → ((i : ℕ) → i < a → get_or (keys xs) i 0 < k)
      → ((i : ℕ) → a ≤ i → i < length (keys xs) → k < get_or (keys xs) i 0)
      → find k xs ≡ none
  unfolding find
  find-between k lo [] a s below above = refl
  find-between k lo (x ∷ xs) zero s below above = ground (
    arith,
    above 0,
    find-between k (suc (key x)) xs zero s.1 (λ i l. absurd (omega arith))
        (λ i l h. above (suc i) (omega arith) (omega arith)),
  )
  find-between k lo (x ∷ xs) (suc a) s below above = ground (
    arith,
    below 0,
    find-between k (suc (key x)) xs a s.1 (λ i l. below (suc i) (omega arith))
        (λ i l h. above (suc i) (omega arith) (omega arith)),
  )

  module _ (e : E) where
    pub find-set :
        (lo : ℕ) (xs : List E) (i : ℕ)
        → Ascending lo xs
        → i < length (keys xs)
        → get_or (keys xs) i 0 ≡ key e
        → (y : ℕ) → find y (set xs i e) ≡ (if y == key e then some e else find y xs)
    unfolding find
    find-set lo [] i a h same y = absurd (omega arith)
    find-set lo (x ∷ xs) zero a h same y = ground arith
    find-set lo (x ∷ xs) (suc i) a h same y = ground (
      arith,
      above_lo (suc (key x)) xs i a.1,
      find-set (suc (key x)) xs i a.1 (omega arith) same y,
    )

    pub Ascending-set :
        (lo : ℕ) (xs : List E) (i : ℕ)
        → Ascending lo xs
        → get_or (keys xs) i 0 ≡ key e
        → Ascending lo (set xs i e)
    Ascending-set lo [] i a same = tt
    Ascending-set lo (x ∷ xs) zero a same =
        (omega arith, subst (λ k. Ascending (suc k) xs) same a.1)
    Ascending-set lo (x ∷ xs) (suc i) a same = (a.0, Ascending-set (suc (key x)) xs i a.1 same)

    pub find-insert_at :
        (xs : List E) (a : ℕ)
        → a ≤ length (keys xs)
        → ((i : ℕ) → i < a → get_or (keys xs) i 0 < key e)
        → (y : ℕ) → find y (insert_at xs a e) ≡ (if y == key e then some e else find y xs)
    unfolding find insert_at
    find-insert_at xs zero h below y = ground arith
    find-insert_at [] (suc a) h below y = absurd (omega arith)
    find-insert_at (x ∷ xs) (suc a) h below y =
        ground
          (arith, below 0, find-insert_at xs a (omega arith) (λ i l. below (suc i) (omega arith)) y)

    pub Ascending-insert_at :
        (lo : ℕ) (xs : List E) (a : ℕ)
        → Ascending lo xs
        → lo ≤ key e
        → a ≤ length (keys xs)
        → ((i : ℕ) → i < a → get_or (keys xs) i 0 < key e)
        → ((i : ℕ) → a ≤ i → i < length (keys xs) → key e < get_or (keys xs) i 0)
        → Ascending lo (insert_at xs a e)
    unfolding insert_at
    Ascending-insert_at lo [] zero s le h below above = (le, tt)
    Ascending-insert_at lo (x ∷ xs) zero s le h below above =
        (le, (above 0 (omega arith) (omega arith), s.1))
    Ascending-insert_at lo [] (suc a) s le h below above = absurd (omega arith)
    Ascending-insert_at lo (x ∷ xs) (suc a) s le h below above = (
      s.0,
      Ascending-insert_at (suc (key x)) xs a s.1 (below 0 (omega arith)) (omega arith)
          (λ i l. below (suc i) (omega arith))
          (λ i l l'. above (suc i) (omega arith) (omega arith)),
    )

  pub find-remove_at :
      (k lo : ℕ) (xs : List E) (i : ℕ)
      → Ascending lo xs
      → i < length (keys xs)
      → get_or (keys xs) i 0 ≡ k
      → (y : ℕ) → find y (remove_at xs i) ≡ (if y == k then none else find y xs)
  unfolding find remove_at
  find-remove_at k lo [] i a h same y = absurd (omega arith)
  find-remove_at k lo (x ∷ xs) zero a h same y = ground (arith, find_below k (suc (key x)) xs a.1)
  find-remove_at k lo (x ∷ xs) (suc i) a h same y = ground (
    arith,
    above_lo (suc (key x)) xs i a.1,
    find-remove_at k (suc (key x)) xs i a.1 (omega arith) same y,
  )

  pub Ascending-remove_at :
      (lo : ℕ) (xs : List E) (i : ℕ) → Ascending lo xs → Ascending lo (remove_at xs i)
  unfolding remove_at
  Ascending-remove_at lo [] i a = tt
  Ascending-remove_at lo (x ∷ xs) zero a = Ascending-le lo (suc (key x)) xs (omega arith) a.1
  Ascending-remove_at lo (x ∷ xs) (suc i) a = (a.0, Ascending-remove_at (suc (key x)) xs i a.1)
