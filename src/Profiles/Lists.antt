-- ===== src/Profiles/Lists.antt =====
-- Lists as the sets of members, to which the theorems on ActionProfile apply.
use prog_tm_bmv.Base.{
  ℕ, zero, suc, ◌+◌, ◌<◌, ◌≡◌, refl, ap, ◌∙◌, arith, ◌==◌, Bool, true, false, not, ◌&&◌, ◌||◌,
  if◌then◌else◌, Bool-cases, inl, inr, List, [], ◌∷◌, length, get_or, as_bit, occurrences,
}
use prog_tm_bmv.Profiles.Parts.{FlatSet}
use prog_tm_bmv.Profiles.Inv.{IsFlatSet}

unfoldable pub has_element : ℕ → List ℕ → Bool
has_element k [] = false
has_element k (x ∷ xs) = k == x || has_element k xs

unfoldable pub erase_element : ℕ → List ℕ → List ℕ
erase_element m [] = []
erase_element m (x ∷ xs) = let rest = erase_element m xs in if x == m then rest else x ∷ rest

-- each element once
unfoldable pub distinct : List ℕ → List ℕ
distinct [] = []
distinct (x ∷ xs) = let rest = distinct xs in if has_element x xs then rest else x ∷ rest

abbrev pub lists : FlatSet
lists = record {
  Carrier = List ℕ;
  empty = [];
  insert = λ m s. m ∷ s;
  erase = erase_element;
  has = has_element;
  size = λ s. length (distinct s);
  nth = λ n s. get_or (distinct s) n 0;
  elements = distinct;
}

has_erased :
    (m k : ℕ) (s : List ℕ) → has_element k (erase_element m s) ≡ (not (k == m) && has_element k s)
unfolding has_element erase_element
has_erased m k [] = ground arith
has_erased m k (x ∷ xs) = ground (arith, has_erased m k xs)

occurs_once : (k : ℕ) (s : List ℕ) → occurrences k (distinct s) ≡ as_bit (has_element k s)
unfolding has_element distinct occurrences
occurs_once k [] = refl
occurs_once k (x ∷ xs) = elim (Bool-cases (has_element x xs)) [
  | inl y ↦ rw y (occurs_once k xs ∙ ground (arith, same, y))
  | inr y ↦ rw y (ap (λ n. as_bit (x == k) + n) (occurs_once k xs) ∙ ground (arith, same, y))
]
  where
    same : (k == x) ≡ true → has_element k xs ≡ has_element x xs
    same y = let this : k ≡ x = ground arith in ap (λ j. has_element j xs) this

occurs_at : (xs : List ℕ) (n : ℕ) → n < length xs → 0 < occurrences (get_or xs n 0) xs
unfolding occurrences
occurs_at [] n h = absurd (omega arith)
occurs_at (x ∷ xs) zero h = ground arith
occurs_at (x ∷ xs) (suc n) h = omega (arith, occurs_at xs n (omega arith))

pub lists-IsFlatSet : IsFlatSet lists
unfolding has_element
lists-IsFlatSet = record {
  has-empty = λ k. refl;
  has-insert = λ m k s. refl;
  has-erase = has_erased;
  has-elements = occurs_once;
  length-elements = λ s. refl;
  has-nth =
      λ n s h. ground (arith, occurs_at (distinct s) n h, occurs_once (get_or (distinct s) n 0) s);
}
