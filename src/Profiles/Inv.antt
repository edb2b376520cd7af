-- ===== src/Profiles/Inv.antt =====
-- The invariant of ActionProfile: handles, vectors and counts of references agree.
use prog_tm_bmv.Base.{
  ℕ, zero, suc, ◌+◌, ◌-◌, ◌%◌, ◌^◌, ◌≤◌, ◌<◌, ◌≡◌, refl, sym, ◌∙◌, arith, true, false, ◌==◌, not,
  ◌&&◌, ◌||◌, if◌then◌else◌, Bool-cases, inl, inr, List, [], ◌∷◌, ◌++◌, length, get_or, set,
  length-set, length-append, sum_below, as_bit, occurrences,
}
use native.Mathlib.Decide.{dec_lt}
use prog_tm_bmv.Bitset
use prog_tm_bmv.Bitset.Inv.{count_small}
use prog_tm_bmv.Handles.{HandleMgr, size, get_handle, release_handle}
use prog_tm_bmv.Handles.Inv
use prog_tm_bmv.Handles.Inv.{live, Gives, get_handle-Gives}
use prog_tm_bmv.Handles.Release.{Releases, release_handle-Releases}
use prog_tm_bmv.Profiles.Parts.{FlatSet}

-- What the documentation of `flat_set` says of it.
pub record IsFlatSet (S : FlatSet) : Type 0 where
  pub has-empty : (k : ℕ) → S.has k S.empty ≡ false
  pub has-insert : (m k : ℕ) (s : S.Carrier) → S.has k (S.insert m s) ≡ (k == m || S.has k s)
  pub has-erase : (m k : ℕ) (s : S.Carrier) → S.has k (S.erase m s) ≡ (not (k == m) && S.has k s)
  pub has-elements : (k : ℕ) (s : S.Carrier) → occurrences k (S.elements s) ≡ as_bit (S.has k s)
  pub length-elements : (s : S.Carrier) → length (S.elements s) ≡ S.size s
  pub has-nth : (n : ℕ) (s : S.Carrier) → n < S.size s → S.has (S.nth n s) s ≡ true

-- A manager of handles for a vector of items and one of counts, and the number of its live handles. A
-- handle fits into the 24 bits that an index has for it.
pub record IsStore (m : HandleMgr) (items counts number : ℕ) : Type 0 where
  pub manager : Inv.IsValid m
  pub small : m.handles.num_bits ≤ 2 ^ 24
  pub items_length : items ≡ m.handles.num_bits
  pub counts_length : counts ≡ m.handles.num_bits
  pub numbered : number ≡ size m

-- how often match entries refer to a member or to a group
pub record References : Type 0 where
  pub to_members : ℕ → ℕ
  pub to_groups : ℕ → ℕ

module _ (S : FlatSet) where
  -- 1 if a live group has the member, else 0
  unfoldable pub holds : HandleMgr → List S.Carrier → ℕ → ℕ → ℕ
  holds grp_handles groups mbr grp =
      as_bit ((live grp_handles grp == 1) && S.has mbr (get_or groups grp S.empty))

  -- the live groups that have the member
  unfoldable pub groups_with : HandleMgr → List S.Carrier → ℕ → ℕ
  groups_with grp_handles groups mbr = sum_below (holds grp_handles groups mbr) (length groups)

  -- A count is that of the live groups with the member and of the match entries; a handle that is not live
  -- is not referred to.
  pub record Counted (mbr_handles grp_handles : HandleMgr) (groups : List S.Carrier)
      (mbr_count grp_count : List ℕ) (r : References) : Type 0 where
    pub member_counts :
        (m : ℕ) → get_or mbr_count m 0 ≡ groups_with grp_handles groups m + r.to_members m
    pub group_counts : (g : ℕ) → get_or grp_count g 0 ≡ r.to_groups g
    pub unused_members :
        (m : ℕ) → live mbr_handles m ≡ 0 → groups_with grp_handles groups m + r.to_members m ≡ 0
    pub unused_groups : (g : ℕ) → live grp_handles g ≡ 0 → r.to_groups g ≡ 0

module _ {A : Type 0} where
  get_or-last :
      (xs : List A) (x : A) (j : ℕ) (d : A)
      → get_or (xs ++ x ∷ []) j d ≡ (if j == length xs then x else get_or xs j d)
  get_or-last [] x zero d = refl
  get_or-last [] x (suc j) d = ground arith
  get_or-last (y ∷ xs) x zero d = ground arith
  get_or-last (y ∷ xs) x (suc j) d = get_or-last xs x j d ∙ ground arith

  pub get_or-set :
      (xs : List A) (i : ℕ) (x : A) (j : ℕ) (d : A)
      → i < length xs
      → get_or (set xs i x) j d ≡ (if j == i then x else get_or xs j d)
  get_or-set [] i x j d h = absurd (omega arith)
  get_or-set (y ∷ xs) zero x zero d h = refl
  get_or-set (y ∷ xs) zero x (suc j) d h = ground arith
  get_or-set (y ∷ xs) (suc i) x zero d h = ground arith
  get_or-set (y ∷ xs) (suc i) x (suc j) d h = get_or-set xs i x j d (omega arith) ∙ ground arith

-- What is stored at a handle up to the length of a vector, which may grow by one.
module _ {A : Type 0} (xs : List A) (i : ℕ) (x : A) where
  abbrev pub stored : List A
  stored = if i == length xs then xs ++ x ∷ [] else set xs i x

  pub length-stored : length stored ≡ (if i == length xs then length xs + 1 else length xs)
  length-stored = elim (Bool-cases (i == length xs)) [
    | inl y ↦ rw y (length-append xs (x ∷ []))
    | inr y ↦ rw y (length-set xs i x)
  ]

  pub get_or-stored :
      (j : ℕ) (d : A) → i ≤ length xs → get_or stored j d ≡ (if j == i then x else get_or xs j d)
  get_or-stored j d h = elim (Bool-cases (i == length xs)) [
    | inl y ↦ let this : i ≡ length xs = ground arith in rw (y, this) (get_or-last xs x j d)
    | inr y ↦ rw y (get_or-set xs i x j d (ground arith))
  ]

size_le : (m : HandleMgr) → Inv.IsValid m → size m ≤ m.handles.num_bits
unfolding size Bitset.count
size_le m v = omega (arith, count_small m.handles v.bits, v.bits.counted)

module _ (m : HandleMgr) (items counts number : ℕ) (v : IsStore m items counts number) where
  module _ (room : m.handles.num_bits + 1 ≤ 2 ^ 24) where
    pub gives : Gives m (get_handle m)
    gives = get_handle-Gives m v.manager (omega (arith, room))

    pub get_inside : (get_handle m).1 ≤ m.handles.num_bits
    get_inside = elim (dec_lt m.handles.num_bits (get_handle m).1) [
      | yes h ↦ absurd (
          omega (
            arith,
            gives.least m.handles.num_bits h,
            v.manager.bits.clear_above m.handles.num_bits (omega arith),
          ))
      | no h ↦ omega arith
    ]

    pub get_handle-IsStore :
        IsStore
          (get_handle m).2
          (if (get_handle m).1 == items then items + 1 else items)
          (if (get_handle m).1 == counts then counts + 1 else counts)
          ((number + 1) % 2 ^ 64)
    get_handle-IsStore = record {
      manager = gives.valid;
      small = omega (arith, gives.grows);
      items_length = rw v.items_length (sym gives.sized);
      counts_length = rw v.counts_length (sym gives.sized);
      numbered = omega (arith, gives.counts, v.numbered, size_le m v.manager, v.small);
    }

  pub release_handle-IsStore :
      (pos : ℕ)
      → live m pos ≡ 1
      → IsStore (release_handle m pos).1 items counts ((number + 2 ^ 64 - 1) % 2 ^ 64)
  release_handle-IsStore pos l =
      let r : Releases m pos (release_handle m pos) = release_handle-Releases m v.manager pos in
      record {
        manager = r.valid;
        small = omega (arith, r.keeps, v.small);
        items_length = v.items_length ∙ sym r.keeps;
        counts_length = v.counts_length ∙ sym r.keeps;
        numbered = omega (arith, r.counts, l, v.numbered, size_le m v.manager, v.small);
      }
