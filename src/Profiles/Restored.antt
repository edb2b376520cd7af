-- ===== src/Profiles/Restored.antt =====
-- The steps of the loops of `deserialize` on what the loops of `serialize` wrote.
use native.Mathlib.Nat.{le_refl}
use prog_tm_bmv.Base.{
  ℕ, suc, ◌+◌, ◌^◌, ◌≤◌, ◌<◌, ◌≡◌, refl, ap, ◌∙◌, arith, ltb, leb, ◌&&◌, ◌||◌, occurrences,
  if◌then◌else◌, List, [], ◌∷◌, ◌++◌, length, some,
}
use prog_tm_bmv.Bitset
use prog_tm_bmv.Handles.{HandleMgr, Rc, ok, failure, set_handle}
use prog_tm_bmv.Handles.Inv.{live}
use prog_tm_bmv.Handles.Restore.{Sets, set_handle-Sets, set_handle-first, set_handle-stays}
use prog_tm_bmv.Profiles.Parts
use prog_tm_bmv.Profiles.Parts.{FlatSet, add_member_to, insert_group}
use prog_tm_bmv.Profiles.Inv.{IsFlatSet}
use prog_tm_bmv.Profiles.Save.{
  asserted, read_numbers, read_counts, save_counts, read_each, read_group, save_group,
}

pub append_assoc : {A : Type 0} → (xs ys zs : List A) → (xs ++ ys) ++ zs ≡ xs ++ (ys ++ zs)
append_assoc [] ys zs = refl
append_assoc (x ∷ xs) ys zs = ap (◌∷◌ x) (append_assoc xs ys zs)

read_numbers_lem : (cs rest : List ℕ) → read_numbers (length cs) (cs ++ rest) ≡ some (cs, rest)
unfolding read_numbers
read_numbers_lem [] rest = refl
read_numbers_lem (c ∷ cs) rest = rw (read_numbers_lem cs rest) refl

pub read_counts-save_counts :
    (cs rest : List ℕ) → read_counts (save_counts cs ++ rest) ≡ some (cs, rest)
unfolding read_counts save_counts
read_counts-save_counts cs rest = read_numbers_lem cs rest

module _ (S : FlatSet) (laws : IsFlatSet S) where
  -- What is read has the members from before and those in the stream.
  read_each_lem :
      (ms : List ℕ) (s : S.Carrier) (rest : List ℕ)
      → (s' : S.Carrier) × (read_each S (length ms) s (ms ++ rest) ≡ some (s', rest))
        × ((k : ℕ) → S.has k s' ≡ (S.has k s || ltb 0 (occurrences k ms)))
  unfolding read_each add_member_to Parts.add occurrences
  read_each_lem [] s rest = (s, refl, λ k. ground arith)
  read_each_lem (m ∷ ms) s rest =
      let (s', e, has) = read_each_lem ms (S.insert m s) rest in
      (s', e, λ k. has k ∙ ground (arith, laws.has-insert m k s))

  pub read_group-save_group :
      (s : S.Carrier) (rest : List ℕ)
      → (s' : S.Carrier) × (read_group S S.empty (save_group S s ++ rest) ≡ some (s', rest))
        × ((k : ℕ) → S.has k s' ≡ S.has k s)
  unfolding read_group save_group
  read_group-save_group s rest =
      let (s', e, has) = read_each_lem (S.elements s) S.empty rest in
      (
        s',
        rw (← laws.length-elements s) e,
        λ k. has k ∙ ground (arith, laws.has-empty k, laws.has-elements k s),
      )

-- A handle that is not live is restored.
module _ (m : HandleMgr) (v : Bitset.Inv.IsValid m.handles) (h : ℕ) (off : live m h ≡ 0)
    (small : h < 2 ^ 24) where
  sets : Sets m h (set_handle m h)
  sets = set_handle-Sets m v h (omega (arith, small))

  pub asserted-set_handle : asserted (set_handle m h) ≡ some (set_handle m h).1
  asserted-set_handle = go (set_handle m h) (sets.code ∙ rw off)
    where
      go : (r : Rc × HandleMgr) → r.0 ≡ ok → asserted r ≡ some r.1
      go (ok, m') e = refl
      go (failure, m') e = absurd (cc e)

-- Between two managers, the live handles of `f` in [lo, lo + k) are restored.
pub record Restores (f : ℕ → ℕ) (lo k : ℕ) (m m' : HandleMgr) : Type 0 where
  pub bits : Bitset.Inv.IsValid m'.handles
  pub lives : (i : ℕ) → live m' i ≡ (if leb lo i && ltb i (lo + k) then f i else live m i)
  pub first : m.first_unset < lo → m'.first_unset ≡ m.first_unset
  pub first_again :
      m.first_unset ≡ lo → m.handles.num_bits ≡ lo → f lo ≡ 1 → 0 < k → m'.first_unset ≡ lo

module _ (f : ℕ → ℕ) (lo k : ℕ) (m : HandleMgr) (v : Bitset.Inv.IsValid m.handles)
    (above : (i : ℕ) → lo ≤ i → live m i ≡ 0) (small : lo + suc k ≤ 2 ^ 24) where
  -- one handle, and then the others
  pub restored_one :
      f lo ≡ 1
      → (m' : HandleMgr) → Restores f (suc lo) k (set_handle m lo).1 m'
      → Restores f lo (suc k) m m'
  restored_one one m' r = record {
    bits = r.bits;
    lives = λ i.
        r.lives i
        ∙ ground
            (arith, Sets.after (sets m v lo (above lo (le_refl lo)) (omega (arith, small))) i, one);
    first = λ l.
        let kept : (set_handle m lo).1.first_unset ≡ m.first_unset =
          set_handle-first m v lo (omega (arith, small)) (omega (arith, l)) in
        r.first (omega (arith, kept, l)) ∙ kept;
    first_again = λ e e' _ _.
        let kept : (set_handle m lo).1.first_unset ≡ lo =
          set_handle-stays m v lo (omega (arith, small)) e e' in
        r.first (omega (arith, kept)) ∙ kept;
  }

  pub restored_skip :
      f lo ≡ 0 → (m' : HandleMgr) → Restores f (suc lo) k m m' → Restores f lo (suc k) m m'
  restored_skip none_there m' r = record {
    bits = r.bits;
    lives = λ i. r.lives i ∙ ground (arith, above i, none_there);
    first = λ l. r.first (omega (arith, l));
    first_again = λ e e' one _. absurd (omega (arith, one, none_there));
  }

  pub still_above : f lo ≡ 1 → (i : ℕ) → suc lo ≤ i → live (set_handle m lo).1 i ≡ 0
  still_above one i l =
      ground
        (arith, Sets.after (sets m v lo (above lo (le_refl lo)) (omega (arith, small))) i, above i)
