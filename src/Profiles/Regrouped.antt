-- ===== src/Profiles/Regrouped.antt =====
-- What `deserialize` restores of the groups that `serialize` wrote, if no group below a live one was deleted.
use native.Mathlib.Nat.{le_refl}
use prog_tm_bmv.Base.{
  ℕ, zero, suc, ◌+◌, ◌^◌, ◌≤◌, ◌<◌, ◌≡◌, refl, ap, ◌∙◌, arith, ◌==◌, ==_refl, ltb, leb, lt→ltb,
  le→leb, Bool, true, false, ◌&&◌, inl, inr, Bool-cases, if◌then◌else◌, List, [], ◌∷◌, ◌++◌, length,
  length-set, get_or, get_elem?, get_elem?-eq-get_or, set, some,
}
use prog_tm_bmv.Handles.{HandleMgr, set_handle}
use prog_tm_bmv.Handles.Walk.{live_list}
use prog_tm_bmv.Profiles.Parts.{FlatSet, insert_group}
use prog_tm_bmv.Profiles.Inv.{IsFlatSet, stored, length-stored, get_or-stored, get_or-set}
use prog_tm_bmv.Profiles.Save.{save_group, save_groups, read_groups}
use prog_tm_bmv.Profiles.Restored.{
  append_assoc, Restores, restored_one, restored_skip, asserted-set_handle, read_group-save_group,
}
use prog_tm_bmv.Profiles.Reloaded.{IsReady, next-IsReady, set_handle-IsReady, not_here}

module _ (S : FlatSet) (laws : IsFlatSet S) (f : ℕ → ℕ) (bits : (i : ℕ) → f i < 2)
    (dense : (i j : ℕ) → j < i → f i ≡ 1 → f j ≡ 1) where
  abbrev member_of : ℕ → List S.Carrier → ℕ → Bool
  member_of x groups i = S.has x (get_or groups i S.empty)

  pub record RestoresGroups (groups gs : List S.Carrier) (m : HandleMgr) (lo k : ℕ) (m' : HandleMgr)
      (gs' : List S.Carrier) : Type 0 where
    pub handles_ : Restores f lo k m m'
    pub same :
        (x i : ℕ)
        → member_of x gs' i ≡ (
            if f i == 1 && leb lo i && ltb i (lo + k)
            then member_of x groups i
            else member_of x gs i)

  module _ (groups : List S.Carrier) where
    abbrev Reads : ℕ → ℕ → List ℕ → Type 0
    Reads lo k saved =
        (m : HandleMgr)
        → IsReady f m lo
        → (gs : List S.Carrier) → (f lo ≡ 1 → length gs ≡ lo)
        → (rest : List ℕ)
        → (m' : HandleMgr) × (gs' : List S.Carrier) × (read_groups S (length (live_list f lo k)) m
              gs (saved ++ rest)
            ≡ some (m', gs', rest))
          × RestoresGroups groups gs m lo k m' gs'

    one_group :
        (lo k : ℕ) (saved : List ℕ)
        → lo + suc k ≤ length groups
        → length groups ≤ 2 ^ 24
        → f lo ≡ 1
        → Reads (suc lo) k saved
        → (m : HandleMgr) → IsReady f m lo
        → (gs : List S.Carrier) → length gs ≡ lo
        → (rest : List ℕ)
        → (m' : HandleMgr) × (gs' : List S.Carrier) × (read_groups S
              (suc (length (live_list f (suc lo) k)))
              m
              gs
              ((lo ∷ save_group S (get_or groups lo S.empty) ++ saved) ++ rest)
            ≡ some (m', gs', rest))
          × RestoresGroups groups gs m lo (suc k) m' gs'
    unfolding read_groups insert_group
    one_group lo k saved h small one loop m ready gs l rest =
        let (s', e1, has) =
          read_group-save_group S laws (get_or groups lo S.empty) (saved ++ rest) in
        let (m', gs', e, r) =
          loop (set_handle m lo).1 (set_handle-IsReady f m lo k ready (omega (arith, h, small)) one)
            (set (stored gs lo S.empty) lo s') (λ _. long s') rest in
        (
          m',
          gs',
          rw
              (
                asserted-set_handle m ready.bits_valid lo (ready.above lo (le_refl lo))
                    (omega (arith, h, small)),
                append_assoc (save_group S (get_or groups lo S.empty)) saved rest,
                placed,
                e1,
                inside,
              )
              e,
          record {
            handles_ =
                restored_one f lo k m ready.bits_valid ready.above (omega (arith, h, small)) one m'
                  r.handles_;
            same = λ x i. r.same x i ∙ at_place s' has x i;
          },
        )
      where
        length_new : length (stored gs lo S.empty) ≡ lo + 1
        length_new = length-stored gs lo S.empty ∙ rw (l, ==_refl lo)

        placed : leb lo (length gs) ≡ true
        placed = le→leb _ _ (omega (arith, l))

        inside : ltb lo (length (stored gs lo S.empty)) ≡ true
        inside = lt→ltb _ _ (omega (arith, length_new))

        long : (s' : S.Carrier) → length (set (stored gs lo S.empty) lo s') ≡ suc lo
        long s' = omega (arith, length-set (stored gs lo S.empty) lo s', length_new)

        kept :
            (i : ℕ)
            → (i == lo) ≡ false
            → get_or (stored gs lo S.empty) i S.empty ≡ get_or gs i S.empty
        kept i y = get_or-stored gs lo S.empty i S.empty (omega (arith, l)) ∙ rw y

        at_place :
            (s' : S.Carrier)
            → ((x : ℕ) → S.has x s' ≡ S.has x (get_or groups lo S.empty))
            → (x i : ℕ)
            → (if f i == 1 && leb (suc lo) i && ltb i (suc lo + k)
                then member_of x groups i
                else member_of x (set (stored gs lo S.empty) lo s') i)
              ≡ (if f i == 1 && leb lo i && ltb i (lo + suc k)
                  then member_of x groups i
                  else member_of x gs i)
        at_place s' has x i =
            ap
              (λ y.
                if f i == 1 && leb (suc lo) i && ltb i (suc lo + k)
                then member_of x groups i
                else S.has x y)
              (get_or-set (stored gs lo S.empty) lo s' i S.empty (omega (arith, length_new)))
            ∙ (elim (Bool-cases (i == lo)) [
              | inl y ↦ let this : i ≡ lo = ground arith in rw this (ground (arith, one, has x))
              | inr y ↦ rw (y, kept i y) (ground (arith, y))
            ])

    pub groups_loop :
        (lo k : ℕ)
        → lo + k ≤ length groups
        → length groups ≤ 2 ^ 24
        → (saved : List ℕ) × (save_groups S groups (live_list f lo k) ≡ some saved)
          × Reads lo k saved
    unfolding save_groups live_list read_groups
    groups_loop lo zero h small = (
      [],
      refl,
      λ m ready gs l rest. (
        m,
        gs,
        refl,
        record {
          handles_ = record {
            bits = ready.bits_valid;
            lives = λ i. ground arith;
            first = λ l. refl;
            first_again = λ e e' one l. absurd (omega arith);
          };
          same = λ x i. ground arith;
        },
      ),
    )
    groups_loop lo (suc k) h small =
        let (saved, e, loop) = groups_loop (suc lo) k (omega (arith, h)) small in
        let there : get_elem? groups lo ≡ some (get_or groups lo S.empty) =
          get_elem?-eq-get_or groups lo S.empty (omega (arith, h)) in
        elim (Bool-cases (f lo == 1)) [
          | inl y ↦
              let one : f lo ≡ 1 = ground arith in
              rw y (
                lo ∷ save_group S (get_or groups lo S.empty) ++ saved,
                rw (there, e) refl,
                λ m ready gs l rest. one_group lo k saved h small one loop m ready gs (l one) rest,
              )
          | inr y ↦
              let off : f lo ≡ 0 = ground (arith, bits lo) in
              rw y (
                saved,
                e,
                λ m ready gs l rest.
                    let (m', gs', e', r) =
                      loop m (next-IsReady f m lo ready) gs
                        (λ z. absurd (omega (arith, off, dense (suc lo) lo (omega arith) z)))
                        rest in
                    (
                      m',
                      gs',
                      e',
                      record {
                        handles_ =
                            restored_skip f lo k m ready.bits_valid ready.above
                              (omega (arith, h, small)) off m' r.handles_;
                        same = λ x i. r.same x i ∙ not_here f _ _ lo k off i;
                      },
                    ),
              )
        ]
