-- ===== src/Profiles/Regroup.antt =====
-- `delete_group`, `add_member_to_group` and `remove_member_from_group` of ActionProfile, and the states
-- after them.
use native.Mathlib.Decide.{ℕ_discrete}
use prog_tm_bmv.Base.{
  ℕ, ◌≡◌, refl, ap, subst, sym, arith, ◌==◌, Bool-cases, inl, inr, List, length, get_or, set,
  length-set, as_bit,
}
use prog_tm_bmv.Handles.Inv.{live}
use prog_tm_bmv.Profiles.Parts.{FlatSet}
use prog_tm_bmv.Profiles.{
  ActionProfile, delete_group, add_member_to_group, remove_member_from_group,
}
use prog_tm_bmv.Profiles.Inv.{IsFlatSet, References, Counted}
use prog_tm_bmv.Profiles.Refs.{
  insert-Counted, insert_again-Counted, erase-Counted, erase_again-Counted, counted_member,
}
use prog_tm_bmv.Profiles.Valid.{IsValid, FewEntries, is_valid_mbr_lem, is_valid_grp_lem}
use prog_tm_bmv.Profiles.Groups.{
  count_fits, inside, inside_mbr, regrouped, delete_group_done, delete_group_used,
  add_member_to_group_done, remove_member_from_group_done,
}

module _ (S : FlatSet) (Entry : Type 0) (laws : IsFlatSet S) (s : ActionProfile S Entry)
    (r : References) (v : IsValid S Entry s r) (few : FewEntries r) where
  pub delete_group-IsValid : (grp : ℕ) → IsValid S Entry (delete_group S Entry s grp).1 r
  unfolding delete_group
  delete_group-IsValid grp = elim (Bool-cases (live s.grp_handles grp == 1)) [
    | inl y ↦
        let alive : live s.grp_handles grp ≡ 1 = ground arith in
        elim (ℕ_discrete (get_or s.index_ref_count.grp_count grp 0) 0) [
          | yes z ↦
              let (w, e, valid) = delete_group_done S Entry laws s r v few grp alive z in
              subst (λ o. IsValid S Entry o.1 r) (sym e) valid
          | no z ↦
              subst (λ o. IsValid S Entry o.1 r)
                (sym (delete_group_used S Entry laws s r v few grp alive (omega (arith, z)))) v
        ]
    | inr y ↦ rw (is_valid_grp_lem S Entry laws s r v grp, y) v
  ]

  module _ (grp mbr : ℕ) (alive : live s.grp_handles grp ≡ 1)
      (alive_mbr : live s.mbr_handles mbr ≡ 1) where
    regrouped-IsValid :
        (x : S.Carrier) (w : List ℕ)
        → length w ≡ length s.index_ref_count.mbr_count
        → Counted S s.mbr_handles s.grp_handles (set s.groups grp x) w s.index_ref_count.grp_count r
        → IsValid S Entry (regrouped S Entry laws s r v few grp alive mbr alive_mbr x w) r
    regrouped-IsValid x w l c = record {
      members = rw l v.members;
      groups_ = rw (length-set s.groups grp x) v.groups_;
      counted = c;
    }

    abbrev info : S.Carrier
    info = get_or s.groups grp S.empty

    added-IsValid : IsValid S Entry (add_member_to_group S Entry s mbr grp).1 r
    added-IsValid =
        rw (add_member_to_group_done S Entry laws s r v few grp alive mbr alive_mbr)
          (elim (Bool-cases (S.has mbr info)) [
            | inl y ↦ rw y (
                regrouped-IsValid _ _ refl (
                  insert_again-Counted S _ _ _ _ _ r v.counted laws grp mbr
                    (inside S Entry laws s r v few grp alive) alive alive_mbr y))
            | inr y ↦ rw y (
                regrouped-IsValid _ _ (length-set s.index_ref_count.mbr_count mbr _) (
                  insert-Counted S _ _ _ _ _ r v.counted laws grp mbr
                    (inside S Entry laws s r v few grp alive) alive alive_mbr y
                    (inside_mbr S Entry laws s r v few grp alive mbr alive_mbr)
                    (count_fits S Entry laws s r v few mbr)))
          ])

    removed-IsValid : IsValid S Entry (remove_member_from_group S Entry s mbr grp).1 r
    removed-IsValid =
        rw (remove_member_from_group_done S Entry laws s r v few grp alive mbr alive_mbr)
          (elim (Bool-cases (S.has mbr info)) [
            | inr y ↦ rw y (
                regrouped-IsValid _ _ refl (
                  erase_again-Counted S _ _ _ _ _ r v.counted laws grp mbr
                    (inside S Entry laws s r v few grp alive) alive alive_mbr y))
            | inl y ↦ rw y (
                regrouped-IsValid _ _ (length-set s.index_ref_count.mbr_count mbr _) (
                  erase-Counted S _ _ _ _ _ r v.counted laws grp mbr
                    (inside S Entry laws s r v few grp alive) alive alive_mbr y
                    (inside_mbr S Entry laws s r v few grp alive mbr alive_mbr)
                    (omega (
                      arith,
                      ap as_bit y,
                      counted_member S _ _ _ _ _ r v.counted grp mbr
                          (inside S Entry laws s r v few grp alive) alive,
                    ))
                    (omega (arith, count_fits S Entry laws s r v few mbr))))
          ])

  pub add_member_to_group-IsValid :
      (mbr grp : ℕ) → IsValid S Entry (add_member_to_group S Entry s mbr grp).1 r
  unfolding add_member_to_group
  add_member_to_group-IsValid mbr grp = elim (Bool-cases (live s.mbr_handles mbr == 1)) [
    | inr y ↦ rw (is_valid_mbr_lem S Entry laws s r v mbr, y) v
    | inl y ↦ elim (Bool-cases (live s.grp_handles grp == 1)) [
      | inr z ↦
          rw
            (is_valid_mbr_lem S Entry laws s r v mbr, y, is_valid_grp_lem S Entry laws s r v grp, z)
            v
      | inl z ↦ added-IsValid grp mbr (ground arith) (ground arith)
    ]
  ]

  pub remove_member_from_group-IsValid :
      (mbr grp : ℕ) → IsValid S Entry (remove_member_from_group S Entry s mbr grp).1 r
  unfolding remove_member_from_group
  remove_member_from_group-IsValid mbr grp = elim (Bool-cases (live s.mbr_handles mbr == 1)) [
    | inr y ↦ rw (is_valid_mbr_lem S Entry laws s r v mbr, y) v
    | inl y ↦ elim (Bool-cases (live s.grp_handles grp == 1)) [
      | inr z ↦
          rw
            (is_valid_mbr_lem S Entry laws s r v mbr, y, is_valid_grp_lem S Entry laws s r v grp, z)
            v
      | inl z ↦ removed-IsValid grp mbr (ground arith) (ground arith)
    ]
  ]
