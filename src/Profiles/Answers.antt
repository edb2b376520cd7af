-- ===== src/Profiles/Answers.antt =====
-- What the operations of ActionProfile answer in the profiles that calls lead to.
use native.Mathlib.Decide.{ℕ_discrete}
use prog_tm_bmv.Base.{
  ℕ, ◌+◌, ◌≡◌, ap, ◌∙◌, arith, ◌==◌, false, inl, inr, Bool-cases, if◌then◌else◌, get_or,
}
use prog_tm_bmv.Handles.Inv.{live}
use prog_tm_bmv.Profiles.Parts.{
  FlatSet, MatchErrorCode, success, invalid_mbr_handle, invalid_grp_handle, mbr_still_used,
  grp_still_used, mbr_already_in_grp, mbr_not_in_grp, returns,
}
use prog_tm_bmv.Profiles.{
  ActionProfile, delete_member, delete_group, add_member_to_group, remove_member_from_group,
}
use prog_tm_bmv.Profiles.Inv.{IsFlatSet, References, groups_with}
use prog_tm_bmv.Profiles.Valid.{IsValid, FewEntries, is_valid_mbr_lem, is_valid_grp_lem}
use prog_tm_bmv.Profiles.Members.{delete_member_done, delete_member_used, delete_member_dead}
use prog_tm_bmv.Profiles.Groups.{
  delete_group_done, delete_group_used, add_member_to_group_done, remove_member_from_group_done,
}
use prog_tm_bmv.Profiles.Reach.{Reached, reached-IsValid}

module _ (S : FlatSet) (Entry : Type 0) (laws : IsFlatSet S) (s : ActionProfile S Entry)
    (r : References) (h : Reached S Entry s r) where
  abbrev valid : IsValid S Entry s r
  valid = (reached-IsValid S Entry laws s r h).0

  abbrev few : FewEntries r
  few = (reached-IsValid S Entry laws s r h).1

  -- In a profile that calls lead to, delete_member succeeds exactly on a live member that no live
  -- group has and no match entry refers to, and otherwise returns the code for the reason.
  pub delete_member_code :
      (mbr : ℕ)
      → (delete_member S Entry s mbr).0 ≡ (
          if live s.mbr_handles mbr == 1
          then (if groups_with S s.grp_handles s.groups mbr + r.to_members mbr == 0
              then success
              else mbr_still_used)
          else invalid_mbr_handle)
  delete_member_code mbr = elim (Bool-cases (live s.mbr_handles mbr == 1)) [
    | inr y ↦ rw (delete_member_dead S Entry laws s r valid mbr y, y)
    | inl y ↦
        let alive : live s.mbr_handles mbr ≡ 1 = ground arith in
        rw (y, ← valid.counted.member_counts mbr)
          (elim (ℕ_discrete (get_or s.index_ref_count.mbr_count mbr 0) 0) [
            | yes z ↦ rw (delete_member_done S Entry laws s r valid mbr alive z, z)
            | no z ↦
                let off : (get_or s.index_ref_count.mbr_count mbr 0 == 0) ≡ false =
                  ground (arith, z) in
                rw (delete_member_used S Entry laws s r valid mbr alive (omega (arith, z)), off)
          ])
  ]

  abbrev pub group : ℕ → S.Carrier
  group grp = get_or s.groups grp S.empty

  -- what the operations on groups return
  abbrev pub delete_answer : ℕ → MatchErrorCode
  delete_answer grp =
      if live s.grp_handles grp == 1
      then (if r.to_groups grp == 0 then success else grp_still_used)
      else invalid_grp_handle

  -- with the answers for a member that is in the group and for one that is not
  abbrev pub change_answer : MatchErrorCode → MatchErrorCode → ℕ → ℕ → MatchErrorCode
  change_answer there absent mbr grp =
      if live s.mbr_handles mbr == 1
      then (if live s.grp_handles grp == 1
          then (if S.has mbr (group grp) then there else absent)
          else invalid_grp_handle)
      else invalid_mbr_handle

  delete_group_code : (grp : ℕ) → (delete_group S Entry s grp).0 ≡ returns (delete_answer grp)
  unfolding delete_group
  delete_group_code grp = elim (Bool-cases (live s.grp_handles grp == 1)) [
    | inr y ↦ rw (is_valid_grp_lem S Entry laws s r valid grp, y)
    | inl y ↦
        let alive : live s.grp_handles grp ≡ 1 = ground arith in
        rw (y, ← valid.counted.group_counts grp)
          (elim (ℕ_discrete (get_or s.index_ref_count.grp_count grp 0) 0) [
            | yes z ↦
                let (w, e, _) = delete_group_done S Entry laws s r valid few grp alive z in
                ap (λ o. o.0) e ∙ rw z
            | no z ↦
                let off : (get_or s.index_ref_count.grp_count grp 0 == 0) ≡ false =
                  ground (arith, z) in
                ap (λ o. o.0)
                  (delete_group_used S Entry laws s r valid few grp alive (omega (arith, z)))
                ∙ rw off
          ])
  ]

  add_member_to_group_code :
      (mbr grp : ℕ)
      → (add_member_to_group S Entry s mbr grp).0
        ≡ returns (change_answer mbr_already_in_grp success mbr grp)
  unfolding add_member_to_group
  add_member_to_group_code mbr grp = elim (Bool-cases (live s.mbr_handles mbr == 1)) [
    | inr y ↦ rw (is_valid_mbr_lem S Entry laws s r valid mbr, y)
    | inl y ↦ elim (Bool-cases (live s.grp_handles grp == 1)) [
      | inr z ↦ rw (
        is_valid_mbr_lem S Entry laws s r valid mbr,
        y,
        is_valid_grp_lem S Entry laws s r valid grp,
        z,
      )
      | inl z ↦
          rw (y, z)
            (ap (λ o. o.0)
              (add_member_to_group_done S Entry laws s r valid few grp (ground arith) mbr
                (ground arith)))
    ]
  ]

  remove_member_from_group_code :
      (mbr grp : ℕ)
      → (remove_member_from_group S Entry s mbr grp).0
        ≡ returns (change_answer success mbr_not_in_grp mbr grp)
  unfolding remove_member_from_group
  remove_member_from_group_code mbr grp = elim (Bool-cases (live s.mbr_handles mbr == 1)) [
    | inr y ↦ rw (is_valid_mbr_lem S Entry laws s r valid mbr, y)
    | inl y ↦ elim (Bool-cases (live s.grp_handles grp == 1)) [
      | inr z ↦ rw (
        is_valid_mbr_lem S Entry laws s r valid mbr,
        y,
        is_valid_grp_lem S Entry laws s r valid grp,
        z,
      )
      | inl z ↦
          rw (y, z)
            (ap (λ o. o.0)
              (remove_member_from_group_done S Entry laws s r valid few grp (ground arith) mbr
                (ground arith)))
    ]
  ]

  -- In a profile that calls lead to, deleting a group, adding a member to a group and removing one
  -- from it never throw, and return the code for the reason: delete_group succeeds exactly on a
  -- live group that no match entry refers to, add_member_to_group on a live member that is not in
  -- the live group, and remove_member_from_group on one that is.
  pub group_codes :
      (mbr grp : ℕ)
      → ((delete_group S Entry s grp).0 ≡ returns (delete_answer grp))
        × ((add_member_to_group S Entry s mbr grp).0
            ≡ returns (change_answer mbr_already_in_grp success mbr grp))
        × ((remove_member_from_group S Entry s mbr grp).0
            ≡ returns (change_answer success mbr_not_in_grp mbr grp))
  group_codes mbr grp = (
    delete_group_code grp,
    add_member_to_group_code mbr grp,
    remove_member_from_group_code mbr grp,
  )
