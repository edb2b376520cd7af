-- ===== src/Profiles/Groups.antt =====
-- The operations of ActionProfile on groups, in a valid state: what they return, and the states
-- after them.
use prog_tm_bmv.Base.{
  ℕ, ◌+◌, ◌-◌, ◌%◌, ◌^◌, ◌≤◌, ◌<◌, ◌≡◌, arith, lt→ltb, Bool, if◌then◌else◌, Bool-cases, inl, inr,
  List, length, get_or, get_elem?, set, occurrences, get_elem?-eq-get_or, some,
}
use prog_tm_bmv.Handles.{release_handle}
use prog_tm_bmv.Handles.Inv.{live}
use prog_tm_bmv.Handles.Release.{release_handle-Releases}
use prog_tm_bmv.Profiles.Parts
use prog_tm_bmv.Profiles.Parts.{
  FlatSet, success, invalid_grp_handle, grp_still_used, mbr_already_in_grp, mbr_not_in_grp, returns,
  add_at, decrease_each, add_member_to, delete_member_from, insert_group, set_count,
}
use prog_tm_bmv.Profiles.{
  ActionProfile, delete_group, add_member_to_group, remove_member_from_group,
}
use prog_tm_bmv.Profiles.Inv.{IsFlatSet, References, release_handle-IsStore}
use prog_tm_bmv.Profiles.Counts.{get_count-grp, increase-mbr, decrease-mbr, decrease_each_lem}
use prog_tm_bmv.Profiles.Refs.{counted_member, count_bounded}
use prog_tm_bmv.Profiles.Renewed.{drop-Counted}
use prog_tm_bmv.Profiles.Valid.{
  IsValid, FewEntries, is_valid_mbr_lem, is_valid_grp_lem, live_inside, live_group_inside,
}

module _ (S : FlatSet) (Entry : Type 0) (laws : IsFlatSet S) (s : ActionProfile S Entry)
    (r : References) (v : IsValid S Entry s r) where
  module _ (few : FewEntries r) where
    -- No count wraps around.
    pub count_fits : (k : ℕ) → get_or s.index_ref_count.mbr_count k 0 + 1 < 2 ^ 32
    count_fits k = omega (
      arith,
      count_bounded S _ _ _ _ _ r v.counted k,
      few.0 k,
      v.groups_.items_length,
      v.groups_.small,
    )

    module _ (grp : ℕ) (alive : live s.grp_handles grp ≡ 1) where
      abbrev info : S.Carrier
      info = get_or s.groups grp S.empty

      pub inside : grp < length s.groups
      inside = omega (arith, live_group_inside S Entry laws s r v grp alive, v.groups_.items_length)

      small : grp < 2 ^ 24
      small = omega (arith, live_group_inside S Entry laws s r v grp alive, v.groups_.small)

      there : get_elem? s.groups grp ≡ some info
      there = get_elem?-eq-get_or s.groups grp S.empty inside

      abbrev without_group : List ℕ → ActionProfile S Entry
      without_group mbr_count = record s {
        index_ref_count = record s.index_ref_count { mbr_count = mbr_count };
        grp_handles = (release_handle s.grp_handles grp).1;
        num_groups = (s.num_groups + 2 ^ 64 - 1) % 2 ^ 64;
      }

      pub delete_group_done :
          get_or s.index_ref_count.grp_count grp 0 ≡ 0
          → (w : List ℕ) × (delete_group S Entry s grp ≡ (returns success, without_group w))
            × IsValid S Entry (without_group w) r
      unfolding delete_group
      delete_group_done z =
          let (w, e, l, less) =
            decrease_each_lem s.index_ref_count (S.elements info)
              (omega (arith, v.members.counts_length, v.members.small)) counted_all
              (λ k. omega (arith, count_fits k)) in
          (
            w,
            rw (
              is_valid_grp_lem S Entry laws s r v grp,
              alive,
              get_count-grp s.index_ref_count grp small,
              z,
              there,
              e,
            ),
            record {
              members = rw l v.members;
              groups_ = release_handle-IsStore s.grp_handles _ _ _ v.groups_ grp alive;
              counted =
                  drop-Counted S _ _ _ _ _ r v.counted laws _ w grp inside alive z
                    (release_handle-Releases s.grp_handles v.groups_.manager grp).after less;
            },
          )
        where
          counted_all :
              (k : ℕ) → occurrences k (S.elements info) ≤ get_or s.index_ref_count.mbr_count k 0
          counted_all k = omega (
            arith,
            laws.has-elements k info,
            counted_member S _ _ _ _ _ r v.counted grp k inside alive,
          )

      pub delete_group_used :
          0 < get_or s.index_ref_count.grp_count grp 0
          → delete_group S Entry s grp ≡ (returns grp_still_used, s)
      unfolding delete_group
      delete_group_used h = rw (
        is_valid_grp_lem S Entry laws s r v grp,
        alive,
        get_count-grp s.index_ref_count grp small,
        lt→ltb _ _ h,
      )

      module _ (mbr : ℕ) (alive_mbr : live s.mbr_handles mbr ≡ 1) where
        pub inside_mbr : mbr < length s.index_ref_count.mbr_count
        inside_mbr =
            omega (arith, live_inside S Entry laws s r v mbr alive_mbr, v.members.counts_length)

        small_mbr : mbr < 2 ^ 24
        small_mbr = omega (arith, live_inside S Entry laws s r v mbr alive_mbr, v.members.small)

        -- another set for the group, and other counts
        abbrev pub regrouped : S.Carrier → List ℕ → ActionProfile S Entry
        regrouped info' mbr_count = record s {
          groups = set s.groups grp info';
          index_ref_count = record s.index_ref_count { mbr_count = mbr_count };
        }

        abbrev is_in : Bool
        is_in = S.has mbr info

        abbrev pub counts_added : List ℕ
        counts_added =
            if is_in then s.index_ref_count.mbr_count else add_at s.index_ref_count.mbr_count mbr 1

        pub add_member_to_group_done : add_member_to_group S Entry s mbr grp ≡ (
          returns (if is_in then mbr_already_in_grp else success),
          regrouped (S.insert mbr info) counts_added,
        )
        unfolding add_member_to_group add_member_to Parts.add
        add_member_to_group_done = elim (Bool-cases is_in) [
          | inl y ↦ rw (
            is_valid_mbr_lem S Entry laws s r v mbr,
            alive_mbr,
            is_valid_grp_lem S Entry laws s r v grp,
            alive,
            there,
            y,
          )
          | inr y ↦ rw (
            is_valid_mbr_lem S Entry laws s r v mbr,
            alive_mbr,
            is_valid_grp_lem S Entry laws s r v grp,
            alive,
            there,
            y,
            increase-mbr s.index_ref_count mbr small_mbr,
          )
        ]

        abbrev pub counts_removed : List ℕ
        counts_removed =
            if is_in
            then add_at s.index_ref_count.mbr_count mbr (2 ^ 32 - 1)
            else s.index_ref_count.mbr_count

        pub remove_member_from_group_done : remove_member_from_group S Entry s mbr grp ≡ (
          returns (if is_in then success else mbr_not_in_grp),
          regrouped (S.erase mbr info) counts_removed,
        )
        unfolding remove_member_from_group delete_member_from Parts.remove
        remove_member_from_group_done = elim (Bool-cases is_in) [
          | inl y ↦ rw (
            is_valid_mbr_lem S Entry laws s r v mbr,
            alive_mbr,
            is_valid_grp_lem S Entry laws s r v grp,
            alive,
            there,
            y,
            decrease-mbr s.index_ref_count mbr small_mbr,
          )
          | inr y ↦ rw (
            is_valid_mbr_lem S Entry laws s r v mbr,
            alive_mbr,
            is_valid_grp_lem S Entry laws s r v grp,
            alive,
            there,
            y,
          )
        ]
