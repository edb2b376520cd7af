-- ===== src/Profiles.antt =====
-- src/bm_sim/action_profile.cpp, include/bm/bm_sim/action_profile.h and include/bm/bm_sim/ras.h: members
-- (action entries) and groups of them, with counts of the references to each. The sets of members are
-- flat_sets of the Boost library, given by what is used of them. The lock makes each operation one step,
-- and the calls to a group selector, which do nothing for the selector of the class, are left out.
pub mod Parts
pub mod Inv
pub mod Counts
pub mod Refs
pub mod Renewed
pub mod Valid
pub mod Members
pub mod Create
pub mod Groups
pub mod Regroup
pub mod Entries
pub mod Reach
pub mod Reads
pub mod Listed
pub mod Answers
pub mod Lookup
pub mod Save
pub mod Restored
pub mod Reloaded
pub mod Regrouped
pub mod Pieces
pub mod Reload
pub mod Reissue
mod Lists
mod Tests
use prog_tm_bmv.Base.{
  ℕ, ◌+◌, ◌-◌, ◌/◌, ◌%◌, ◌^◌, ◌==◌, ltb, Bool, true, false, not, if◌then◌else◌, List, [], ◌∷◌, ◌++◌,
  length, get_or, get_elem?, set, Option, none, some,
}
use prog_tm_bmv.Handles
use prog_tm_bmv.Handles.{HandleMgr, Rc, ok, failure}
use Parts.{
  FlatSet, MatchErrorCode, success, error, bad_action_data, invalid_mbr_handle, invalid_grp_handle,
  mbr_still_used, grp_still_used, mbr_already_in_grp, mbr_not_in_grp, Outcome, returns, throws,
  make_mbr_index, make_grp_index, IndirectIndexRefCount, set_count, get_count, increase, decrease,
  no_counts, is_failure, is_success, decrease_each, add_member_to, delete_member_from,
  get_from_hash, insert_group,
}

module _ (S : FlatSet) (Entry : Type 0) where
  pub record ActionProfile : Type 0 where
    pub action_entries : List Entry
    pub index_ref_count : IndirectIndexRefCount
    pub mbr_handles : HandleMgr
    pub grp_handles : HandleMgr
    pub num_members : ℕ
    pub num_groups : ℕ
    pub groups : List S.Carrier

module _ (S : FlatSet) (Entry : Type 0) where
  abbrev pub Profile : Type 0
  Profile = ActionProfile S Entry

  unfoldable pub is_valid_mbr : Profile → ℕ → Bool
  is_valid_mbr s mbr = Handles.valid_handle s.mbr_handles mbr

  unfoldable pub is_valid_grp : Profile → ℕ → Bool
  is_valid_grp s grp = Handles.valid_handle s.grp_handles grp

  unfoldable pub entries_insert : Profile → ℕ → Entry → Profile
  entries_insert s mbr entry = record s {
    action_entries =
        if mbr == length s.action_entries
        then s.action_entries ++ entry ∷ []
        else set s.action_entries mbr entry;
    index_ref_count = set_count s.index_ref_count (make_mbr_index mbr) 0;
  }

  -- The entry is made of the action and its data, of which there must be one for each parameter.
  unfoldable pub add_member : Profile → ℕ → ℕ → Entry → MatchErrorCode × ℕ × Profile
  add_member s action_data_size num_params entry =
      if not (action_data_size == num_params)
      then (bad_action_data, 0, s)
      else (let (rc, mbr, mbr_handles) = Handles.get_handle s.mbr_handles in
          let inserted =
            entries_insert (record s { mbr_handles = mbr_handles }) (mbr % 2 ^ 32) entry in
          if is_failure rc then (error, 0, s) else (
            success,
            mbr % 2 ^ 32,
            record inserted { num_members = (s.num_members + 1) % 2 ^ 64 },
          ))

  unfoldable pub delete_member : Profile → ℕ → MatchErrorCode × Profile
  delete_member s mbr =
      if not (is_valid_mbr s mbr)
      then (invalid_mbr_handle, s)
      else if ltb 0 (get_count s.index_ref_count (make_mbr_index mbr))
      then (mbr_still_used, s)
      else (
        success,
        record s {
          mbr_handles = (Handles.release_handle s.mbr_handles mbr).1;
          num_members = (s.num_members + 2 ^ 64 - 1) % 2 ^ 64;
        },
      )

  unfoldable pub modify_member : Profile → ℕ → ℕ → ℕ → Entry → MatchErrorCode × Profile
  modify_member s mbr action_data_size num_params entry =
      if not (action_data_size == num_params)
      then (bad_action_data, s)
      else if not (is_valid_mbr s mbr)
      then (invalid_mbr_handle, s)
      else (success, record s { action_entries = set s.action_entries mbr entry })

  unfoldable pub create_group : Profile → MatchErrorCode × ℕ × Profile
  create_group s =
      let (rc, grp, grp_handles) = Handles.get_handle s.grp_handles in
      if is_failure rc then (error, 0, s) else (
        success,
        grp % 2 ^ 32,
        record s {
          grp_handles = grp_handles;
          groups = insert_group S s.groups (grp % 2 ^ 32);
          index_ref_count = set_count s.index_ref_count (make_grp_index (grp % 2 ^ 32)) 0;
          num_groups = (s.num_groups + 1) % 2 ^ 64;
        },
      )

  unfoldable pub delete_group : Profile → ℕ → Outcome × Profile
  delete_group s grp =
      if not (is_valid_grp s grp)
      then (returns invalid_grp_handle, s)
      else if ltb 0 (get_count s.index_ref_count (make_grp_index grp))
      then (returns grp_still_used, s)
      else elim (get_elem? s.groups grp) [
        | none ↦ (throws, s)
        | some group_info ↦ (
          returns success,
          record s {
            index_ref_count = decrease_each s.index_ref_count (S.elements group_info);
            grp_handles = (Handles.release_handle s.grp_handles grp).1;
            num_groups = (s.num_groups + 2 ^ 64 - 1) % 2 ^ 64;
          },
        )
      ]

  unfoldable pub add_member_to_group : Profile → ℕ → ℕ → Outcome × Profile
  add_member_to_group s mbr grp =
      if not (is_valid_mbr s mbr)
      then (returns invalid_mbr_handle, s)
      else if not (is_valid_grp s grp)
      then (returns invalid_grp_handle, s)
      else elim (get_elem? s.groups grp) [
        | none ↦ (throws, s)
        | some group_info ↦
            let (rc, group_info') = add_member_to S group_info mbr in
            (
              returns rc,
              record s {
                groups = set s.groups grp group_info';
                index_ref_count =
                    if is_success rc
                    then increase s.index_ref_count (make_mbr_index mbr)
                    else s.index_ref_count;
              },
            )
      ]

  unfoldable pub remove_member_from_group : Profile → ℕ → ℕ → Outcome × Profile
  remove_member_from_group s mbr grp =
      if not (is_valid_mbr s mbr)
      then (returns invalid_mbr_handle, s)
      else if not (is_valid_grp s grp)
      then (returns invalid_grp_handle, s)
      else elim (get_elem? s.groups grp) [
        | none ↦ (throws, s)
        | some group_info ↦
            let (rc, group_info') = delete_member_from S group_info mbr in
            (
              returns rc,
              record s {
                groups = set s.groups grp group_info';
                index_ref_count =
                    if is_success rc
                    then decrease s.index_ref_count (make_mbr_index mbr)
                    else s.index_ref_count;
              },
            )
      ]

  -- `grp_handles` is not cleared.
  unfoldable pub reset_state : Profile → Profile
  reset_state s = record s {
    index_ref_count = no_counts;
    mbr_handles = Handles.clear s.mbr_handles;
    action_entries = [];
    num_members = 0;
    num_groups = 0;
    groups = [];
  }

  unfoldable pub get_num_members_in_group : Profile → ℕ → Outcome × ℕ
  get_num_members_in_group s grp =
      if not (is_valid_grp s grp)
      then (returns invalid_grp_handle, 0)
      else elim (get_elem? s.groups grp) [
        | none ↦ (throws, 0)
        | some group_info ↦ (returns success, S.size group_info)
      ]

  unfoldable pub ref_count_increase : Profile → ℕ → Profile
  ref_count_increase s index = record s { index_ref_count = increase s.index_ref_count index }

  unfoldable pub ref_count_decrease : Profile → ℕ → Profile
  ref_count_decrease s index = record s { index_ref_count = decrease s.index_ref_count index }

  unfoldable pub get_member : Profile → ℕ → Outcome × Option Entry
  get_member s mbr =
      if not (is_valid_mbr s mbr)
      then (returns invalid_mbr_handle, none)
      else elim (get_elem? s.action_entries mbr) [
        | none ↦ (throws, none)
        | some entry ↦ (returns success, some entry)
      ]

  -- the member handles of a group
  unfoldable pub get_group : Profile → ℕ → Outcome × List ℕ
  get_group s grp =
      if not (is_valid_grp s grp)
      then (returns invalid_grp_handle, [])
      else elim (get_elem? s.groups grp) [
        | none ↦ (throws, [])
        | some group_info ↦ (returns success, S.elements group_info)
      ]

  unfoldable pub get_num_members : Profile → ℕ
  get_num_members s = s.num_members

  unfoldable pub get_num_groups : Profile → ℕ
  get_num_groups s = s.num_groups

  -- Nothing where `at` throws.
  unfoldable pub group_is_empty : Profile → ℕ → Option Bool
  group_is_empty s grp = elim (get_elem? s.groups grp) [
    | none ↦ none
    | some group_info ↦ some (S.size group_info == 0)
  ]
