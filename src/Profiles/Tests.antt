-- ===== src/Profiles/Tests.antt =====
-- The theorems on ActionProfile, with lists as the sets, at a profile of one member, which is in the one
-- group, and of one match entry, which refers to that group.
use prog_tm_bmv.Base.{
  ◌++◌, ℕ, ◌+◌, ◌<◌, ◌≡◌, refl, arith, ◌==◌, true, if◌then◌else◌, List, [], ◌∷◌, some, map,
  get_elem?,
}
use prog_tm_bmv.Bitset
use prog_tm_bmv.Handles
use prog_tm_bmv.Handles.Inv.{live}
use prog_tm_bmv.Handles.Release.{valid_handle_lem}
use prog_tm_bmv.Profiles.Parts
use prog_tm_bmv.Profiles.Parts.{
  success, mbr_still_used, invalid_mbr_handle, mbr_already_in_grp, mbr_not_in_grp, returns, FlatSet,
  make_grp_index, make_mbr_index,
}
use prog_tm_bmv.Profiles.{
  ActionProfile, delete_member, delete_group, remove_member_from_group, is_valid_mbr, is_valid_grp,
  ref_count_increase, create_group, add_member, add_member_to_group, entries_insert,
}
use prog_tm_bmv.Profiles.Inv.{References, groups_with}
use prog_tm_bmv.Profiles.Valid.{IsValid, FewEntries, inside_of_live}
use prog_tm_bmv.Profiles.Save.{Saving, serialize, deserialize}
use prog_tm_bmv.Profiles.Reload.{IsRestored, deserialize-serialize_profile}
use prog_tm_bmv.Profiles.Reissue.{add_member-reissues}
use prog_tm_bmv.Profiles.Answers.{delete_member_code, group_codes, delete_answer, change_answer}
use prog_tm_bmv.Profiles.Lookup.{IsUsed, used_group, StandsFor, lookup_finds, get_members-live_list}
use prog_tm_bmv.Profiles.Reads.{lookup, get_members, get_groups, read_at}
use prog_tm_bmv.Handles.Walk.{live_list}
use prog_tm_bmv.Profiles.Entries.{with_to_group}
use prog_tm_bmv.Profiles.Reach.{
  Reached, reached-IsValid, unreferenced, start, adds, creates, joins, refers_group, new_profile,
}
use prog_tm_bmv.Profiles.Lists.{lists, lists-IsFlatSet, has_element, distinct}

abbrev with_member : ActionProfile lists ℕ
with_member = (add_member lists ℕ (new_profile lists ℕ) 2 2 40).2

abbrev with_group : ActionProfile lists ℕ
with_group = (create_group lists ℕ with_member).2

abbrev with_both : ActionProfile lists ℕ
with_both = (add_member_to_group lists ℕ with_group 0 0).1

groups_good : Handles.valid_handle with_both.grp_handles 0 ≡ true
unfolding add_member entries_insert create_group add_member_to_group Parts.insert_group
    Handles.get_handle Handles.valid_handle Bitset.push_back Bitset.size Bitset.set_bit Bitset.test
    is_valid_mbr is_valid_grp
groups_good = refl

rooms :
    (with_member.grp_handles.handles.num_bits ≡ 0) × (with_both.mbr_handles.handles.num_bits ≡ 1)
unfolding add_member entries_insert create_group add_member_to_group Parts.insert_group
    Handles.get_handle Handles.valid_handle Bitset.push_back Bitset.size Bitset.set_bit Bitset.test
    is_valid_mbr is_valid_grp
rooms = (refl, refl)

both_reached : Reached lists ℕ with_both unreferenced
both_reached =
    joins _ _ (creates _ _ (adds _ _ start 2 2 40 (omega arith)) (omega (arith, rooms.0))) 0 0

group_is_live : live with_both.grp_handles 0 ≡ 1
group_is_live =
    let (v, _) = reached-IsValid lists ℕ lists-IsFlatSet with_both unreferenced both_reached in
    ground (arith, valid_handle_lem with_both.grp_handles v.groups_.manager 0, groups_good)

abbrev used : ActionProfile lists ℕ
used = ref_count_increase lists ℕ with_both (make_grp_index 0)

abbrev one_entry : References
one_entry = with_to_group unreferenced 0

used_reached : Reached lists ℕ used one_entry
used_reached = refers_group with_both unreferenced both_reached 0 group_is_live (omega arith)

reached-IsValid_example : IsValid lists ℕ used one_entry × FewEntries one_entry
reached-IsValid_example = reached-IsValid lists ℕ lists-IsFlatSet used one_entry used_reached

delete_member_code_example : (delete_member lists ℕ used 0).0 ≡ (
    if live used.mbr_handles 0 == 1
    then (if groups_with lists used.grp_handles used.groups 0 + one_entry.to_members 0 == 0
        then success
        else mbr_still_used)
    else invalid_mbr_handle)
delete_member_code_example =
    delete_member_code lists ℕ lists-IsFlatSet used one_entry used_reached 0

group_codes_example :
    ((delete_group lists ℕ used 0).0
      ≡ returns (delete_answer lists ℕ lists-IsFlatSet used one_entry used_reached 0))
    × ((add_member_to_group lists ℕ used 0 0).0
        ≡ returns (
            change_answer lists ℕ lists-IsFlatSet used one_entry used_reached mbr_already_in_grp
              success 0 0))
    × ((remove_member_from_group lists ℕ used 0 0).0
        ≡ returns (
            change_answer lists ℕ lists-IsFlatSet used one_entry used_reached success mbr_not_in_grp
              0 0))
group_codes_example = group_codes lists ℕ lists-IsFlatSet used one_entry used_reached 0 0

group_used : IsUsed lists ℕ lists-IsFlatSet used one_entry used_reached true (make_grp_index 0)
unfolding distinct has_element ref_count_increase add_member entries_insert create_group
    add_member_to_group Parts.insert_group Parts.increase Handles.get_handle Handles.valid_handle
    Bitset.push_back Bitset.size Bitset.set_bit Bitset.test is_valid_mbr is_valid_grp
    Parts.add_member_to Parts.add
group_used = used_group 0 (omega arith) (omega arith)

lookup_finds_example :
    (m : ℕ) × StandsFor lists ℕ lists-IsFlatSet used one_entry used_reached (make_grp_index 0) m
    × (live used.mbr_handles m ≡ 1)
    × (e : ℕ) × (get_elem? used.action_entries m ≡ some e)
    × (lookup lists ℕ used true (some 5) (make_grp_index 0) ≡ some e)
lookup_finds_example =
    lookup_finds lists ℕ lists-IsFlatSet used one_entry used_reached true (make_grp_index 0)
      group_used (some 5)

get_members-live_list_example :
    (get_members lists ℕ used
      ≡ some (
          map
            (read_at used.action_entries)
            (live_list (live used.mbr_handles) 0 used.mbr_handles.handles.num_bits)))
    × (get_groups lists ℕ used
        ≡ some (
            map
              (read_at (map (λ x. distinct x) used.groups))
              (live_list (live used.grp_handles) 0 used.grp_handles.handles.num_bits)))
get_members-live_list_example =
    get_members-live_list lists ℕ lists-IsFlatSet used one_entry used_reached

-- An entry is written as its number.
read_one : List ℕ → ℕ × List ℕ
read_one [] = (0, [])
read_one (x ∷ xs) = (x, xs)

abbrev numbers : Saving ℕ
numbers = record { put = λ e. e ∷ []; take_one = read_one; made = 0 }

numbers_read : (e : ℕ) (rest : List ℕ) → numbers.take_one (numbers.put e ++ rest) ≡ (e, rest)
unfolding read_one
numbers_read e rest = refl

used_bits : used.grp_handles.handles.num_bits ≡ 1
unfolding ref_count_increase add_member entries_insert create_group add_member_to_group
    Parts.insert_group Handles.get_handle Handles.valid_handle Bitset.push_back Bitset.size
    Bitset.set_bit Bitset.test is_valid_mbr is_valid_grp
used_bits = refl

members_good : Handles.valid_handle used.mbr_handles 0 ≡ true
unfolding ref_count_increase add_member entries_insert create_group add_member_to_group
    Parts.insert_group Handles.get_handle Handles.valid_handle Bitset.push_back Bitset.size
    Bitset.set_bit Bitset.test is_valid_mbr is_valid_grp
members_good = refl

used_valid : IsValid lists ℕ used one_entry
used_valid = (reached-IsValid lists ℕ lists-IsFlatSet used one_entry used_reached).0

used_dense : (i j : ℕ) → j < i → live used.grp_handles i ≡ 1 → live used.grp_handles j ≡ 1
used_dense i j l alive =
    absurd
      (omega (arith, inside_of_live used.grp_handles used_valid.groups_.manager i alive, used_bits))

abbrev saved : List ℕ
saved =
    (deserialize-serialize_profile lists ℕ lists-IsFlatSet numbers numbers_read used one_entry
      used_reached used_dense).0

abbrev restored : ActionProfile lists ℕ
restored =
    (deserialize-serialize_profile lists ℕ lists-IsFlatSet numbers numbers_read used one_entry
      used_reached used_dense).2

deserialize-serialize_profile_example :
    (stream : List ℕ) × (serialize lists ℕ numbers used ≡ some stream)
    × (s' : ActionProfile lists ℕ) × (deserialize lists ℕ numbers (new_profile lists ℕ) stream
        ≡ some (s', []))
    × IsRestored lists ℕ used s'
deserialize-serialize_profile_example =
    deserialize-serialize_profile lists ℕ lists-IsFlatSet numbers numbers_read used one_entry
      used_reached used_dense

member_is_live : live used.mbr_handles 0 ≡ 1
member_is_live =
    ground (arith, valid_handle_lem used.mbr_handles used_valid.members.manager 0, members_good)

add_member-reissues_example :
    (live restored.mbr_handles 0 ≡ 1)
    × ((add_member lists ℕ restored 2 2 50).0 ≡ success)
    × ((add_member lists ℕ restored 2 2 50).1 ≡ 0)
    × (get_elem? (add_member lists ℕ restored 2 2 50).2.action_entries 0 ≡ some 50)
add_member-reissues_example =
    add_member-reissues lists ℕ lists-IsFlatSet numbers numbers_read used one_entry used_reached
      used_dense saved restored [] 2 50 member_is_live
      (deserialize-serialize_profile lists ℕ lists-IsFlatSet numbers numbers_read used one_entry
        used_reached used_dense).1
      (deserialize-serialize_profile lists ℕ lists-IsFlatSet numbers numbers_read used one_entry
        used_reached used_dense).3
