-- ===== src/Profiles/Reach.antt =====
-- The profiles that calls of ActionProfile lead to, with the match entries that refer to them at each time.
-- A table is taken to refer only to live members and live groups, and to none of them more than 2 ^ 31
-- times. Calls of `reset_state` and `deserialize` are not among the calls.
use prog_tm_bmv.Base.{
  ℕ, ◌+◌, ◌^◌, ◌≤◌, ◌<◌, ◌≡◌, refl, ap, arith, ◌==◌, inl, inr, Bool-cases, as_bit, [], get_or_above,
  sum_below,
}
use prog_tm_bmv.Bitset
use prog_tm_bmv.Handles
use prog_tm_bmv.Handles.{HandleMgr}
use prog_tm_bmv.Handles.Inv.{live, fresh-IsValid}
use prog_tm_bmv.Profiles.Parts.{FlatSet, no_counts, make_mbr_index, make_grp_index}
use prog_tm_bmv.Profiles.{
  ActionProfile, add_member, delete_member, modify_member, create_group, delete_group,
  add_member_to_group, remove_member_from_group, ref_count_increase, ref_count_decrease,
}
use prog_tm_bmv.Profiles.Inv.{IsFlatSet, IsStore, References, groups_with}
use prog_tm_bmv.Profiles.Valid.{IsValid, FewEntries, member_live, group_live}
use prog_tm_bmv.Profiles.Members.{add_member-IsValid, delete_member-IsValid, modify_member-IsValid}
use prog_tm_bmv.Profiles.Groups.{count_fits}
use prog_tm_bmv.Profiles.Create.{create_group-IsValid}
use prog_tm_bmv.Profiles.Regroup.{
  delete_group-IsValid, add_member_to_group-IsValid, remove_member_from_group-IsValid,
}
use prog_tm_bmv.Profiles.Entries.{
  with_to_member, without_to_member, with_to_group, without_to_group, increase_member-IsValid,
  decrease_member-IsValid, increase_group-IsValid, decrease_group-IsValid,
}

-- no match entries
abbrev pub unreferenced : References
unreferenced = record { to_members = λ k. 0; to_groups = λ k. 0 }

module _ (S : FlatSet) (Entry : Type 0) where
  -- the state of a new ActionProfile
  abbrev pub new_profile : ActionProfile S Entry
  new_profile = record {
    action_entries = [];
    index_ref_count = no_counts;
    mbr_handles = Handles.fresh;
    grp_handles = Handles.fresh;
    num_members = 0;
    num_groups = 0;
    groups = [];
  }

  -- One constructor for each call.
  pub data Reached : ActionProfile S Entry → References → Type 0 where
    start : Reached new_profile unreferenced
    adds :
        (s : ActionProfile S Entry) (r : References)
        → Reached s r
        → (size_ params : ℕ) (entry : Entry) → s.mbr_handles.handles.num_bits + 1 ≤ 2 ^ 24
        → Reached (add_member S Entry s size_ params entry).2 r
    deletes :
        (s : ActionProfile S Entry) (r : References)
        → Reached s r
        → (mbr : ℕ) → Reached (delete_member S Entry s mbr).1 r
    modifies :
        (s : ActionProfile S Entry) (r : References)
        → Reached s r
        → (mbr size_ params : ℕ) (entry : Entry)
        → Reached (modify_member S Entry s mbr size_ params entry).1 r
    creates :
        (s : ActionProfile S Entry) (r : References)
        → Reached s r
        → s.grp_handles.handles.num_bits + 1 ≤ 2 ^ 24
        → Reached (create_group S Entry s).2 r
    deletes_group :
        (s : ActionProfile S Entry) (r : References)
        → Reached s r
        → (grp : ℕ) → Reached (delete_group S Entry s grp).1 r
    joins :
        (s : ActionProfile S Entry) (r : References)
        → Reached s r
        → (mbr grp : ℕ) → Reached (add_member_to_group S Entry s mbr grp).1 r
    leaves :
        (s : ActionProfile S Entry) (r : References)
        → Reached s r
        → (mbr grp : ℕ) → Reached (remove_member_from_group S Entry s mbr grp).1 r
    refers :
        (s : ActionProfile S Entry) (r : References)
        → Reached s r
        → (m : ℕ) → live s.mbr_handles m ≡ 1
        → r.to_members m < 2 ^ 31
        → Reached (ref_count_increase S Entry s (make_mbr_index m)) (with_to_member r m)
    forgets :
        (s : ActionProfile S Entry) (r : References)
        → Reached s r
        → (m : ℕ) → 0 < r.to_members m
        → Reached (ref_count_decrease S Entry s (make_mbr_index m)) (without_to_member r m)
    refers_group :
        (s : ActionProfile S Entry) (r : References)
        → Reached s r
        → (g : ℕ) → live s.grp_handles g ≡ 1
        → r.to_groups g < 2 ^ 31
        → Reached (ref_count_increase S Entry s (make_grp_index g)) (with_to_group r g)
    forgets_group :
        (s : ActionProfile S Entry) (r : References)
        → Reached s r
        → (g : ℕ) → 0 < r.to_groups g
        → Reached (ref_count_decrease S Entry s (make_grp_index g)) (without_to_group r g)

  start-IsValid : IsValid S Entry new_profile unreferenced
  unfolding Handles.size Bitset.count groups_with sum_below
  start-IsValid = record {
    members = empty_store;
    groups_ = empty_store;
    counted = record {
      member_counts = λ m. get_or_above [] m 0 (omega arith);
      group_counts = λ g. get_or_above [] g 0 (omega arith);
      unused_members = λ m z. refl;
      unused_groups = λ g z. refl;
    };
  }
    where
      empty_store : IsStore Handles.fresh 0 0 0
      empty_store = record {
        manager = fresh-IsValid;
        small = omega arith;
        items_length = refl;
        counts_length = refl;
        numbered = refl;
      }

  -- one more reference to a place that had few
  still_few :
      (f : ℕ → ℕ) (i : ℕ)
      → ((k : ℕ) → f k ≤ 2 ^ 31)
      → f i < 2 ^ 31
      → (k : ℕ) → f k + as_bit (i == k) ≤ 2 ^ 31
  still_few f i h l k = elim (Bool-cases (i == k)) [
    | inl y ↦ let this : i ≡ k = ground arith in omega (arith, ap as_bit y, ap f this, l)
    | inr y ↦ omega (arith, ap as_bit y, h k)
  ]

  module _ (laws : IsFlatSet S) where
    -- In every profile that calls lead to from a new one, each member's count is the number of
    -- live groups that have it and of match entries that refer to it, each group's count is that
    -- of the match entries that refer to it, handles that are not live are not referred to, and
    -- handles, vectors and numbers agree; if match entries refer only to live members and groups,
    -- to each at most 2 ^ 31 times, and there are fewer than 2 ^ 24 handles. The calls are those
    -- on members and groups and of ref_count_increase and ref_count_decrease.
    pub reached-IsValid :
        (s : ActionProfile S Entry) (r : References)
        → Reached s r
        → IsValid S Entry s r × FewEntries r
    reached-IsValid _ _ start = (start-IsValid, ((λ k. omega arith), (λ k. omega arith)))
    reached-IsValid _ _ (adds s r h size_ params entry room) =
        let (v, few) = reached-IsValid s r h in
        (add_member-IsValid S Entry laws s r v size_ params entry room, few)
    reached-IsValid _ _ (deletes s r h mbr) =
        let (v, few) = reached-IsValid s r h in (delete_member-IsValid S Entry laws s r v mbr, few)
    reached-IsValid _ _ (modifies s r h mbr size_ params entry) =
        let (v, few) = reached-IsValid s r h in
        (modify_member-IsValid S Entry laws s r v mbr size_ params entry, few)
    reached-IsValid _ _ (creates s r h room) =
        let (v, few) = reached-IsValid s r h in (create_group-IsValid S Entry laws s r v room, few)
    reached-IsValid _ _ (deletes_group s r h grp) =
        let (v, few) = reached-IsValid s r h in
        (delete_group-IsValid S Entry laws s r v few grp, few)
    reached-IsValid _ _ (joins s r h mbr grp) =
        let (v, few) = reached-IsValid s r h in
        (add_member_to_group-IsValid S Entry laws s r v few mbr grp, few)
    reached-IsValid _ _ (leaves s r h mbr grp) =
        let (v, few) = reached-IsValid s r h in
        (remove_member_from_group-IsValid S Entry laws s r v few mbr grp, few)
    reached-IsValid _ _ (refers s r h m alive l) =
        let (v, few) = reached-IsValid s r h in
        (
          increase_member-IsValid S Entry laws s r v m alive (count_fits S Entry laws s r v few m),
          (still_few r.to_members m few.0 l, few.1),
        )
    reached-IsValid _ _ (forgets s r h m used) =
        let (v, few) = reached-IsValid s r h in
        (
          decrease_member-IsValid S Entry laws s r v m (member_live S Entry laws s r v m used) used
              (omega (arith, count_fits S Entry laws s r v few m)),
          ((λ k. omega (arith, few.0 k)), few.1),
        )
    reached-IsValid _ _ (refers_group s r h g alive l) =
        let (v, few) = reached-IsValid s r h in
        (
          increase_group-IsValid S Entry laws s r v g alive (omega (arith, l)),
          (few.0, still_few r.to_groups g few.1 l),
        )
    reached-IsValid _ _ (forgets_group s r h g used) =
        let (v, few) = reached-IsValid s r h in
        (
          decrease_group-IsValid S Entry laws s r v g (group_live S Entry laws s r v g used) used
              (omega (arith, few.1 g)),
          (few.0, λ k. omega (arith, few.1 k)),
        )
