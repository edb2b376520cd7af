-- ===== src/Profiles/Create.antt =====
-- `create_group` of ActionProfile, in a valid state.
use prog_tm_bmv.Base.{ℕ, ◌+◌, ◌%◌, ◌^◌, ◌≤◌, ◌<◌, ◌≡◌, arith}
use prog_tm_bmv.Handles.{get_handle}
use prog_tm_bmv.Handles.Inv.{Gives}
use prog_tm_bmv.Profiles.Parts.{FlatSet, success, insert_group}
use prog_tm_bmv.Profiles.{ActionProfile, create_group}
use prog_tm_bmv.Profiles.Inv.{
  IsFlatSet, References, stored, length-stored, gives, get_inside, get_handle-IsStore,
}
use prog_tm_bmv.Profiles.Counts.{set_count-grp}
use prog_tm_bmv.Profiles.Renewed.{fresh-Counted}
use prog_tm_bmv.Profiles.Valid.{IsValid}

module _ (S : FlatSet) (Entry : Type 0) (laws : IsFlatSet S) (s : ActionProfile S Entry)
    (r : References) (v : IsValid S Entry s r) where
  module _ (room : s.grp_handles.handles.num_bits + 1 ≤ 2 ^ 24) where
    abbrev new : ℕ
    new = (get_handle s.grp_handles).1

    new_gives : Gives s.grp_handles (get_handle s.grp_handles)
    new_gives = gives s.grp_handles _ _ _ v.groups_ room

    new_small : new < 2 ^ 24
    new_small = omega (arith, get_inside s.grp_handles _ _ _ v.groups_ room)

    abbrev with_group : ActionProfile S Entry
    with_group = record s {
      grp_handles = (get_handle s.grp_handles).2;
      groups = stored s.groups new S.empty;
      index_ref_count = record s.index_ref_count {
        grp_count = stored s.index_ref_count.grp_count new 0;
      };
      num_groups = (s.num_groups + 1) % 2 ^ 64;
    }

    create_group_done : create_group S Entry s ≡ (success, new, with_group)
    unfolding create_group insert_group
    create_group_done = rw (new_gives.code, fits, set_count-grp s.index_ref_count new new_small 0)
      where
        fits : new % 2 ^ 32 ≡ new
        fits = omega (arith, new_small)

    -- create_group keeps a valid profile valid.
    pub create_group-IsValid : IsValid S Entry (create_group S Entry s).2 r
    create_group-IsValid = rw create_group_done (record {
      members = v.members;
      groups_ =
          rw (length-stored s.groups new S.empty, length-stored s.index_ref_count.grp_count new 0)
            (get_handle-IsStore s.grp_handles _ _ _ v.groups_ room);
      counted =
          fresh-Counted S _ _ _ _ _ r v.counted laws _ new
            (omega (arith, get_inside s.grp_handles _ _ _ v.groups_ room, v.groups_.items_length))
            (omega (arith, get_inside s.grp_handles _ _ _ v.groups_ room, v.groups_.counts_length))
            new_gives.unused new_gives.after;
    })
