-- ===== src/Profiles/Members.antt =====
-- The operations of ActionProfile on members, in a valid state: what they return, and the states
-- after them.
use prog_tm_bmv.Base.{
  ℕ, ◌+◌, ◌-◌, ◌%◌, ◌^◌, ◌≤◌, ◌<◌, ◌≡◌, refl, ap, sym, ◌∙◌, arith, ◌==◌, true, false, Bool-cases,
  inl, inr, get_or, set, length-set, lt→ltb,
}
use native.Mathlib.Decide.{ℕ_discrete}
use prog_tm_bmv.Handles.{get_handle, release_handle}
use prog_tm_bmv.Handles.Inv.{live, Gives}
use prog_tm_bmv.Handles.Release.{Releases, release_handle-Releases}
use prog_tm_bmv.Profiles.Parts.{FlatSet, success, mbr_still_used, invalid_mbr_handle}
use prog_tm_bmv.Profiles.{
  ActionProfile, is_valid_mbr, entries_insert, add_member, delete_member, modify_member,
}
use prog_tm_bmv.Profiles.Inv.{
  IsFlatSet, References, groups_with, stored, length-stored, get_or-stored, gives, get_inside,
  get_handle-IsStore, release_handle-IsStore,
}
use prog_tm_bmv.Profiles.Counts.{get_count-mbr, set_count-mbr}
use prog_tm_bmv.Profiles.Refs.{rehandle-Counted}
use prog_tm_bmv.Profiles.Valid.{IsValid, is_valid_mbr_lem, live_inside}

module _ (S : FlatSet) (Entry : Type 0) (laws : IsFlatSet S) (s : ActionProfile S Entry)
    (r : References) (v : IsValid S Entry s r) where
  module _ (room : s.mbr_handles.handles.num_bits + 1 ≤ 2 ^ 24) where
    abbrev new : ℕ
    new = (get_handle s.mbr_handles).1

    new_gives : Gives s.mbr_handles (get_handle s.mbr_handles)
    new_gives = gives s.mbr_handles _ _ _ v.members room

    new_small : new < 2 ^ 24
    new_small = omega (arith, get_inside s.mbr_handles _ _ _ v.members room)

    abbrev with_member : Entry → ActionProfile S Entry
    with_member entry = record s {
      action_entries = stored s.action_entries new entry;
      index_ref_count = record s.index_ref_count {
        mbr_count = stored s.index_ref_count.mbr_count new 0;
      };
      mbr_handles = (get_handle s.mbr_handles).2;
      num_members = (s.num_members + 1) % 2 ^ 64;
    }

    add_member_done :
        (size_ params : ℕ) (entry : Entry)
        → (size_ == params) ≡ true
        → add_member S Entry s size_ params entry ≡ (success, new, with_member entry)
    unfolding add_member entries_insert
    add_member_done size_ params entry e =
        rw (e, new_gives.code, fits, set_count-mbr s.index_ref_count new new_small 0)
      where
        fits : new % 2 ^ 32 ≡ new
        fits = omega (arith, new_small)

    fresh_count :
        (m : ℕ)
        → get_or (stored s.index_ref_count.mbr_count new 0) m 0
          ≡ get_or s.index_ref_count.mbr_count m 0
    fresh_count m =
        get_or-stored s.index_ref_count.mbr_count new 0 m 0
          (omega (arith, get_inside s.mbr_handles _ _ _ v.members room, v.members.counts_length))
        ∙ (elim (Bool-cases (m == new)) [
          | inl y ↦
              let this : new ≡ m = ground arith in
              rw y (
                sym (
                  v.counted.member_counts m
                  ∙ v.counted.unused_members m
                      (ap (live s.mbr_handles) (sym this) ∙ new_gives.unused)))
          | inr y ↦ rw y
        ])

    still_unused :
        (m : ℕ)
        → live (get_handle s.mbr_handles).2 m ≡ 0
        → groups_with S s.grp_handles s.groups m + r.to_members m ≡ 0
    still_unused m z = elim (Bool-cases (m == new)) [
      | inl y ↦
          let now : live (get_handle s.mbr_handles).2 m ≡ 1 = new_gives.after m ∙ rw y in
          absurd (omega (arith, z, now))
      | inr y ↦ v.counted.unused_members m (sym (new_gives.after m ∙ rw y) ∙ z)
    ]

    with_member-IsValid : (entry : Entry) → IsValid S Entry (with_member entry) r
    with_member-IsValid entry = record {
      members =
          rw
            (
              length-stored s.action_entries new entry,
              length-stored s.index_ref_count.mbr_count new 0,
            )
            (get_handle-IsStore s.mbr_handles _ _ _ v.members room);
      groups_ = v.groups_;
      counted = rehandle-Counted S _ _ _ _ _ r v.counted _ _ fresh_count still_unused;
    }

  -- Where the handle is live and unused, `delete_member` succeeds.
  module _ (mbr : ℕ) (alive : live s.mbr_handles mbr ≡ 1) where
    abbrev without_member : ActionProfile S Entry
    without_member = record s {
      mbr_handles = (release_handle s.mbr_handles mbr).1;
      num_members = (s.num_members + 2 ^ 64 - 1) % 2 ^ 64;
    }

    pub delete_member_done :
        get_or s.index_ref_count.mbr_count mbr 0 ≡ 0
        → delete_member S Entry s mbr ≡ (success, without_member)
    unfolding delete_member
    delete_member_done z = rw (
      is_valid_mbr_lem S Entry laws s r v mbr,
      alive,
      get_count-mbr s.index_ref_count mbr small_mbr,
      z,
    )
      where
        small_mbr : mbr < 2 ^ 24
        small_mbr = omega (arith, live_inside S Entry laws s r v mbr alive, v.members.small)

    without_member-IsValid :
        get_or s.index_ref_count.mbr_count mbr 0 ≡ 0 → IsValid S Entry without_member r
    without_member-IsValid z = record {
      members = release_handle-IsStore s.mbr_handles _ _ _ v.members mbr alive;
      groups_ = v.groups_;
      counted = rehandle-Counted S _ _ _ _ _ r v.counted _ _ (λ m. refl) unused;
    }
      where
        gone : Releases s.mbr_handles mbr (release_handle s.mbr_handles mbr)
        gone = release_handle-Releases s.mbr_handles v.members.manager mbr

        unused :
            (m : ℕ)
            → live (release_handle s.mbr_handles mbr).1 m ≡ 0
            → groups_with S s.grp_handles s.groups m + r.to_members m ≡ 0
        unused m e = elim (Bool-cases (m == mbr)) [
          | inl y ↦
              let this : m ≡ mbr = ground arith in
              sym (v.counted.member_counts m)
              ∙ ap (λ k. get_or s.index_ref_count.mbr_count k 0) this
              ∙ z
          | inr y ↦ v.counted.unused_members m (sym (gone.after m ∙ rw y) ∙ e)
        ]

    pub delete_member_used :
        0 < get_or s.index_ref_count.mbr_count mbr 0
        → delete_member S Entry s mbr ≡ (mbr_still_used, s)
    unfolding delete_member
    delete_member_used h = rw (
      is_valid_mbr_lem S Entry laws s r v mbr,
      alive,
      get_count-mbr s.index_ref_count mbr small_mbr,
      lt→ltb _ _ h,
    )
      where
        small_mbr : mbr < 2 ^ 24
        small_mbr = omega (arith, live_inside S Entry laws s r v mbr alive, v.members.small)

  pub delete_member_dead :
      (mbr : ℕ)
      → (live s.mbr_handles mbr == 1) ≡ false
      → delete_member S Entry s mbr ≡ (invalid_mbr_handle, s)
  unfolding delete_member
  delete_member_dead mbr e = rw (is_valid_mbr_lem S Entry laws s r v mbr, e)

  -- add_member, delete_member and modify_member keep a valid profile valid.
  pub add_member-IsValid :
      (size_ params : ℕ) (entry : Entry)
      → s.mbr_handles.handles.num_bits + 1 ≤ 2 ^ 24
      → IsValid S Entry (add_member S Entry s size_ params entry).2 r
  unfolding add_member
  add_member-IsValid size_ params entry room = elim (Bool-cases (size_ == params)) [
    | inl y ↦ rw (add_member_done room size_ params entry y) (with_member-IsValid room entry)
    | inr y ↦ rw y v
  ]

  pub delete_member-IsValid : (mbr : ℕ) → IsValid S Entry (delete_member S Entry s mbr).1 r
  delete_member-IsValid mbr = elim (Bool-cases (live s.mbr_handles mbr == 1)) [
    | inl y ↦
        let alive : live s.mbr_handles mbr ≡ 1 = ground arith in
        elim (ℕ_discrete (get_or s.index_ref_count.mbr_count mbr 0) 0) [
          | yes z ↦ rw (delete_member_done mbr alive z) (without_member-IsValid mbr alive z)
          | no z ↦ rw (delete_member_used mbr alive (omega (arith, z))) v
        ]
    | inr y ↦ rw (delete_member_dead mbr y) v
  ]

  pub modify_member-IsValid :
      (mbr size_ params : ℕ) (entry : Entry)
      → IsValid S Entry (modify_member S Entry s mbr size_ params entry).1 r
  unfolding modify_member
  modify_member-IsValid mbr size_ params entry = elim (Bool-cases (size_ == params)) [
    | inr y ↦ rw y v
    | inl y ↦ elim (Bool-cases (is_valid_mbr S Entry s mbr)) [
      | inr z ↦ rw (y, z) v
      | inl z ↦ rw (y, z) changed
    ]
  ]
    where
      changed : IsValid S Entry (record s { action_entries = set s.action_entries mbr entry }) r
      changed = record {
        members = rw (length-set s.action_entries mbr entry) v.members;
        groups_ = v.groups_;
        counted = v.counted;
      }
