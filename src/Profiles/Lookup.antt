-- ===== src/Profiles/Lookup.antt =====
-- What packets and clients read in the profiles that calls lead to.
use native.Mathlib.Nat.{mod-lt}
use prog_tm_bmv.Base.{
  ℕ, ◌+◌, ◌/◌, ◌%◌, ◌^◌, ◌<◌, ◌≡◌, ◌≢◌, refl, arith, ◌==◌, Bool, true, false, length, map, get_or,
  get_elem?, get_elem?-eq-get_or, Option, none, some, sum_below-at,
}
use prog_tm_bmv.Handles.Inv.{live}
use prog_tm_bmv.Handles.Walk.{live_list}
use prog_tm_bmv.Profiles.Parts.{FlatSet, make_mbr_index, make_grp_index, get_from_hash}
use prog_tm_bmv.Profiles.{ActionProfile}
use prog_tm_bmv.Profiles.Inv.{IsFlatSet, References, holds, groups_with}
use prog_tm_bmv.Profiles.Valid.{
  IsValid, FewEntries, is_valid_mbr_lem, is_valid_grp_lem, live_inside, live_group_inside,
  member_live, group_live, one_of_bit,
}
use prog_tm_bmv.Profiles.Groups.{inside}
use prog_tm_bmv.Profiles.Reach.{Reached, reached-IsValid}
use prog_tm_bmv.Profiles.Reads.{choose_from_group, lookup, read_at, get_members, get_groups}
use prog_tm_bmv.Profiles.Listed.{length-map, fill-read_at, elem_inside}

module _ (S : FlatSet) (Entry : Type 0) (laws : IsFlatSet S) (s : ActionProfile S Entry)
    (r : References) (h : Reached S Entry s r) where
  abbrev valid : IsValid S Entry s r
  valid = (reached-IsValid S Entry laws s r h).0

  abbrev few : FewEntries r
  few = (reached-IsValid S Entry laws s r h).1

  abbrev pub group : ℕ → S.Carrier
  group grp = get_or s.groups grp S.empty

  -- The entry of a live member is found.
  lookup_live :
      (m : ℕ) → live s.mbr_handles m ≡ 1 → (e : Entry) × (get_elem? s.action_entries m ≡ some e)
  lookup_live m alive =
      elem_inside s.action_entries m
        (omega (arith, live_inside S Entry laws s r valid m alive, valid.members.items_length))

  -- A member of a live group is live.
  member_of_group :
      (grp m : ℕ)
      → live s.grp_handles grp ≡ 1
      → S.has m (group grp) ≡ true
      → live s.mbr_handles m ≡ 1
  unfolding groups_with holds
  member_of_group grp m alive y = one_of_bit s.mbr_handles m (λ z. omega (
    arith,
    valid.counted.unused_members m z,
    sum_below-at (holds S s.grp_handles s.groups m) (length s.groups) grp
        (inside S Entry laws s r valid few grp alive),
    here,
  ))
    where
      here : holds S s.grp_handles s.groups m grp ≡ 1
      here = rw (alive, y)

  lookup_member_done :
      (m : ℕ) (with_selection : Bool) (hash : Option ℕ) (e : Entry)
      → live s.mbr_handles m ≡ 1
      → get_elem? s.action_entries m ≡ some e
      → lookup S Entry s with_selection hash (make_mbr_index m) ≡ some e
  unfolding lookup
  lookup_member_done m with_selection hash e alive there =
      rw (names, at_index, is_valid_mbr_lem S Entry laws s r valid m, alive, there)
    where
      small : m < 2 ^ 24
      small = omega (arith, live_inside S Entry laws s r valid m alive, valid.members.small)

      names : (m / 2 ^ 24 == 0) ≡ true
      names = ground (arith, small)

      at_index : m % 2 ^ 24 ≡ m
      at_index = omega (arith, small)

  -- The member that a packet is sent to, by its hash.
  abbrev hash_of : Option ℕ → ℕ
  hash_of none = 0
  hash_of (some output) = output % 2 ^ 32

  module _ (grp : ℕ) (hash : Option ℕ) (full : S.size (group grp) ≢ 0)
      (alive : live s.grp_handles grp ≡ 1) where
    abbrev chosen : ℕ
    chosen = S.nth (hash_of hash % S.size (group grp)) (group grp)

    from_hash :
        (n : ℕ) → get_from_hash S s.groups grp n ≡ some (S.nth (n % S.size (group grp)) (group grp))
    unfolding get_from_hash
    from_hash n =
        rw
          (
            get_from_hash,
            get_elem?-eq-get_or s.groups grp S.empty (inside S Entry laws s r valid few grp alive),
            not_empty,
          )
          refl
      where
        not_empty : (S.size (group grp) == 0) ≡ false
        not_empty = ground (arith, full)

    choose_done :
        (hash' : Option ℕ)
        → choose_from_group S Entry s grp hash' ≡ get_from_hash S s.groups grp (hash_of hash')
    unfolding choose_from_group
    choose_done none = refl
    choose_done (some output) = refl

    chosen_in : S.has chosen (group grp) ≡ true
    chosen_in = laws.has-nth _ (group grp) (mod-lt _ (omega (arith, full)))

    lookup_group_done :
        (e : Entry)
        → live s.mbr_handles chosen ≡ 1
        → get_elem? s.action_entries chosen ≡ some e
        → (with_selection : Bool) → with_selection ≡ true
        → lookup S Entry s with_selection hash (make_grp_index grp) ≡ some e
    unfolding lookup
    lookup_group_done e alive_mbr there with_selection selects = rw (
      selects,
      names,
      at_index,
      is_valid_grp_lem S Entry laws s r valid grp,
      alive,
      choose_done hash,
      from_hash (hash_of hash),
      is_valid_mbr_lem S Entry laws s r valid chosen,
      alive_mbr,
      there,
    )
      where
        small : grp < 2 ^ 24
        small =
            omega (arith, live_group_inside S Entry laws s r valid grp alive, valid.groups_.small)

        names : ((2 ^ 24 + grp) / 2 ^ 24 == 0) ≡ false
        names = ground (arith, small)

        at_index : (2 ^ 24 + grp) % 2 ^ 24 ≡ grp
        at_index = omega (arith, small)

  -- An index that a match entry has, of a member or, if the profile has selection, of a group that is
  -- not empty.
  pub data IsUsed : Bool → ℕ → Type 0 where
    used_member :
        (with_selection : Bool) (m : ℕ)
        → 0 < r.to_members m
        → IsUsed with_selection (make_mbr_index m)
    used_group :
        (grp : ℕ) → 0 < r.to_groups grp → S.size (group grp) ≢ 0 → IsUsed true (make_grp_index grp)

  -- the members that an index stands for
  pub data StandsFor : ℕ → ℕ → Type 0 where
    itself : (m : ℕ) → StandsFor (make_mbr_index m) m
    one_of : (grp m : ℕ) → S.has m (group grp) ≡ true → StandsFor (make_grp_index grp) m

  -- In a profile that calls lead to, lookup of an index that a match entry has, of a member or, if
  -- the profile is one with selection, of a group that is not empty, passes its assertions and
  -- yields the entry of a live member, the one of the index or one of the group, whatever the hash
  -- is.
  pub lookup_finds :
      (with_selection : Bool) (index : ℕ)
      → IsUsed with_selection index
      → (hash : Option ℕ)
      → (m : ℕ) × StandsFor index m
        × (live s.mbr_handles m ≡ 1)
        × (e : Entry) × (get_elem? s.action_entries m ≡ some e)
        × (lookup S Entry s with_selection hash index ≡ some e)
  lookup_finds _ _ (used_member with_selection m used) hash =
      let alive : live s.mbr_handles m ≡ 1 = member_live S Entry laws s r valid m used in
      let (e, there) = lookup_live m alive in
      (m, itself m, alive, e, there, lookup_member_done m with_selection hash e alive there)
  lookup_finds _ _ (used_group grp used full) hash =
      let alive : live s.grp_handles grp ≡ 1 = group_live S Entry laws s r valid grp used in
      let m = chosen grp hash full alive in
      let inside_group : S.has m (group grp) ≡ true = chosen_in grp hash full alive in
      let alive_mbr : live s.mbr_handles m ≡ 1 = member_of_group grp m alive inside_group in
      let (e, there) = lookup_live m alive_mbr in
      (
        m,
        one_of grp m inside_group,
        alive_mbr,
        e,
        there,
        lookup_group_done grp hash full alive e alive_mbr there true refl,
      )

  -- In a profile that calls lead to, get_members and get_groups write within their vectors, fill
  -- them, and list the live members with their entries and the live groups with their members, in
  -- ascending order of the handles.
  pub get_members-live_list :
      (get_members S Entry s
        ≡ some (
            map
              (read_at s.action_entries)
              (live_list (live s.mbr_handles) 0 s.mbr_handles.handles.num_bits)))
      × (get_groups S Entry s
          ≡ some (
              map
                (read_at (map (λ x. S.elements x) s.groups))
                (live_list (live s.grp_handles) 0 s.grp_handles.handles.num_bits)))
  unfolding get_members get_groups
  get_members-live_list = (
    fill-read_at s.mbr_handles s.action_entries _ _ valid.members,
    fill-read_at s.grp_handles (map (λ x. S.elements x) s.groups)
        (length s.index_ref_count.grp_count) s.num_groups
        (rw (length-map (λ x. S.elements x) s.groups) valid.groups_),
  )
