-- ===== src/Profiles/Entries.antt =====
-- Match entries that refer to a member or to a group, by `ref_count_increase` and `ref_count_decrease`.
use prog_tm_bmv.Base.{
  ℕ, ◌+◌, ◌-◌, ◌%◌, ◌^◌, ◌≤◌, ◌<◌, ◌≡◌, ap, arith, ◌==◌, false, Bool-cases, inl, inr, List, length,
  get_or, length-set, as_bit,
}
use prog_tm_bmv.Handles.Inv.{live}
use prog_tm_bmv.Profiles.Parts.{FlatSet, make_mbr_index, make_grp_index}
use prog_tm_bmv.Profiles.{ActionProfile, ref_count_increase, ref_count_decrease}
use prog_tm_bmv.Profiles.Inv.{IsFlatSet, References, Counted}
use prog_tm_bmv.Profiles.Counts.{
  one_more, one_less, increase-mbr, decrease-mbr, increase-grp, decrease-grp,
}
use prog_tm_bmv.Profiles.Valid.{IsValid, live_inside, live_group_inside}

-- One more entry, or one less, that refers to a member or to a group.
module _ (r : References) (i : ℕ) where
  abbrev pub with_to_member : References
  with_to_member = record r { to_members = λ k. r.to_members k + as_bit (i == k) }

  abbrev pub without_to_member : References
  without_to_member = record r { to_members = λ k. r.to_members k - as_bit (i == k) }

  abbrev pub with_to_group : References
  with_to_group = record r { to_groups = λ k. r.to_groups k + as_bit (i == k) }

  abbrev pub without_to_group : References
  without_to_group = record r { to_groups = λ k. r.to_groups k - as_bit (i == k) }

differ : (f : ℕ → ℕ) (i k : ℕ) → f i ≡ 1 → f k ≡ 0 → (i == k) ≡ false
differ f i k a b = elim (Bool-cases (i == k)) [
  | inl y ↦ let this : i ≡ k = ground arith in absurd (omega (arith, a, b, ap f this))
  | inr y ↦ y
]

module _ (S : FlatSet) (Entry : Type 0) (laws : IsFlatSet S) (s : ActionProfile S Entry)
    (r : References) (v : IsValid S Entry s r) where
  module _ (m : ℕ) (alive : live s.mbr_handles m ≡ 1) where
    inside : m < length s.index_ref_count.mbr_count
    inside = omega (arith, live_inside S Entry laws s r v m alive, v.members.counts_length)

    small : m < 2 ^ 24
    small = omega (arith, live_inside S Entry laws s r v m alive, v.members.small)

    recounted :
        (w : List ℕ) (r' : References)
        → length w ≡ length s.index_ref_count.mbr_count
        → Counted S s.mbr_handles s.grp_handles s.groups w s.index_ref_count.grp_count r'
        → IsValid S Entry
            (record s { index_ref_count = record s.index_ref_count { mbr_count = w } })
            r'
    recounted w r' l c = record { members = rw l v.members; groups_ = v.groups_; counted = c }

    -- a new match entry for a live member
    pub increase_member-IsValid :
        get_or s.index_ref_count.mbr_count m 0 + 1 < 2 ^ 32
        → IsValid S Entry (ref_count_increase S Entry s (make_mbr_index m)) (with_to_member r m)
    unfolding ref_count_increase
    increase_member-IsValid fits = rw (increase-mbr s.index_ref_count m small) (
        recounted _ _ (length-set s.index_ref_count.mbr_count m _) (record {
          member_counts = λ k. omega (
            arith,
            one_more s.index_ref_count.mbr_count m k inside fits,
            v.counted.member_counts k,
          );
          group_counts = v.counted.group_counts;
          unused_members = λ k z. omega (
            arith,
            v.counted.unused_members k z,
            ap as_bit (differ (live s.mbr_handles) m k alive z),
          );
          unused_groups = v.counted.unused_groups;
        }))

    pub decrease_member-IsValid :
        0 < r.to_members m
        → get_or s.index_ref_count.mbr_count m 0 < 2 ^ 32
        → IsValid S Entry (ref_count_decrease S Entry s (make_mbr_index m)) (without_to_member r m)
    unfolding ref_count_decrease
    decrease_member-IsValid used fits = rw (decrease-mbr s.index_ref_count m small) (
        recounted _ _ (length-set s.index_ref_count.mbr_count m _) (record {
          member_counts = λ k. omega (
            arith,
            one_less s.index_ref_count.mbr_count m k inside positive fits,
            v.counted.member_counts k,
            enough k,
          );
          group_counts = v.counted.group_counts;
          unused_members = λ k z. omega (arith, v.counted.unused_members k z);
          unused_groups = v.counted.unused_groups;
        }))
      where
        positive : 0 < get_or s.index_ref_count.mbr_count m 0
        positive = omega (arith, v.counted.member_counts m, used)

        enough : (k : ℕ) → as_bit (m == k) ≤ r.to_members k
        enough k = elim (Bool-cases (m == k)) [
          | inl y ↦
              let this : m ≡ k = ground arith in
              omega (arith, ap as_bit y, ap r.to_members this, used)
          | inr y ↦ omega (arith, ap as_bit y)
        ]

  module _ (g : ℕ) (alive : live s.grp_handles g ≡ 1) where
    inside_groups : g < length s.index_ref_count.grp_count
    inside_groups =
        omega (arith, live_group_inside S Entry laws s r v g alive, v.groups_.counts_length)

    small_group : g < 2 ^ 24
    small_group = omega (arith, live_group_inside S Entry laws s r v g alive, v.groups_.small)

    -- a new match entry for a live group
    pub increase_group-IsValid :
        r.to_groups g + 1 < 2 ^ 32
        → IsValid S Entry (ref_count_increase S Entry s (make_grp_index g)) (with_to_group r g)
    unfolding ref_count_increase
    increase_group-IsValid fits = rw (increase-grp s.index_ref_count g small_group) (record {
      members = v.members;
      groups_ =
          rw
            (length-set s.index_ref_count.grp_count g
              ((get_or s.index_ref_count.grp_count g 0 + 1) % 2 ^ 32))
            v.groups_;
      counted = record {
        member_counts = v.counted.member_counts;
        group_counts = λ k. omega (
          arith,
          one_more s.index_ref_count.grp_count g k inside_groups
              (omega (arith, v.counted.group_counts g, fits)),
          v.counted.group_counts k,
        );
        unused_members = v.counted.unused_members;
        unused_groups = λ k z. omega (
          arith,
          v.counted.unused_groups k z,
          ap as_bit (differ (live s.grp_handles) g k alive z),
        );
      };
    })

    pub decrease_group-IsValid :
        0 < r.to_groups g
        → r.to_groups g < 2 ^ 32
        → IsValid S Entry (ref_count_decrease S Entry s (make_grp_index g)) (without_to_group r g)
    unfolding ref_count_decrease
    decrease_group-IsValid used fits = rw (decrease-grp s.index_ref_count g small_group) (record {
      members = v.members;
      groups_ =
          rw
            (length-set s.index_ref_count.grp_count g
              ((get_or s.index_ref_count.grp_count g 0 + (2 ^ 32 - 1)) % 2 ^ 32))
            v.groups_;
      counted = record {
        member_counts = v.counted.member_counts;
        group_counts = λ k. omega (
          arith,
          one_less s.index_ref_count.grp_count g k inside_groups
              (omega (arith, v.counted.group_counts g, used))
              (omega (arith, v.counted.group_counts g, fits)),
          v.counted.group_counts k,
        );
        unused_members = v.counted.unused_members;
        unused_groups = λ k z. omega (arith, v.counted.unused_groups k z);
      };
    })
