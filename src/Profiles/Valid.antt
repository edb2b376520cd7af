-- ===== src/Profiles/Valid.antt =====
-- What it means that a profile is valid, and what is live in it.
use prog_tm_bmv.Base.{ℕ, ◌^◌, ◌≤◌, ◌<◌, ◌≡◌, ◌≢◌, arith, ◌==◌, length}
use native.Mathlib.Decide.{dec_lt}
use prog_tm_bmv.Bitset.Access.{bit_at_small}
use prog_tm_bmv.Handles
use prog_tm_bmv.Handles.{HandleMgr, get_handle, release_handle}
use prog_tm_bmv.Handles.Inv.{live, Gives}
use prog_tm_bmv.Handles.Release.{valid_handle_lem}
use prog_tm_bmv.Profiles.Parts.{FlatSet}
use prog_tm_bmv.Profiles.{ActionProfile, is_valid_mbr, is_valid_grp}
use prog_tm_bmv.Profiles.Inv.{IsFlatSet, IsStore, References, Counted}

-- The members and the groups each have their store, and the counts are right.
pub record IsValid (S : FlatSet) (Entry : Type 0) (s : ActionProfile S Entry) (r : References)
    : Type 0 where
  pub members :
      IsStore s.mbr_handles
        (length s.action_entries)
        (length s.index_ref_count.mbr_count)
        s.num_members
  pub groups_ :
      IsStore s.grp_handles (length s.groups) (length s.index_ref_count.grp_count) s.num_groups
  pub counted :
      Counted S s.mbr_handles s.grp_handles s.groups s.index_ref_count.mbr_count
        s.index_ref_count.grp_count r

-- A member or a group has at most 2 ^ 31 match entries, so that no count wraps around.
abbrev pub FewEntries : References → Type 0
FewEntries r = ((m : ℕ) → r.to_members m ≤ 2 ^ 31) × ((g : ℕ) → r.to_groups g ≤ 2 ^ 31)

pub inside_of_live :
    (h : HandleMgr) → Handles.Inv.IsValid h → (m : ℕ) → live h m ≡ 1 → m < h.handles.num_bits
inside_of_live h v m l = elim (dec_lt m h.handles.num_bits) [
  | yes p ↦ p
  | no p ↦ absurd (omega (arith, l, v.bits.clear_above m (omega arith)))
]

pub one_of_bit : (h : HandleMgr) (m : ℕ) → live h m ≢ 0 → live h m ≡ 1
one_of_bit h m n = omega (arith, bit_at_small h.handles.words m, n)

module _ (S : FlatSet) (Entry : Type 0) (laws : IsFlatSet S) (s : ActionProfile S Entry)
    (r : References) (v : IsValid S Entry s r) where
  pub is_valid_mbr_lem : (m : ℕ) → is_valid_mbr S Entry s m ≡ (live s.mbr_handles m == 1)
  unfolding is_valid_mbr
  is_valid_mbr_lem m = valid_handle_lem s.mbr_handles v.members.manager m

  pub is_valid_grp_lem : (g : ℕ) → is_valid_grp S Entry s g ≡ (live s.grp_handles g == 1)
  unfolding is_valid_grp
  is_valid_grp_lem g = valid_handle_lem s.grp_handles v.groups_.manager g

  pub live_inside : (m : ℕ) → live s.mbr_handles m ≡ 1 → m < s.mbr_handles.handles.num_bits
  live_inside = inside_of_live s.mbr_handles v.members.manager

  -- What a match entry refers to is live.
  pub member_live : (m : ℕ) → 0 < r.to_members m → live s.mbr_handles m ≡ 1
  member_live m h = one_of_bit s.mbr_handles m (λ z. omega (arith, v.counted.unused_members m z, h))

  pub group_live : (g : ℕ) → 0 < r.to_groups g → live s.grp_handles g ≡ 1
  group_live g h = one_of_bit s.grp_handles g (λ z. omega (arith, v.counted.unused_groups g z, h))

  pub live_group_inside : (g : ℕ) → live s.grp_handles g ≡ 1 → g < s.grp_handles.handles.num_bits
  live_group_inside = inside_of_live s.grp_handles v.groups_.manager
