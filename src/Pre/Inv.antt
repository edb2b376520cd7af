-- ===== src/Pre/Inv.antt =====
-- The invariant of McSimplePre: handles, nodes and groups agree.
use prog_tm_bmv.Base.{
  as_bit, occurrences, ℕ, ◌≡◌, ◌≢◌, refl, ap, sym, ◌∙◌, arith, Bool, true, false, ◌&&◌, ◌==◌, leb,
  length, if◌then◌else◌, Bool-cases, Option-cases, List, [], ◌∷◌, Option, none, some, inl, inr,
  value_for, has_key, is_some, insert_new, erase, value_for-erase, value_for-insert_new,
  insert_new_kept,
}
use prog_tm_bmv.Handles
use prog_tm_bmv.Handles.{fresh}
use prog_tm_bmv.Handles.Inv.{live, fresh-IsValid}
use prog_tm_bmv.Bitset.Access.{bit_at-nil}
use prog_tm_bmv.Pre.{
  ReturnCode, Outcome, returns, throws, MgidEntry, L1Entry, L2Entry, McSimplePre, initial, without,
  mc_mgrp_create, mc_mgrp_destroy,
}

pub occurrences-without :
    (h x : ℕ) (xs : List ℕ)
    → occurrences h (without x xs) ≡ (if x == h then 0 else occurrences h xs)
unfolding occurrences without
occurrences-without h x [] = ground arith
occurrences-without h x (y ∷ ys) = ground (arith, occurrences-without h x ys)

-- the L1 handles of a group, none where there is no such group
abbrev pub list_of : Option MgidEntry → List ℕ
list_of none = []
list_of (some e) = e.l1_list

abbrev pub is_member : ℕ → Option L1Entry → Bool
is_member g none = false
is_member g (some e) = e.is_associated && e.mgrp_hdl == g

-- the L1 handle that an L2 node names
abbrev pub owner : Option L2Entry → Option ℕ
owner none = none
owner (some e) = some e.l1_hdl

-- A handle is in use exactly if it has a node; the L2 node of an L1 node names it; and a group lists
-- once each L1 node that is associated with it, and no other.
pub record IsValid (s : McSimplePre) : Type 0 where
  pub l1_manager : Handles.Inv.IsValid s.l1_handles
  pub l2_manager : Handles.Inv.IsValid s.l2_handles
  pub l1_used : (h : ℕ) → live s.l1_handles h ≡ as_bit (has_key h s.l1_entries)
  pub l2_used : (k : ℕ) → live s.l2_handles k ≡ as_bit (has_key k s.l2_entries)
  pub owned :
      (h : ℕ) (e : L1Entry)
      → value_for h s.l1_entries ≡ some e
      → owner (value_for e.l2_hdl s.l2_entries) ≡ some h
  pub members :
      (g h : ℕ)
      → occurrences h (list_of (value_for g s.mgid_entries))
        ≡ as_bit (is_member g (value_for h s.l1_entries))

pub initial-IsValid : IsValid initial
unfolding value_for occurrences
initial-IsValid = record {
  l1_manager = fresh-IsValid;
  l2_manager = fresh-IsValid;
  l1_used = bit_at-nil;
  l2_used = bit_at-nil;
  owned = λ h e f. cc f;
  members = λ g h. refl;
}

-- What an operation promises: it does not throw, and leaves the state valid.
pub record Keeps (r : Outcome × McSimplePre) : Type 0 where
  pub code : r.0 ≢ throws
  pub valid : IsValid r.1

abbrev pub is_throw : Outcome → Bool
is_throw throws = true
is_throw (returns c) = false

pub returns-throws : (c : ReturnCode) → returns c ≢ throws
returns-throws c e = absurd (ground (arith, ap is_throw e))

module _ (s : McSimplePre) (v : IsValid s) where
  -- A state with other groups.
  regroup-IsValid :
      (m : List (ℕ × MgidEntry))
      → ((g h : ℕ)
          → occurrences h (list_of (value_for g m))
            ≡ as_bit (is_member g (value_for h s.l1_entries)))
      → IsValid (record s { mgid_entries = m })
  regroup-IsValid m e = record {
    l1_manager = v.l1_manager;
    l2_manager = v.l2_manager;
    l1_used = v.l1_used;
    l2_used = v.l2_used;
    owned = v.owned;
    members = e;
  }

  new_group :
      (mgid : ℕ) (g : ℕ)
      → has_key mgid s.mgid_entries ≡ false
      → list_of
          (value_for g (insert_new mgid (record { mgid = mgid; l1_list = [] }) s.mgid_entries))
        ≡ list_of (value_for g s.mgid_entries)
  new_group mgid g new =
      ap list_of (value_for-insert_new mgid _ g s.mgid_entries new)
      ∙ (elim (Bool-cases (g == mgid)) [
        | inr other ↦ rw other
        | inl same ↦
            let this : g ≡ mgid = ground arith in
            rw (same, this)
              (elim (Option-cases (value_for mgid s.mgid_entries)) [
                | inl e ↦ rw e
                | inr (x, e) ↦ absurd (ground (arith, sym new ∙ ap is_some e))
              ])
      ])

  -- Creating a group, new or not, keeps the state valid.
  pub mc_mgrp_create-IsValid : (mgid : ℕ) → IsValid (mc_mgrp_create s mgid).2
  unfolding mc_mgrp_create
  mc_mgrp_create-IsValid mgid = elim (Bool-cases (leb 4096 (length s.mgid_entries))) [
    | inl full ↦ rw full v
    | inr room ↦ rw room (elim (Bool-cases (has_key mgid s.mgid_entries)) [
      | inl old ↦ rw (insert_new_kept mgid _ s.mgid_entries old) v
      | inr new ↦
          regroup-IsValid _ (λ g h. ap (occurrences h) (new_group mgid g new) ∙ v.members g h)
    ])
  ]

  -- Destroying a group that lists no node keeps the state valid.
  pub mc_mgrp_destroy-IsValid :
      (g : ℕ) → list_of (value_for g s.mgid_entries) ≡ [] → IsValid (mc_mgrp_destroy s g).1
  unfolding mc_mgrp_destroy
  mc_mgrp_destroy-IsValid g none_left =
      regroup-IsValid (erase g s.mgid_entries) (λ i h. ap (occurrences h) (gone i) ∙ v.members i h)
    where
      gone :
          (i : ℕ)
          → list_of (value_for i (erase g s.mgid_entries)) ≡ list_of (value_for i s.mgid_entries)
      gone i = ap list_of (value_for-erase g i s.mgid_entries) ∙ (elim (Bool-cases (i == g)) [
        | inr other ↦ rw other
        | inl same ↦ let this : i ≡ g = ground arith in rw (same, this) (sym none_left)
      ])
