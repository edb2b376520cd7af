-- ===== src/Pre/Nodes.antt =====
-- The node operations of McSimplePre that join and leave groups.
use prog_tm_bmv.Base.{
  as_bit, occurrences, occurrences-append, ℕ, ◌+◌, ◌≡◌, refl, ap, sym, ◌∙◌, arith, true, false, not,
  ◌||◌, ◌==◌, if◌then◌else◌, Bool-cases, Option-cases, [], ◌∷◌, ◌++◌, none, some, inl, inr,
  value_for, assign,
}
use prog_tm_bmv.Handles
use prog_tm_bmv.Pre.{
  ReturnCode, returns, success, error, invalid_l1_handle, invalid_mgrp_handle, MgidEntry, L1Entry,
  McSimplePre, without, node_dissociate, mc_node_associate, mc_node_dissociate,
}
use prog_tm_bmv.Pre.Inv.{occurrences-without, list_of, is_member, IsValid, Keeps, returns-throws}
use prog_tm_bmv.Pre.Change.{valid_handle-node, changed-IsValid}

module _ (s : McSimplePre) (g h : ℕ) where
  module _ (ok : Handles.valid_handle s.l1_handles h ≡ false) where
    associate_invalid : mc_node_associate s g h ≡ (returns invalid_l1_handle, s)
    unfolding mc_node_associate
    associate_invalid = rw ok

    dissociate_invalid : mc_node_dissociate s g h ≡ (returns invalid_l1_handle, s)
    unfolding mc_node_dissociate
    dissociate_invalid = rw ok

  module _ (ok : Handles.valid_handle s.l1_handles h ≡ true) where
    associate_no_group :
        value_for g s.mgid_entries ≡ none
        → mc_node_associate s g h ≡ (returns invalid_mgrp_handle, s)
    unfolding mc_node_associate
    associate_no_group f = rw (ok, f)

    dissociate_no_group :
        value_for g s.mgid_entries ≡ none
        → mc_node_dissociate s g h ≡ (returns invalid_mgrp_handle, s)
    unfolding mc_node_dissociate
    dissociate_no_group f = rw (ok, f)

    module _ (me : MgidEntry) (e : L1Entry) (found : value_for g s.mgid_entries ≡ some me)
        (node : value_for h s.l1_entries ≡ some e) where
      associate_error : e.is_associated ≡ true → mc_node_associate s g h ≡ (returns error, s)
      unfolding mc_node_associate
      associate_error a = rw (ok, found, node, a)

      associate_done :
          e.is_associated ≡ false
          → mc_node_associate s g h ≡ (
            returns success,
            record s {
              mgid_entries = assign g (record me { l1_list = me.l1_list ++ h ∷ [] }) s.mgid_entries;
              l1_entries = assign h (record e { mgrp_hdl = g; is_associated = true }) s.l1_entries;
            },
          )
      unfolding mc_node_associate
      associate_done a = rw (ok, found, node, a, mc_node_associate)

      dissociate_error :
          (not e.is_associated || not (e.mgrp_hdl == g)) ≡ true
          → mc_node_dissociate s g h ≡ (returns error, s)
      unfolding mc_node_dissociate
      dissociate_error a = rw (ok, found, node, a, mc_node_dissociate)

      dissociate_done :
          (not e.is_associated || not (e.mgrp_hdl == g)) ≡ false
          → mc_node_dissociate s g h ≡ (
            returns success,
            record s {
              mgid_entries = assign g (record me { l1_list = without h me.l1_list }) s.mgid_entries;
              l1_entries = assign h (record e { is_associated = false }) s.l1_entries;
            },
          )
      unfolding mc_node_dissociate node_dissociate
      dissociate_done a = rw (ok, found, node, a, mc_node_dissociate)

pub unchanged : (s : McSimplePre) (c : ReturnCode) → IsValid s → Keeps (returns c, s)
unchanged s c v = record { code = returns-throws c; valid = v }

module _ (s : McSimplePre) (v : IsValid s) (g h : ℕ) where
  listed_before :
      (me : MgidEntry) (e : L1Entry)
      → value_for g s.mgid_entries ≡ some me
      → value_for h s.l1_entries ≡ some e
      → occurrences h me.l1_list ≡ as_bit (is_member g (some e))
  listed_before me e found node =
      ap (λ o. occurrences h (list_of o)) (sym found)
      ∙ v.members g h
      ∙ ap (λ o. as_bit (is_member g o)) node

  -- A node that is in no group is listed once by the group that it joins.
  once :
      (me : MgidEntry) (e : L1Entry) (i : ℕ)
      → occurrences h me.l1_list ≡ as_bit (is_member g (some e))
      → e.is_associated ≡ false
      → occurrences i me.l1_list + as_bit (h == i)
        ≡ (if i == h then as_bit (g == g) else occurrences i me.l1_list)
  once me e i before a = elim (Bool-cases (i == h)) [
    | inl y ↦ let this : i ≡ h = ground arith in rw this (ground (arith, before))
    | inr y ↦ ground arith
  ]

  -- In a valid state, associating a node with a group never throws and keeps the state valid.
  pub mc_node_associate-Keeps : Keeps (mc_node_associate s g h)
  mc_node_associate-Keeps = elim (Bool-cases (Handles.valid_handle s.l1_handles h)) [
    | inr bad ↦ rw (associate_invalid s g h bad) (unchanged s _ v)
    | inl ok ↦ elim (Option-cases (value_for g s.mgid_entries)) [
      | inl f ↦ rw (associate_no_group s g h ok f) (unchanged s _ v)
      | inr (me, found) ↦ elim (Option-cases (value_for h s.l1_entries)) [
        | inl f ↦ absurd (valid_handle-node s h v ok f)
        | inr (e, node) ↦ elim (Bool-cases e.is_associated) [
          | inl a ↦ rw (associate_error s g h ok me e found node a) (unchanged s _ v)
          | inr a ↦ rw (associate_done s g h ok me e found node a) (record {
            code = returns-throws success;
            valid =
                changed-IsValid s v g h me e (record e { mgrp_hdl = g; is_associated = true }) found
                  node refl (me.l1_list ++ h ∷ [])
                  (λ i.
                    occurrences-append i h me.l1_list
                    ∙ once me e i (listed_before me e found node) a)
                  (λ g' y. ground arith);
          })
        ]
      ]
    ]
  ]

  -- In a valid state, taking a node out of a group never throws and keeps the state valid.
  pub mc_node_dissociate-Keeps : Keeps (mc_node_dissociate s g h)
  mc_node_dissociate-Keeps = elim (Bool-cases (Handles.valid_handle s.l1_handles h)) [
    | inr bad ↦ rw (dissociate_invalid s g h bad) (unchanged s _ v)
    | inl ok ↦ elim (Option-cases (value_for g s.mgid_entries)) [
      | inl f ↦ rw (dissociate_no_group s g h ok f) (unchanged s _ v)
      | inr (me, found) ↦ elim (Option-cases (value_for h s.l1_entries)) [
        | inl f ↦ absurd (valid_handle-node s h v ok f)
        | inr (e, node) ↦ elim (Bool-cases (not e.is_associated || not (e.mgrp_hdl == g))) [
          | inl a ↦ rw (dissociate_error s g h ok me e found node a) (unchanged s _ v)
          | inr a ↦ rw (dissociate_done s g h ok me e found node a) (record {
            code = returns-throws success;
            valid =
                changed-IsValid s v g h me e (record e { is_associated = false }) found node refl
                  (without h me.l1_list) (λ i. occurrences-without i h me.l1_list ∙ ground arith)
                  (λ g' y. ground arith);
          })
        ]
      ]
    ]
  ]
