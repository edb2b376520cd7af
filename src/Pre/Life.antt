-- ===== src/Pre/Life.antt =====
-- The operations of McSimplePre that create, destroy and update nodes.
use prog_tm_bmv.Base.{
  as_bit, occurrences, ℕ, ◌≡◌, refl, ap, sym, ◌∙◌, arith, Bool, true, false, ◌==◌, if◌then◌else◌,
  Bool-cases, Option-cases, List, [], none, some, inl, inr, value_for, has_key, is_some, erase,
  assign, value_for-assign_same, value_for-assign_other, value_for-erase, value_for-erase_same,
  value_for-erase_other,
}
use prog_tm_bmv.Handles
use prog_tm_bmv.Handles.{ok, HandleMgr}
use prog_tm_bmv.Handles.Release.{Releases, release_handle-Releases}
use prog_tm_bmv.Pre.{
  returns, throws, success, invalid_l1_handle, MgidEntry, L1Entry, McSimplePre, without,
  node_dissociate, remove_node, mc_node_destroy,
}
use prog_tm_bmv.Pre.Inv.{
  occurrences-without, list_of, is_member, owner, IsValid, Keeps, returns-throws,
}
use prog_tm_bmv.Pre.Change.{some_equal, valid_handle-node}
use prog_tm_bmv.Pre.Nodes.{unchanged}

module _ (s : McSimplePre) (v : IsValid s) (h : ℕ) (e : L1Entry)
    (node : value_for h s.l1_entries ≡ some e) (m : List (ℕ × MgidEntry)) where
  abbrev regrouped : McSimplePre
  regrouped = record s { mgid_entries = m }

  abbrev release1 : Releases s.l1_handles h (Handles.release_handle s.l1_handles h)
  release1 = release_handle-Releases s.l1_handles v.l1_manager h

  abbrev release2 : Releases s.l2_handles e.l2_hdl (Handles.release_handle s.l2_handles e.l2_hdl)
  release2 = release_handle-Releases s.l2_handles v.l2_manager e.l2_hdl

  has_key-erase :
      {V : Type 0} (k i : ℕ) (l : List (ℕ × V))
      → as_bit (has_key i (erase k l)) ≡ (if i == k then 0 else as_bit (has_key i l))
  has_key-erase k i l =
      ap (λ o. as_bit (is_some o)) (value_for-erase k i l)
      ∙ (elim (Bool-cases (i == k)) [ inl y ↦ rw y | inr y ↦ rw y ])

  -- No other node has the L2 node of the one removed.
  removed_owned :
      (i : ℕ) (x : L1Entry)
      → value_for i (erase h s.l1_entries) ≡ some x
      → owner (value_for x.l2_hdl (erase e.l2_hdl s.l2_entries)) ≡ some i
  removed_owned i x f = elim (Bool-cases (i == h)) [
    | inl y ↦ absurd (cc (value_for-erase_same h i s.l1_entries y, f))
    | inr y ↦
        let before : owner (value_for x.l2_hdl s.l2_entries) ≡ some i =
          v.owned i x (sym (value_for-erase_other h i s.l1_entries y) ∙ f) in
        elim (Bool-cases (x.l2_hdl == e.l2_hdl)) [
          | inl z ↦
              let shared : x.l2_hdl ≡ e.l2_hdl = ground arith in
              let same : i ≡ h =
                some_equal (owner (value_for x.l2_hdl s.l2_entries)) i h before
                  (ap (λ k. owner (value_for k s.l2_entries)) shared ∙ v.owned h e node) in
              absurd (ground arith)
          | inr z ↦ ap owner (value_for-erase_other e.l2_hdl x.l2_hdl s.l2_entries z) ∙ before
        ]
  ]

  remove_node-IsValid :
      ((g i : ℕ)
        → occurrences i (list_of (value_for g m))
          ≡ (if i == h then 0 else occurrences i (list_of (value_for g s.mgid_entries))))
      → IsValid (remove_node regrouped h e)
  unfolding remove_node
  remove_node-IsValid listed = record {
    l1_manager = release1.valid;
    l2_manager = release2.valid;
    l1_used = λ i.
        release1.after i
        ∙ ap (λ n. if i == h then 0 else n) (v.l1_used i)
        ∙ sym (has_key-erase h i s.l1_entries);
    l2_used = λ i.
        release2.after i
        ∙ ap (λ n. if i == e.l2_hdl then 0 else n) (v.l2_used i)
        ∙ sym (has_key-erase e.l2_hdl i s.l2_entries);
    owned = removed_owned;
    members = λ g i. listed g i ∙ (elim (Bool-cases (i == h)) [
      | inl y ↦
          rw y (sym (ap (λ o. as_bit (is_member g o)) (value_for-erase_same h i s.l1_entries y)))
      | inr y ↦ rw y (
          v.members g i
          ∙ sym (ap (λ o. as_bit (is_member g o)) (value_for-erase_other h i s.l1_entries y)))
    ]);
  }

occurrences-none : (h : ℕ) → occurrences h [] ≡ 0
unfolding occurrences
occurrences-none h = refl

module _ (s : McSimplePre) (h : ℕ) where
  destroy_invalid :
      Handles.valid_handle s.l1_handles h ≡ false
      → mc_node_destroy s h ≡ (returns invalid_l1_handle, s)
  unfolding mc_node_destroy
  destroy_invalid bad = rw bad

  module _ (good : Handles.valid_handle s.l1_handles h ≡ true) (e : L1Entry)
      (node : value_for h s.l1_entries ≡ some e) where
    destroy_alone :
        e.is_associated ≡ false → mc_node_destroy s h ≡ (returns success, remove_node s h e)
    unfolding mc_node_destroy
    destroy_alone a = rw (good, node, a, mc_node_destroy)

    destroy_listed :
        (me : MgidEntry)
        → e.is_associated ≡ true
        → value_for e.mgrp_hdl s.mgid_entries ≡ some me
        → mc_node_destroy s h
          ≡ (returns success, remove_node (node_dissociate s e.mgrp_hdl me h) h e)
    unfolding mc_node_destroy node_dissociate
    destroy_listed me a found = rw (good, node, a, found, mc_node_destroy)

    -- a group that was destroyed with the node in it
    pub destroy_throws :
        e.is_associated ≡ true
        → value_for e.mgrp_hdl s.mgid_entries ≡ none
        → mc_node_destroy s h ≡ (throws, s)
    unfolding mc_node_destroy
    destroy_throws a found = rw (good, node, a, found, mc_node_destroy)

module _ (s : McSimplePre) (v : IsValid s) (h : ℕ) where
  listed_of :
      (g : ℕ) (e : L1Entry)
      → value_for h s.l1_entries ≡ some e
      → occurrences h (list_of (value_for g s.mgid_entries)) ≡ as_bit (is_member g (some e))
  listed_of g e node = v.members g h ∙ ap (λ o. as_bit (is_member g o)) node

  alone :
      (e : L1Entry)
      → value_for h s.l1_entries ≡ some e
      → e.is_associated ≡ false
      → (g i : ℕ)
      → occurrences i (list_of (value_for g s.mgid_entries))
        ≡ (if i == h then 0 else occurrences i (list_of (value_for g s.mgid_entries)))
  alone e node a g i = elim (Bool-cases (i == h)) [
    | inr y ↦ rw y
    | inl y ↦ let this : i ≡ h = ground arith in rw (y, this) (listed_of g e node ∙ ground arith)
  ]

  unlisted :
      (e : L1Entry) (me : MgidEntry)
      → value_for h s.l1_entries ≡ some e
      → value_for e.mgrp_hdl s.mgid_entries ≡ some me
      → (g i : ℕ)
      → occurrences i (
          list_of (
            value_for g
              (assign e.mgrp_hdl (record me { l1_list = without h me.l1_list }) s.mgid_entries)))
        ≡ (if i == h then 0 else occurrences i (list_of (value_for g s.mgid_entries)))
  unlisted e me node found g i = elim (Bool-cases (g == e.mgrp_hdl)) [
    | inl y ↦
        let this : g ≡ e.mgrp_hdl = ground arith in
        ap (λ o. occurrences i (list_of o))
          (value_for-assign_same e.mgrp_hdl _ g s.mgid_entries (ap is_some found) y)
        ∙ occurrences-without i h me.l1_list
        ∙ flip (h == i) (i == h) (ground arith) 0 (occurrences i me.l1_list)
        ∙ ap (λ o. if i == h then 0 else occurrences i (list_of o))
            (sym (ap (λ k. value_for k s.mgid_entries) this ∙ found))
    | inr y ↦
        ap (λ o. occurrences i (list_of o))
          (value_for-assign_other e.mgrp_hdl _ g s.mgid_entries (ap is_some found) y)
        ∙ (elim (Bool-cases (i == h)) [
          | inr z ↦ rw z
          | inl z ↦
              let this : i ≡ h = ground arith in rw (z, this) (listed_of g e node ∙ ground arith)
        ])
  ]
    where
      flip : (a b : Bool) → a ≡ b → (x y : ℕ) → (if a then x else y) ≡ (if b then x else y)
      flip a b p x y = ap (λ t. if t then x else y) p

  -- In a valid state, destroying a node, in a group or not, never throws and keeps the state
  -- valid.
  pub mc_node_destroy-Keeps : Keeps (mc_node_destroy s h)
  unfolding node_dissociate
  mc_node_destroy-Keeps = elim (Bool-cases (Handles.valid_handle s.l1_handles h)) [
    | inr bad ↦ rw (destroy_invalid s h bad) (unchanged s _ v)
    | inl good ↦ elim (Option-cases (value_for h s.l1_entries)) [
      | inl f ↦ absurd (valid_handle-node s h v good f)
      | inr (e, node) ↦ elim (Bool-cases e.is_associated) [
        | inr a ↦ rw (destroy_alone s h good e node a) (record {
          code = returns-throws success;
          valid = remove_node-IsValid s v h e node s.mgid_entries (alone e node a);
        })
        | inl a ↦ elim (Option-cases (value_for e.mgrp_hdl s.mgid_entries)) [
          | inl f ↦ absurd (
              ground (
                arith,
                listed_of e.mgrp_hdl e node,
                ap (λ o. occurrences h (list_of o)) f,
                occurrences-none h,
              ))
          | inr (me, found) ↦ rw (destroy_listed s h good e node me a found) (record {
            code = returns-throws success;
            valid = remove_node-IsValid s v h e node _ (unlisted e me node found);
          })
        ]
      ]
    ]
  ]
