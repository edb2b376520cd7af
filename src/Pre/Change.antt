-- ===== src/Pre/Change.antt =====
-- A state of McSimplePre after one node and its group have changed.
use prog_tm_bmv.Base.{
  as_bit, occurrences, ℕ, ◌≡◌, ◌≢◌, ap, sym, ◌∙◌, arith, true, false, ◌==◌, if◌then◌else◌,
  Bool-cases, List, Option, none, some, inl, inr, value_for, is_some, assign, value_for-assign,
  has_key-assign,
}
use prog_tm_bmv.Handles
use prog_tm_bmv.Handles.Release.{valid_handle_lem}
use prog_tm_bmv.Pre.{MgidEntry, L1Entry, McSimplePre}
use prog_tm_bmv.Pre.Inv.{list_of, is_member, owner, IsValid}

pub some_equal : {A : Type 0} (o : Option A) (x y : A) → o ≡ some x → o ≡ some y → x ≡ y
some_equal o x y e f = cc (e, f)

-- A valid handle has its node.
pub valid_handle-node :
    (s : McSimplePre) (h : ℕ)
    → IsValid s
    → Handles.valid_handle s.l1_handles h ≡ true
    → value_for h s.l1_entries ≢ none
valid_handle-node s h v ok e = absurd (
    ground
      (arith, sym (valid_handle_lem s.l1_handles v.l1_manager h) ∙ ok, v.l1_used h, ap is_some e))

-- What is left of a state when one node and one group have changed: the node keeps its L2 node.
module _ (s : McSimplePre) (v : IsValid s) (g h : ℕ) (me : MgidEntry) (e e' : L1Entry)
    (found : value_for g s.mgid_entries ≡ some me) (node : value_for h s.l1_entries ≡ some e)
    (same_l2 : e'.l2_hdl ≡ e.l2_hdl) (list : List ℕ) where
  abbrev pub changed : McSimplePre
  changed = record s {
    mgid_entries = assign g (record me { l1_list = list }) s.mgid_entries;
    l1_entries = assign h e' s.l1_entries;
  }

  lists :
      (g' : ℕ)
      → list_of (value_for g' changed.mgid_entries)
        ≡ (if g' == g then list else list_of (value_for g' s.mgid_entries))
  lists g' =
      ap list_of (value_for-assign g _ g' s.mgid_entries (ap is_some found))
      ∙ (elim (Bool-cases (g' == g)) [ inl y ↦ rw y | inr y ↦ rw y ])

  nodes :
      (i : ℕ)
      → value_for i changed.l1_entries ≡ (if i == h then some e' else value_for i s.l1_entries)
  nodes i = value_for-assign h e' i s.l1_entries (ap is_some node)

  changed_owned :
      (i : ℕ) (x : L1Entry)
      → value_for i changed.l1_entries ≡ some x
      → owner (value_for x.l2_hdl s.l2_entries) ≡ some i
  changed_owned i x f = elim (Bool-cases (i == h)) [
    | inl y ↦
        let this : i ≡ h = ground arith in
        let to : e' ≡ x = some_equal (value_for i changed.l1_entries) e' x (nodes i ∙ rw y) f in
        ap (λ k. owner (value_for k s.l2_entries)) (sym (ap (λ w. w.l2_hdl) to) ∙ same_l2)
        ∙ v.owned h e node
        ∙ ap some (sym this)
    | inr y ↦ v.owned i x (sym (nodes i ∙ rw y) ∙ f)
  ]

  -- The state is valid if the group lists the node as often as it should, and every other node as
  -- before, and the node is a member of no other group.
  pub changed-IsValid :
      ((i : ℕ)
        → occurrences i list
          ≡ (if i == h then as_bit (is_member g (some e')) else occurrences i me.l1_list))
      → ((g' : ℕ) → (g' == g) ≡ false → is_member g' (some e') ≡ is_member g' (some e))
      → IsValid changed
  changed-IsValid listed elsewhere = record {
    l1_manager = v.l1_manager;
    l2_manager = v.l2_manager;
    l1_used =
        λ i. v.l1_used i ∙ ap as_bit (sym (has_key-assign h e' i s.l1_entries (ap is_some node)));
    l2_used = v.l2_used;
    owned = changed_owned;
    members = λ g' i.
        ap (occurrences i) (lists g')
        ∙ core g' i
        ∙ sym (ap (λ o. as_bit (is_member g' o)) (nodes i));
  }
    where
      core :
          (g' i : ℕ)
          → occurrences i (if g' == g then list else list_of (value_for g' s.mgid_entries))
            ≡ as_bit (is_member g' (if i == h then some e' else value_for i s.l1_entries))
      core g' i = elim (Bool-cases (g' == g)) [
        | inl y ↦
            let this : g' ≡ g = ground arith in
            rw y (
              listed i ∙ (elim (Bool-cases (i == h)) [
                | inl z ↦ rw z (ap (λ x. as_bit (is_member x (some e'))) (sym this))
                | inr z ↦ rw z (
                    ap (λ o. occurrences i (list_of o)) (sym found)
                    ∙ v.members g i
                    ∙ ap (λ x. as_bit (is_member x (value_for i s.l1_entries))) (sym this))
              ]))
        | inr y ↦ rw y (
            v.members g' i ∙ (elim (Bool-cases (i == h)) [
              | inl z ↦
                  let this : i ≡ h = ground arith in
                  rw z (
                    ap (λ j. as_bit (is_member g' (value_for j s.l1_entries))) this
                    ∙ ap (λ o. as_bit (is_member g' o)) node
                    ∙ ap as_bit (sym (elsewhere g' y)))
              | inr z ↦ rw z
            ]))
      ]
