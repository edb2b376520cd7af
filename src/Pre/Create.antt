-- ===== src/Pre/Create.antt =====
-- `mc_node_create` and `mc_node_update` of McSimplePre.
use prog_tm_bmv.Base.{
  as_bit, occurrences, ℕ, ◌+◌, ◌^◌, ◌≤◌, ◌≡◌, refl, ap, sym, ◌∙◌, arith, Bool, true, false, ◌==◌,
  if◌then◌else◌, leb, length, Bool-cases, Option-cases, List, [], Option, none, some, inl, inr,
  value_for, has_key, is_some, insert_new, assign, value_for-assign_same, value_for-assign_other,
  has_key-assign, ==_refl, value_for-insert_new, value_for-insert_new_same,
  value_for-insert_new_other,
}
use prog_tm_bmv.Handles
use prog_tm_bmv.Handles.{ok, HandleMgr, Rc}
use prog_tm_bmv.Handles.Inv.{Gives, get_handle-Gives}
use prog_tm_bmv.Pre.{
  returns, success, table_full, invalid_l1_handle, L1Entry, L2Entry, McSimplePre, PortMap, LagMap,
  enter_node, create_node, update_node, mc_node_create, mc_node_update,
}
use prog_tm_bmv.Pre.Inv.{list_of, is_member, owner, IsValid, Keeps, returns-throws}
use prog_tm_bmv.Pre.Change.{some_equal, valid_handle-node}
use prog_tm_bmv.Pre.Nodes.{unchanged}

as_bit-zero : (t : Bool) → 0 ≡ as_bit t → t ≡ false
as_bit-zero t e = ground arith

-- The vectors of both managers can grow by one handle.
abbrev pub HasRoom : McSimplePre → Type 0
HasRoom s =
    (s.l1_handles.handles.num_bits + 65 ≤ 2 ^ 64) × (s.l2_handles.handles.num_bits + 65 ≤ 2 ^ 64)

module _ (s : McSimplePre) (v : IsValid s) (rid : ℕ) (port_map : PortMap) (lag_map : LagMap)
    (room : HasRoom s) where
  abbrev get1 : Rc × ℕ × HandleMgr
  get1 = Handles.get_handle s.l1_handles

  abbrev get2 : Rc × ℕ × HandleMgr
  get2 = Handles.get_handle s.l2_handles

  abbrev gives1 : Gives s.l1_handles get1
  gives1 = get_handle-Gives s.l1_handles v.l1_manager room.0

  abbrev gives2 : Gives s.l2_handles get2
  gives2 = get_handle-Gives s.l2_handles v.l2_manager room.1

  abbrev new_entry : L1Entry
  new_entry = record { mgrp_hdl = 0; rid = rid; l2_hdl = get2.1; is_associated = false }

  abbrev entered : McSimplePre
  entered = enter_node s rid port_map lag_map get1.1 get1.2 get2.1 get2.2

  new1 : has_key get1.1 s.l1_entries ≡ false
  new1 = as_bit-zero _ (sym gives1.unused ∙ v.l1_used get1.1)

  new2 : has_key get2.1 s.l2_entries ≡ false
  new2 = as_bit-zero _ (sym gives2.unused ∙ v.l2_used get2.1)

  has_key-insert_new :
      {V : Type 0} (k : ℕ) (x : V) (i : ℕ) (l : List (ℕ × V))
      → has_key k l ≡ false
      → as_bit (has_key i (insert_new k x l)) ≡ (if i == k then 1 else as_bit (has_key i l))
  has_key-insert_new k x i l f =
      ap (λ o. as_bit (is_some o)) (value_for-insert_new k x i l f)
      ∙ (elim (Bool-cases (i == k)) [ inl y ↦ rw y | inr y ↦ rw y ])

  no_entry : {V : Type 0} (o : Option V) → is_some o ≡ false → o ≡ none
  no_entry none f = refl
  no_entry (some x) f = absurd (ground arith)

  entered-IsValid : IsValid entered
  unfolding enter_node
  entered-IsValid = record {
    l1_manager = gives1.valid;
    l2_manager = gives2.valid;
    l1_used = λ i.
        gives1.after i
        ∙ ap (λ n. if i == get1.1 then 1 else n) (v.l1_used i)
        ∙ sym (has_key-insert_new get1.1 _ i s.l1_entries new1);
    l2_used = λ i.
        gives2.after i
        ∙ ap (λ n. if i == get2.1 then 1 else n) (v.l2_used i)
        ∙ sym (has_key-insert_new get2.1 _ i s.l2_entries new2);
    owned = owned;
    members = members;
  }
    where
      owned :
          (i : ℕ) (x : L1Entry)
          → value_for i entered.l1_entries ≡ some x
          → owner (value_for x.l2_hdl entered.l2_entries) ≡ some i
      owned i x f = elim (Bool-cases (i == get1.1)) [
        | inl y ↦
            let this : i ≡ get1.1 = ground arith in
            let to : new_entry ≡ x =
              some_equal (value_for i entered.l1_entries) new_entry x
                (value_for-insert_new_same get1.1 _ i s.l1_entries new1 y) f in
            ap (λ k. owner (value_for k entered.l2_entries)) (sym (ap (λ w. w.l2_hdl) to))
            ∙ ap owner
                (value_for-insert_new_same get2.1 _ get2.1 s.l2_entries new2 (==_refl get2.1))
            ∙ ap some (sym this)
        | inr y ↦
            let before : owner (value_for x.l2_hdl s.l2_entries) ≡ some i =
              v.owned i x (sym (value_for-insert_new_other get1.1 _ i s.l1_entries new1 y) ∙ f) in
            elim (Bool-cases (x.l2_hdl == get2.1)) [
              | inl z ↦
                  let shared : x.l2_hdl ≡ get2.1 = ground arith in
                  let gone : owner (value_for x.l2_hdl s.l2_entries) ≡ none =
                    ap (λ k. owner (value_for k s.l2_entries)) shared
                    ∙ ap owner (no_entry _ new2) in
                  absurd (cc (gone, before))
              | inr z ↦
                  ap owner (value_for-insert_new_other get2.1 _ x.l2_hdl s.l2_entries new2 z)
                  ∙ before
            ]
      ]

      members :
          (g i : ℕ)
          → occurrences i (list_of (value_for g s.mgid_entries))
            ≡ as_bit (is_member g (value_for i entered.l1_entries))
      members g i = elim (Bool-cases (i == get1.1)) [
        | inl y ↦
            let this : i ≡ get1.1 = ground arith in
            v.members g i
            ∙ ap (λ o. as_bit (is_member g o))
                (ap (λ k. value_for k s.l1_entries) this ∙ no_entry _ new1)
            ∙ sym (
                ap (λ o. as_bit (is_member g o))
                  (value_for-insert_new_same get1.1 _ i s.l1_entries new1 y))
        | inr y ↦
            v.members g i
            ∙ sym (
                ap (λ o. as_bit (is_member g o))
                  (value_for-insert_new_other get1.1 _ i s.l1_entries new1 y))
      ]

  create_full1 :
      leb 4096 (length s.l1_entries) ≡ true
      → create_node s rid port_map lag_map ≡ (returns table_full, 0, s)
  unfolding create_node
  create_full1 full = rw full

  create_full2 :
      leb 4096 (length s.l1_entries) ≡ false
      → leb 8192 (length s.l2_entries) ≡ true
      → create_node s rid port_map lag_map ≡ (returns table_full, 0, s)
  unfolding create_node
  create_full2 room1 full = rw (room1, full)

  create_done :
      leb 4096 (length s.l1_entries) ≡ false
      → leb 8192 (length s.l2_entries) ≡ false
      → create_node s rid port_map lag_map ≡ (returns success, get1.1, entered)
  unfolding create_node
  create_done room1 room2 = rw (room1, room2, gives1.code, gives2.code, create_node)

  pub create_node-Keeps :
      Keeps ((create_node s rid port_map lag_map).0, (create_node s rid port_map lag_map).2)
  create_node-Keeps = elim (Bool-cases (leb 4096 (length s.l1_entries))) [
    | inl full ↦ rw (create_full1 full) (unchanged s _ v)
    | inr room1 ↦ elim (Bool-cases (leb 8192 (length s.l2_entries))) [
      | inl full ↦ rw (create_full2 room1 full) (unchanged s _ v)
      | inr room2 ↦
          rw (create_done room1 room2)
            (record { code = returns-throws success; valid = entered-IsValid })
    ]
  ]

-- In a valid state, creating a node never throws and keeps the state valid, if both handle vectors
-- can grow.
pub mc_node_create-Keeps :
    (s : McSimplePre) (v : IsValid s) (rid : ℕ) (port_map : PortMap) (room : HasRoom s)
    → Keeps ((mc_node_create s rid port_map).0, (mc_node_create s rid port_map).2)
unfolding mc_node_create
mc_node_create-Keeps s v rid port_map room = create_node-Keeps s v rid port_map [] room

module _ (s : McSimplePre) (v : IsValid s) (h : ℕ) (write : L2Entry → L2Entry)
    (same_node : (e : L2Entry) → (write e).l1_hdl ≡ e.l1_hdl) where
  update_invalid :
      Handles.valid_handle s.l1_handles h ≡ false
      → update_node s h write ≡ (returns invalid_l1_handle, s)
  unfolding update_node
  update_invalid bad = rw bad

  update_done :
      (e : L1Entry) (e2 : L2Entry)
      → Handles.valid_handle s.l1_handles h ≡ true
      → value_for h s.l1_entries ≡ some e
      → value_for e.l2_hdl s.l2_entries ≡ some e2
      → update_node s h write
        ≡ (returns success, record s { l2_entries = assign e.l2_hdl (write e2) s.l2_entries })
  unfolding update_node
  update_done e e2 good node node2 = rw (good, node, node2, update_node)

  updated-IsValid :
      (k : ℕ) (e2 : L2Entry)
      → value_for k s.l2_entries ≡ some e2
      → IsValid (record s { l2_entries = assign k (write e2) s.l2_entries })
  updated-IsValid k e2 node2 = record {
    l1_manager = v.l1_manager;
    l2_manager = v.l2_manager;
    l1_used = v.l1_used;
    l2_used =
        λ i. v.l2_used i ∙ ap as_bit (sym (has_key-assign k _ i s.l2_entries (ap is_some node2)));
    owned = λ i x f. same_owner x.l2_hdl ∙ v.owned i x f;
    members = v.members;
  }
    where
      same_owner :
          (i : ℕ)
          → owner (value_for i (assign k (write e2) s.l2_entries))
            ≡ owner (value_for i s.l2_entries)
      same_owner i = elim (Bool-cases (i == k)) [
        | inl y ↦
            let this : i ≡ k = ground arith in
            ap owner (value_for-assign_same k _ i s.l2_entries (ap is_some node2) y)
            ∙ ap some (same_node e2)
            ∙ ap owner (sym node2)
            ∙ ap (λ j. owner (value_for j s.l2_entries)) (sym this)
        | inr y ↦ ap owner (value_for-assign_other k _ i s.l2_entries (ap is_some node2) y)
      ]

  pub update_node-Keeps : Keeps (update_node s h write)
  update_node-Keeps = elim (Bool-cases (Handles.valid_handle s.l1_handles h)) [
    | inr bad ↦ rw (update_invalid bad) (unchanged s _ v)
    | inl good ↦ elim (Option-cases (value_for h s.l1_entries)) [
      | inl f ↦ absurd (valid_handle-node s h v good f)
      | inr (e, node) ↦ elim (Option-cases (value_for e.l2_hdl s.l2_entries)) [
        | inl f ↦
            let gone : owner (value_for e.l2_hdl s.l2_entries) ≡ none = ap owner f in
            absurd (cc (gone, v.owned h e node))
        | inr (e2, node2) ↦
            rw (update_done e e2 good node node2)
              (record { code = returns-throws success; valid = updated-IsValid e.l2_hdl e2 node2 })
      ]
    ]
  ]

-- In a valid state, updating the ports of a node never throws and keeps the state valid.
pub mc_node_update-Keeps :
    (s : McSimplePre) (v : IsValid s) (h : ℕ) (port_map : PortMap)
    → Keeps (mc_node_update s h port_map)
unfolding mc_node_update
mc_node_update-Keeps s v h port_map =
    update_node-Keeps s v h (λ e. record e { port_map = port_map }) (λ e. refl)
