-- ===== src/Pre.antt =====
-- src/bm_sim/simple_pre.cpp and include/bm/bm_sim/simple_pre.h: McSimplePre, the multicast groups. A
-- group lists L1 nodes, an L1 node has an rid and an L2 node, and an L2 node has the ports. The lock is
-- left out: each operation is one step. `mc_get_entries`, which prints the state, is not modelled.
pub mod Inv
mod Change
pub mod Nodes
pub mod Life
pub mod Run
pub mod Create
pub mod Replicate
pub mod Lag
mod Tests
use prog_tm_bmv.Base.{
  ℕ, ◌+◌, Bool, true, false, not, ◌&&◌, ◌||◌, ◌==◌, leb, if◌then◌else◌, List, [], ◌∷◌, ◌++◌, length,
  Option, none, some, value_for, has_key, insert_new, assign, erase,
}
use prog_tm_bmv.Handles
use prog_tm_bmv.Handles.{HandleMgr, fresh, Rc, ok, failure}

-- `McReturnCode`
pub data ReturnCode : Type 0 where
  success table_full invalid_mgid invalid_mgrp_handle invalid_l1_handle error : ReturnCode

-- An operation returns its code, or `at` throws `std::out_of_range`.
pub data Outcome : Type 0 where
  returns : ReturnCode → Outcome
  throws : Outcome

-- `PortMap`: one Boolean for each port.
abbrev pub PortMap : Type 0
PortMap = List Bool

-- `LagMap`: one Boolean for each LAG.
abbrev pub LagMap : Type 0
LagMap = List Bool

-- `McOut`
pub record McOut : Type 0 where
  pub rid : ℕ
  pub egress_port : ℕ

pub record MgidEntry : Type 0 where
  pub mgid : ℕ
  pub l1_list : List ℕ

pub record L1Entry : Type 0 where
  pub mgrp_hdl : ℕ
  pub rid : ℕ
  pub l2_hdl : ℕ
  pub is_associated : Bool

-- `lag_map` is only set by McSimplePreLAG.
pub record L2Entry : Type 0 where
  pub l1_hdl : ℕ
  pub port_map : PortMap
  pub lag_map : LagMap

pub record McSimplePre : Type 0 where
  pub mgid_entries : List (ℕ × MgidEntry)
  pub l1_entries : List (ℕ × L1Entry)
  pub l2_entries : List (ℕ × L2Entry)
  pub l1_handles : HandleMgr
  pub l2_handles : HandleMgr

abbrev pub initial : McSimplePre
initial = record {
  mgid_entries = [];
  l1_entries = [];
  l2_entries = [];
  l1_handles = fresh;
  l2_handles = fresh;
}

abbrev mgid_table_size : ℕ
mgid_table_size = 4096

abbrev l1_max_entries : ℕ
l1_max_entries = 4096

abbrev l2_max_entries : ℕ
l2_max_entries = 8192

-- Returns the handle as well, which is the group id.
unfoldable pub mc_mgrp_create : McSimplePre → ℕ → Outcome × ℕ × McSimplePre
mc_mgrp_create s mgid =
    if leb mgid_table_size (length s.mgid_entries) then (returns table_full, 0, s) else (
      returns success,
      mgid,
      record s {
        mgid_entries = insert_new mgid (record { mgid = mgid; l1_list = [] }) s.mgid_entries;
      },
    )

unfoldable pub mc_mgrp_destroy : McSimplePre → ℕ → Outcome × McSimplePre
mc_mgrp_destroy s mgrp_hdl =
    (returns success, record s { mgid_entries = erase mgrp_hdl s.mgid_entries })

abbrev pub is_failure : Rc → Bool
is_failure ok = false
is_failure failure = true

-- the node that `mc_node_create` enters under its two handles
unfoldable pub enter_node :
    McSimplePre → ℕ → PortMap → LagMap → ℕ → HandleMgr → ℕ → HandleMgr → McSimplePre
enter_node s rid port_map lag_map l1_hdl l1_handles l2_hdl l2_handles =
    let l1_entry : L1Entry = record {
      mgrp_hdl = 0;
      rid = rid;
      l2_hdl = l2_hdl;
      is_associated = false;
    } in
    record {
      mgid_entries = s.mgid_entries;
      l1_entries = insert_new l1_hdl l1_entry s.l1_entries;
      l2_entries =
          insert_new l2_hdl (record { l1_hdl = l1_hdl; port_map = port_map; lag_map = lag_map })
            s.l2_entries;
      l1_handles = l1_handles;
      l2_handles = l2_handles;
    }

-- `mc_node_create` of both classes. Returns the L1 handle as well.
unfoldable pub create_node : McSimplePre → ℕ → PortMap → LagMap → Outcome × ℕ × McSimplePre
create_node s rid port_map lag_map =
    if leb l1_max_entries (length s.l1_entries)
    then (returns table_full, 0, s)
    else if leb l2_max_entries (length s.l2_entries)
    then (returns table_full, 0, s)
    else (let (rc1, l1_hdl, l1_handles) = Handles.get_handle s.l1_handles in
        let (rc2, l2_hdl, l2_handles) = Handles.get_handle s.l2_handles in
        if is_failure rc1
        then (returns error, l1_hdl, record s { l1_handles = l1_handles })
        else if is_failure rc2
        then (returns error, l1_hdl, record s { l1_handles = l1_handles; l2_handles = l2_handles })
        else (
          returns success,
          l1_hdl,
          enter_node s rid port_map lag_map l1_hdl l1_handles l2_hdl l2_handles,
        ))

unfoldable pub mc_node_create : McSimplePre → ℕ → PortMap → Outcome × ℕ × McSimplePre
mc_node_create s rid port_map = create_node s rid port_map []

unfoldable pub mc_node_associate : McSimplePre → ℕ → ℕ → Outcome × McSimplePre
mc_node_associate s mgrp_hdl l1_hdl =
    if not (Handles.valid_handle s.l1_handles l1_hdl)
    then (returns invalid_l1_handle, s)
    else elim (value_for mgrp_hdl s.mgid_entries) [
      | none ↦ (returns invalid_mgrp_handle, s)
      | some mgid_entry ↦ elim (value_for l1_hdl s.l1_entries) [
        | none ↦ (throws, s)
        | some l1_entry ↦ if l1_entry.is_associated then (returns error, s) else (
          returns success,
          record s {
            mgid_entries =
                assign mgrp_hdl (record mgid_entry { l1_list = mgid_entry.l1_list ++ l1_hdl ∷ [] })
                  s.mgid_entries;
            l1_entries =
                assign l1_hdl (record l1_entry { mgrp_hdl = mgrp_hdl; is_associated = true })
                  s.l1_entries;
          },
        )
      ]
    ]

-- `std::remove` and `erase`
unfoldable pub without : ℕ → List ℕ → List ℕ
without h [] = []
without h (x ∷ xs) = let rest = without h xs in if x == h then rest else x ∷ rest

unfoldable pub node_dissociate : McSimplePre → ℕ → MgidEntry → ℕ → McSimplePre
node_dissociate s mgrp_hdl mgid_entry l1_hdl = record s {
  mgid_entries =
      assign mgrp_hdl (record mgid_entry { l1_list = without l1_hdl mgid_entry.l1_list })
        s.mgid_entries;
}

unfoldable pub mc_node_dissociate : McSimplePre → ℕ → ℕ → Outcome × McSimplePre
unfolding node_dissociate
mc_node_dissociate s mgrp_hdl l1_hdl =
    if not (Handles.valid_handle s.l1_handles l1_hdl)
    then (returns invalid_l1_handle, s)
    else elim (value_for mgrp_hdl s.mgid_entries) [
      | none ↦ (returns invalid_mgrp_handle, s)
      | some mgid_entry ↦ elim (value_for l1_hdl s.l1_entries) [
        | none ↦ (throws, s)
        | some l1_entry ↦
            if not l1_entry.is_associated || not (l1_entry.mgrp_hdl == mgrp_hdl)
            then (returns error, s)
            else (
              returns success,
              record (node_dissociate s mgrp_hdl mgid_entry l1_hdl) {
                l1_entries = assign l1_hdl (record l1_entry { is_associated = false }) s.l1_entries;
              },
            )
      ]
    ]

-- The codes of the two `release_handle` calls are asserted to be 0.
unfoldable pub remove_node : McSimplePre → ℕ → L1Entry → McSimplePre
remove_node s l1_hdl l1_entry = record s {
  l1_entries = erase l1_hdl s.l1_entries;
  l2_entries = erase l1_entry.l2_hdl s.l2_entries;
  l1_handles = (Handles.release_handle s.l1_handles l1_hdl).1;
  l2_handles = (Handles.release_handle s.l2_handles l1_entry.l2_hdl).1;
}

unfoldable pub mc_node_destroy : McSimplePre → ℕ → Outcome × McSimplePre
unfolding node_dissociate remove_node
mc_node_destroy s l1_hdl =
    if not (Handles.valid_handle s.l1_handles l1_hdl)
    then (returns invalid_l1_handle, s)
    else elim (value_for l1_hdl s.l1_entries) [
      | none ↦ (throws, s)
      | some l1_entry ↦
          if l1_entry.is_associated
          then elim (value_for l1_entry.mgrp_hdl s.mgid_entries) [
            | none ↦ (throws, s)
            | some mgid_entry ↦ (
              returns success,
              remove_node (node_dissociate s l1_entry.mgrp_hdl mgid_entry l1_hdl) l1_hdl l1_entry,
            )
          ]
          else (returns success, remove_node s l1_hdl l1_entry)
    ]

-- `mc_node_update` of both classes, with what it writes to the L2 entry.
unfoldable pub update_node : McSimplePre → ℕ → (L2Entry → L2Entry) → Outcome × McSimplePre
update_node s l1_hdl write =
    if not (Handles.valid_handle s.l1_handles l1_hdl)
    then (returns invalid_l1_handle, s)
    else elim (value_for l1_hdl s.l1_entries) [
      | none ↦ (throws, s)
      | some l1_entry ↦ elim (value_for l1_entry.l2_hdl s.l2_entries) [
        | none ↦ (throws, s)
        | some l2_entry ↦ (
          returns success,
          record s { l2_entries = assign l1_entry.l2_hdl (write l2_entry) s.l2_entries },
        )
      ]
    ]

unfoldable pub mc_node_update : McSimplePre → ℕ → PortMap → Outcome × McSimplePre
mc_node_update s l1_hdl port_map =
    update_node s l1_hdl (λ l2_entry. record l2_entry { port_map = port_map })

unfoldable pub reset_state : McSimplePre → McSimplePre
reset_state s = record {
  mgid_entries = [];
  l1_entries = [];
  l2_entries = [];
  l1_handles = Handles.clear s.l1_handles;
  l2_handles = Handles.clear s.l2_handles;
}

-- the ports from `port` on that a node sends to
unfoldable pub copies : ℕ → ℕ → PortMap → List McOut
copies rid port [] = []
copies rid port (b ∷ bs) =
    let rest = copies rid (port + 1) bs in
    if b then record { rid = rid; egress_port = port } ∷ rest else rest

-- Nothing where `at` throws.
unfoldable pub replicate_nodes : McSimplePre → List ℕ → Option (List McOut)
replicate_nodes s [] = some []
replicate_nodes s (l1_hdl ∷ l1_list) =
    let rest = replicate_nodes s l1_list in
    elim (value_for l1_hdl s.l1_entries) [
      | none ↦ none
      | some l1_entry ↦ elim (value_for l1_entry.l2_hdl s.l2_entries) [
        | none ↦ none
        | some l2_entry ↦ elim rest [
          | none ↦ none
          | some outs ↦ some (copies l1_entry.rid 0 l2_entry.port_map ++ outs)
        ]
      ]
    ]

unfoldable pub replicate : McSimplePre → ℕ → Option (List McOut)
replicate s mgid = elim (value_for mgid s.mgid_entries) [
  | none ↦ some []
  | some mgid_entry ↦ replicate_nodes s mgid_entry.l1_list
]
