-- ===== src/Pre/Run.antt =====
-- The states that calls of McSimplePre lead to. `mc_mgrp_destroy` is not among the calls, since it leaves the nodes of
-- the group associated with it.
use prog_tm_bmv.Base.{ℕ, ◌≢◌, leb, length, Bool-cases, inl, inr}
use prog_tm_bmv.Pre.{
  Outcome, throws, success, table_full, McSimplePre, PortMap, initial, mc_mgrp_create,
  mc_node_create, mc_node_update, mc_node_associate, mc_node_dissociate, mc_node_destroy,
}
use prog_tm_bmv.Pre.Inv.{IsValid, Keeps, returns-throws, initial-IsValid, mc_mgrp_create-IsValid}
use prog_tm_bmv.Pre.Nodes.{mc_node_associate-Keeps, mc_node_dissociate-Keeps}
use prog_tm_bmv.Pre.Life.{mc_node_destroy-Keeps}
use prog_tm_bmv.Pre.Create.{HasRoom, mc_node_create-Keeps, mc_node_update-Keeps}

-- What a call in state `s` returns, and the state after it. A node is made only while the handles can grow.
pub data Step (s : McSimplePre) : Outcome × McSimplePre → Type 0 where
  makes_group : (g : ℕ) → Step s ((mc_mgrp_create s g).0, (mc_mgrp_create s g).2)
  creates :
      HasRoom s
      → (rid : ℕ) (port_map : PortMap)
      → Step s ((mc_node_create s rid port_map).0, (mc_node_create s rid port_map).2)
  updates : (h : ℕ) (port_map : PortMap) → Step s (mc_node_update s h port_map)
  associates : (g h : ℕ) → Step s (mc_node_associate s g h)
  dissociates : (g h : ℕ) → Step s (mc_node_dissociate s g h)
  destroys : (h : ℕ) → Step s (mc_node_destroy s h)

pub data Reached : McSimplePre → Type 0 where
  start : Reached initial
  after : (s : McSimplePre) (r : Outcome × McSimplePre) → Reached s → Step s r → Reached r.1

group_code : (s : McSimplePre) (g : ℕ) → (mc_mgrp_create s g).0 ≢ throws
unfolding mc_mgrp_create
group_code s g = elim (Bool-cases (leb 4096 (length s.mgid_entries))) [
  | inl full ↦ rw full (returns-throws table_full)
  | inr room ↦ rw room (returns-throws success)
]

call-Keeps : (s : McSimplePre) (r : Outcome × McSimplePre) → IsValid s → Step s r → Keeps r
call-Keeps s _ v (makes_group g) = record {
  code = group_code s g;
  valid = mc_mgrp_create-IsValid s v g;
}
call-Keeps s _ v (creates room rid port_map) = mc_node_create-Keeps s v rid port_map room
call-Keeps s _ v (updates h port_map) = mc_node_update-Keeps s v h port_map
call-Keeps s _ v (associates g h) = mc_node_associate-Keeps s v g h
call-Keeps s _ v (dissociates g h) = mc_node_dissociate-Keeps s v g h
call-Keeps s _ v (destroys h) = mc_node_destroy-Keeps s v h

always-IsValid : (s : McSimplePre) → Reached s → IsValid s
always-IsValid _ start = initial-IsValid
always-IsValid _ (after s r h step) = (call-Keeps s r (always-IsValid s h) step).valid

-- In a state that calls lead to from the initial one, among them no mc_mgrp_destroy, each such
-- call returns without throwing and leaves a valid state: a handle is in use exactly if it has a
-- node, and a group lists once each node that is associated with it and no other. A node is made
-- only while the handle vectors can grow.
pub Step-Keeps : (s : McSimplePre) (r : Outcome × McSimplePre) → Reached s → Step s r → Keeps r
Step-Keeps s r h step = call-Keeps s r (always-IsValid s h) step
