-- ===== src/Pre/Tests.antt =====
-- The theorems on McSimplePre at a state with one group that has one node, on ports 0 and 2.
use prog_tm_bmv.Base.{
  ℕ, ◌≡◌, refl, arith, true, false, List, [], ◌∷◌, some, value_for, insert_new, assign,
}
use prog_tm_bmv.Bitset
use prog_tm_bmv.Handles
use prog_tm_bmv.Pre
use prog_tm_bmv.Pre.{
  Outcome, returns, throws, success, McOut, L1Entry, McSimplePre, PortMap, initial, enter_node,
  create_node, mc_mgrp_create, mc_mgrp_destroy, mc_node_create, mc_node_associate,
  mc_node_dissociate, mc_node_destroy, mc_node_update, replicate,
}
use prog_tm_bmv.Pre.Inv.{IsValid, initial-IsValid, Keeps, list_of, mc_mgrp_create-IsValid}
use prog_tm_bmv.Pre.Nodes.{mc_node_associate-Keeps}
use prog_tm_bmv.Pre.Create.{HasRoom, mc_node_create-Keeps}
use prog_tm_bmv.Pre.Run.{
  Reached, start, after, creates, makes_group, associates, destroys, Step-Keeps,
}
use prog_tm_bmv.Pre.Replicate.{
  copies_to, nodes_with_port, replicate-copies_to, mc_node_destroy_throws,
}

abbrev ports : PortMap
ports = true ∷ false ∷ true ∷ []

abbrev with_node : McSimplePre
with_node = (mc_node_create initial 7 ports).2

abbrev with_group : McSimplePre
with_group = (mc_mgrp_create with_node 1).2

abbrev joined : McSimplePre
joined = (mc_node_associate with_group 1 0).1

with_node-IsValid : IsValid with_node
with_node-IsValid =
    (mc_node_create-Keeps initial initial-IsValid 7 ports (omega arith, omega arith)).valid

with_group-IsValid : IsValid with_group
with_group-IsValid = mc_mgrp_create-IsValid with_node with_node-IsValid 1

joined-IsValid : IsValid joined
joined-IsValid = (mc_node_associate-Keeps with_group with_group-IsValid 1 0).valid

abbrev joined_node : L1Entry
joined_node = record { mgrp_hdl = 1; rid = 7; l2_hdl = 0; is_associated = true }

joined_entry : value_for 0 joined.l1_entries ≡ some joined_node
unfolding mc_node_create create_node mc_mgrp_create mc_node_associate enter_node value_for
    insert_new assign Handles.get_handle Handles.valid_handle Bitset.push_back Bitset.set_bit
    Bitset.size Bitset.test
joined_entry = refl

joined_copies :
    replicate joined 1
    ≡ some (record { rid = 7; egress_port = 0 } ∷ record { rid = 7; egress_port = 2 } ∷ [])
unfolding mc_node_create create_node mc_mgrp_create mc_node_associate enter_node value_for
    insert_new assign Handles.get_handle Handles.valid_handle Bitset.push_back Bitset.set_bit
    Bitset.size Bitset.test replicate Pre.replicate_nodes Pre.copies
joined_copies = refl

initial_room : HasRoom initial
initial_room = (omega arith, omega arith)

joined_reached : Reached joined
joined_reached =
    after with_group _
      (after with_node _ (after initial _ start (creates initial_room 7 ports)) (makes_group 1))
      (associates 1 0)

Step-Keeps_example : Keeps (mc_node_destroy joined 0)
Step-Keeps_example = Step-Keeps joined (mc_node_destroy joined 0) joined_reached (destroys 0)

replicate-copies_to_example :
    (outs : List McOut) × (replicate joined 1 ≡ some outs)
    × ((port : ℕ)
        → copies_to port outs
          ≡ nodes_with_port joined port (list_of (value_for 1 joined.mgid_entries)))
replicate-copies_to_example = replicate-copies_to joined joined-IsValid 1

mc_node_destroy_throws_example :
    (mc_node_destroy (mc_mgrp_destroy joined joined_node.mgrp_hdl).1 0).0 ≡ throws
mc_node_destroy_throws_example =
    mc_node_destroy_throws joined joined-IsValid 0 joined_node joined_entry refl
