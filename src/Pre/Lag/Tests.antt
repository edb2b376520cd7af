-- ===== src/Pre/Lag/Tests.antt =====
-- McSimplePreLAG with one node, in one group, that has a port and a LAG.
use prog_tm_bmv.Base.{
  ℕ, ◌+◌, ◌≡◌, refl, arith, true, false, List, [], ◌∷◌, some, value_for, insert_new, assign,
}
use prog_tm_bmv.Bitset
use prog_tm_bmv.Handles
use prog_tm_bmv.Pre
use prog_tm_bmv.Pre.{
  McOut, PortMap, initial, mc_mgrp_create, mc_node_associate, create_node, enter_node,
}
use prog_tm_bmv.Pre.Inv.{initial-IsValid, mc_mgrp_create-IsValid, list_of}
use prog_tm_bmv.Pre.Nodes.{mc_node_associate-Keeps}
use prog_tm_bmv.Pre.Replicate.{copies_to, nodes_with_port}
use prog_tm_bmv.Pre.Lag.{
  McSimplePreLag, mc_node_create, mc_set_lag_membership, count_members, member_port, lag_copy,
  lag_copies, replicate_nodes, replicate,
}
use prog_tm_bmv.Pre.Lag.Members.{IsValid, lags_with_port, replicate-lag_copies}
use prog_tm_bmv.Pre.Lag.Membership.{Sets, mc_set_lag_membership-Sets, mc_node_create-IsValid}

abbrev empty : McSimplePreLag
empty = record { pre = initial; lag_entries = [] }

empty-IsValid : IsValid empty
unfolding value_for
empty-IsValid = record { base = initial-IsValid; counts = λ i e f. cc f }

abbrev with_node : McSimplePreLag
with_node = (mc_node_create empty 7 (true ∷ []) (true ∷ [])).2

with_node-IsValid : IsValid with_node
with_node-IsValid =
    mc_node_create-IsValid empty empty-IsValid 7 (true ∷ []) (true ∷ []) (omega arith, omega arith)

abbrev ports : PortMap
ports = false ∷ true ∷ true ∷ []

abbrev with_lag : McSimplePreLag
with_lag = (mc_set_lag_membership with_node 0 ports).1

with_lag-IsValid : IsValid with_lag
with_lag-IsValid =
    (mc_set_lag_membership-Sets with_node with_node-IsValid 0 ports (omega arith)
      (omega arith)).valid

abbrev joined : McSimplePreLag
joined = record with_lag { pre = (mc_node_associate (mc_mgrp_create with_lag.pre 1).2 1 0).1 }

joined-IsValid : IsValid joined
joined-IsValid = record {
  base =
      (mc_node_associate-Keeps (mc_mgrp_create with_lag.pre 1).2
        (mc_mgrp_create-IsValid with_lag.pre with_lag-IsValid.base 1) 1 0).valid;
  counts = with_lag-IsValid.counts;
}

-- The second of the two members of the LAG gets the copy.
joined_copies :
    replicate joined 1
    ≡ some (record { rid = 7; egress_port = 0 } ∷ record { rid = 7; egress_port = 2 } ∷ [])
unfolding mc_node_create create_node mc_mgrp_create mc_node_associate enter_node value_for
    insert_new assign Handles.get_handle Handles.valid_handle Bitset.push_back Bitset.set_bit
    Bitset.size Bitset.test replicate replicate_nodes Pre.copies lag_copies lag_copy member_port
    mc_set_lag_membership count_members
joined_copies = refl

replicate-lag_copies_example :
    (outs : List McOut) × (replicate joined 1 ≡ some outs)
    × ((port : ℕ)
        → copies_to port outs
          ≡ nodes_with_port joined.pre port (list_of (value_for 1 joined.pre.mgid_entries))
            + lags_with_port joined port (list_of (value_for 1 joined.pre.mgid_entries)))
replicate-lag_copies_example = replicate-lag_copies joined joined-IsValid 1

mc_set_lag_membership-Sets_example :
    Sets with_node 0 ports (mc_set_lag_membership with_node 0 ports)
mc_set_lag_membership-Sets_example =
    mc_set_lag_membership-Sets with_node with_node-IsValid 0 ports (omega arith) (omega arith)
