-- ===== src/Pre/Lag.antt =====
-- src/bm_sim/simple_pre_lag.cpp and include/bm/bm_sim/simple_pre_lag.h: McSimplePreLAG, where a node also
-- sends to LAGs, to one of the ports of each. `mc_get_entries`, which prints the state, is not modelled.
pub mod Members
pub mod Membership
mod Tests
use prog_tm_bmv.Base.{
  ℕ, ◌+◌, ◌%◌, ◌^◌, Bool, true, false, ◌==◌, ltb, if◌then◌else◌, List, [], ◌∷◌, ◌++◌, Option, none,
  some, value_for, has_key, assign, insert_new,
}
use prog_tm_bmv.Pre
use prog_tm_bmv.Pre.{
  ReturnCode, success, error, Outcome, returns, throws, PortMap, LagMap, McOut, L2Entry,
  McSimplePre, create_node, update_node, copies,
}

pub record LagEntry : Type 0 where
  pub member_count : ℕ
  pub port_map : PortMap

-- The base class and the field of this class.
pub record McSimplePreLag : Type 0 where
  pub pre : McSimplePre
  pub lag_entries : List (ℕ × LagEntry)

abbrev lag_max_entries : ℕ
lag_max_entries = 256

unfoldable pub mc_node_create : McSimplePreLag → ℕ → PortMap → LagMap → Outcome × ℕ × McSimplePreLag
mc_node_create s rid port_map lag_map =
    let (code, l1_hdl, pre) = create_node s.pre rid port_map lag_map in
    (code, l1_hdl, record s { pre = pre })

unfoldable pub mc_node_update : McSimplePreLag → ℕ → PortMap → LagMap → Outcome × McSimplePreLag
mc_node_update s l1_hdl port_map lag_map =
    let (code, pre) =
      update_node s.pre l1_hdl
        (λ l2_entry. record l2_entry { port_map = port_map; lag_map = lag_map }) in
    (code, record s { pre = pre })

-- The loop of `mc_set_lag_membership`, on a counter of 16 bits.
unfoldable pub count_members : ℕ → PortMap → ℕ
count_members member_count [] = member_count
count_members member_count (b ∷ bs) =
    count_members (if b then (member_count + 1) % 2 ^ 16 else member_count) bs

-- `operator[]` makes an entry where there is none.
unfoldable pub mc_set_lag_membership : McSimplePreLag → ℕ → PortMap → Outcome × McSimplePreLag
mc_set_lag_membership s lag_index port_map =
    if ltb lag_max_entries lag_index
    then (returns error, s)
    else (let lag_entry : LagEntry = record {
      member_count = count_members 0 port_map;
      port_map = port_map;
    } in
        (
          returns success,
          record s {
            lag_entries =
                if has_key lag_index s.lag_entries
                then assign lag_index lag_entry s.lag_entries
                else insert_new lag_index lag_entry s.lag_entries;
          },
        ))

unfoldable pub reset_state : McSimplePreLag → McSimplePreLag
reset_state s = record { pre = Pre.reset_state s.pre; lag_entries = [] }

-- The loop over the ports of a LAG, up to the one where the counts meet.
unfoldable pub member_port : ℕ → ℕ → ℕ → PortMap → Option ℕ
member_port port_count1 port_count2 port_id [] = none
member_port port_count1 port_count2 port_id (b ∷ bs) =
    let count = if b then port_count2 + 1 else port_count2 in
    let rest = member_port port_count1 count (port_id + 1) bs in
    if port_count1 == count then some port_id else rest

-- the copy that goes to a LAG
unfoldable pub lag_copy : ℕ → LagEntry → List McOut
lag_copy rid lag_entry =
    if lag_entry.member_count == 0
    then []
    else elim (member_port (255 % lag_entry.member_count + 1) 0 0 lag_entry.port_map) [
      | none ↦ []
      | some port_id ↦ record { rid = rid; egress_port = port_id } ∷ []
    ]

-- the copies that go to the LAGs from `lag_index` on
unfoldable pub lag_copies : List (ℕ × LagEntry) → ℕ → ℕ → LagMap → List McOut
lag_copies lag_entries rid lag_index [] = []
lag_copies lag_entries rid lag_index (b ∷ bs) =
    let rest = lag_copies lag_entries rid (lag_index + 1) bs in
    if b
    then elim (value_for lag_index lag_entries) [
      | none ↦ rest
      | some lag_entry ↦ lag_copy rid lag_entry ++ rest
    ]
    else rest

-- Nothing where `at` throws.
unfoldable pub replicate_nodes : McSimplePreLag → List ℕ → Option (List McOut)
replicate_nodes s [] = some []
replicate_nodes s (l1_hdl ∷ l1_list) =
    let rest = replicate_nodes s l1_list in
    elim (value_for l1_hdl s.pre.l1_entries) [
      | none ↦ none
      | some l1_entry ↦ elim (value_for l1_entry.l2_hdl s.pre.l2_entries) [
        | none ↦ none
        | some l2_entry ↦ elim rest [
          | none ↦ none
          | some outs ↦ some (
              copies l1_entry.rid 0 l2_entry.port_map
              ++ (lag_copies s.lag_entries l1_entry.rid 0 l2_entry.lag_map ++ outs))
        ]
      ]
    ]

unfoldable pub replicate : McSimplePreLag → ℕ → Option (List McOut)
replicate s mgid = elim (value_for mgid s.pre.mgid_entries) [
  | none ↦ some []
  | some mgid_entry ↦ replicate_nodes s mgid_entry.l1_list
]
