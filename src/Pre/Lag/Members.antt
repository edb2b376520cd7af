-- ===== src/Pre/Lag/Members.antt =====
-- The member of a LAG that a copy goes to, and the number of copies that each port gets.
use prog_tm_bmv.Base.{
  as_bit, occurrences, ℕ, zero, suc, ◌+◌, ◌%◌, ◌^◌, ◌≤◌, ◌<◌, ◌≡◌, ◌≢◌, refl, ap, sym, ◌∙◌, arith,
  Bool, true, false, ◌==◌, if◌then◌else◌, Option-cases, List-cases, List, [], ◌∷◌, ◌++◌, length,
  get_elem?, Option, none, some, inl, inr, value_for,
}
use prog_tm_bmv.Pre.{McOut, PortMap, LagMap, L1Entry, L2Entry, copies}
use prog_tm_bmv.Pre.Inv
use prog_tm_bmv.Pre.Inv.{list_of, owner}
use prog_tm_bmv.Pre.Replicate.{
  copies_to, copies_to-append, first_port, nodes_with_port, has_port_node, member_node,
}
use prog_tm_bmv.Pre.Lag.{
  LagEntry, McSimplePreLag, count_members, member_port, lag_copy, lag_copies, replicate_nodes,
  replicate,
}

-- the ports from `port` on that are set, in ascending order
unfoldable pub members : ℕ → PortMap → List ℕ
members port [] = []
members port (b ∷ bs) = let rest = members (port + 1) bs in if b then port ∷ rest else rest

length-members : (port : ℕ) (m : PortMap) → length (members port m) ≤ length m
unfolding members
length-members port [] = omega arith
length-members port (true ∷ bs) = omega (arith, length-members (port + 1) bs)
length-members port (false ∷ bs) = omega (arith, length-members (port + 1) bs)

pub count_members_lem :
    (c port : ℕ) (m : PortMap)
    → c + length m < 2 ^ 16
    → count_members c m ≡ c + length (members port m)
unfolding members count_members
count_members_lem c port [] h = omega arith
count_members_lem c port (true ∷ bs) h =
    ap (λ n. count_members n bs) (omega (arith, h))
    ∙ count_members_lem (c + 1) (port + 1) bs (omega arith)
    ∙ omega arith
count_members_lem c port (false ∷ bs) h = count_members_lem c (port + 1) bs (omega arith)

member_port_lem :
    (k c i port : ℕ) (m : PortMap)
    → k ≡ c + 1 + i
    → member_port k c port m ≡ get_elem? (members port m) i
unfolding members member_port
member_port_lem k c i port [] e = refl
member_port_lem k c zero port (true ∷ bs) e = ground arith
member_port_lem k c (suc i) port (true ∷ bs) e =
    ground (arith, member_port_lem k (c + 1) i (port + 1) bs)
member_port_lem k c i port (false ∷ bs) e = ground (arith, member_port_lem k c i (port + 1) bs)

-- the member that gets the copy, of those of a LAG
abbrev pub chosen : Option LagEntry → Option ℕ
chosen none = none
chosen (some e) = let ports = members 0 e.port_map in get_elem? ports (255 % length ports)

abbrev copy_for : ℕ → Option ℕ → List McOut
copy_for rid none = []
copy_for rid (some p) = record { rid = rid; egress_port = p } ∷ []

-- The count of an entry is that of its members.
abbrev pub CountsMembers : LagEntry → Type 0
CountsMembers e = e.member_count ≡ length (members 0 e.port_map)

lag_copy_lem :
    (rid : ℕ) (e : LagEntry) → CountsMembers e → lag_copy rid e ≡ copy_for rid (chosen (some e))
unfolding lag_copy
lag_copy_lem rid e c = elim (List-cases (members 0 e.port_map)) [
  | inl empty ↦
      let zero_count : e.member_count ≡ 0 = c ∙ ap length empty in rw (zero_count, empty, lag_copy)
  | inr (p, ps, same) ↦
      let some_count : (e.member_count == 0) ≡ false = ground (arith, c, ap length same) in
      rw (some_count, lag_copy)
        (ap (copy_for rid) (
          member_port_lem (255 % e.member_count + 1) 0 (255 % e.member_count) 0 e.port_map
            (omega arith)
          ∙ ap (λ n. get_elem? (members 0 e.port_map) (255 % n)) c))
]

-- A state of the base class that is valid, and entries with the right counts.
pub record IsValid (s : McSimplePreLag) : Type 0 where
  pub base : Inv.IsValid s.pre
  pub counts : (i : ℕ) (e : LagEntry) → value_for i s.lag_entries ≡ some e → CountsMembers e

abbrev pub goes_to : ℕ → Option ℕ → Bool
goes_to port none = false
goes_to port (some p) = p == port

copies_to-copy_for :
    (port rid : ℕ) (o : Option ℕ) → copies_to port (copy_for rid o) ≡ as_bit (goes_to port o)
unfolding copies_to
copies_to-copy_for port rid none = refl
copies_to-copy_for port rid (some p) = omega arith

-- the LAGs from `index` on of a node whose chosen member is a port
unfoldable pub lags_to : List (ℕ × LagEntry) → ℕ → ℕ → LagMap → ℕ
lags_to es port index [] = 0
lags_to es port index (b ∷ bs) =
    (if b then as_bit (goes_to port (chosen (value_for index es))) else 0)
    + lags_to es port (index + 1) bs

-- those of the node of a handle, and of a list of handles
abbrev pub node_lags : McSimplePreLag → ℕ → ℕ → ℕ
node_lags s port h = elim (value_for h s.pre.l1_entries) [
  | none ↦ 0
  | some e ↦ elim (value_for e.l2_hdl s.pre.l2_entries) [
    | none ↦ 0
    | some e2 ↦ lags_to s.lag_entries port 0 e2.lag_map
  ]
]

unfoldable pub lags_with_port : McSimplePreLag → ℕ → List ℕ → ℕ
lags_with_port s port [] = 0
lags_with_port s port (h ∷ hs) = node_lags s port h + lags_with_port s port hs

module _ (s : McSimplePreLag) (v : IsValid s) where
  one_lag :
      (port rid index : ℕ) (rest : List McOut) (o : Option LagEntry)
      → value_for index s.lag_entries ≡ o
      → copies_to port (elim o [ none ↦ rest | some e ↦ lag_copy rid e ++ rest ])
        ≡ as_bit (goes_to port (chosen o)) + copies_to port rest
  one_lag port rid index rest none e = omega arith
  one_lag port rid index rest (some l) e =
      copies_to-append port (lag_copy rid l) rest
      ∙ ap (λ n. n + copies_to port rest)
          (ap (copies_to port) (lag_copy_lem rid l (v.counts index l e))
            ∙ copies_to-copy_for port rid (chosen (some l)))

  lag_copies_lem :
      (port rid index : ℕ) (m : LagMap)
      → copies_to port (lag_copies s.lag_entries rid index m) ≡ lags_to s.lag_entries port index m
  unfolding lag_copies lags_to copies_to
  lag_copies_lem port rid index [] = refl
  lag_copies_lem port rid index (true ∷ bs) =
      one_lag port rid index (lag_copies s.lag_entries rid (index + 1) bs)
        (value_for index s.lag_entries) refl
      ∙ ap (λ n. as_bit (goes_to port (chosen (value_for index s.lag_entries))) + n)
          (lag_copies_lem port rid (index + 1) bs)
  lag_copies_lem port rid index (false ∷ bs) = lag_copies_lem port rid (index + 1) bs ∙ omega arith

  nodes_step :
      (h : ℕ) (hs : List ℕ) (e : L1Entry) (e2 : L2Entry) (outs : List McOut)
      → value_for h s.pre.l1_entries ≡ some e
      → value_for e.l2_hdl s.pre.l2_entries ≡ some e2
      → replicate_nodes s hs ≡ some outs
      → replicate_nodes s (h ∷ hs)
        ≡ some (copies e.rid 0 e2.port_map ++ (lag_copies s.lag_entries e.rid 0 e2.lag_map ++ outs))
  unfolding replicate_nodes
  nodes_step h hs e e2 outs node node2 rest = rw (node, node2, rest, replicate_nodes)

  node_lags_lem :
      (port h : ℕ) (e : L1Entry) (e2 : L2Entry)
      → value_for h s.pre.l1_entries ≡ some e
      → value_for e.l2_hdl s.pre.l2_entries ≡ some e2
      → node_lags s port h ≡ lags_to s.lag_entries port 0 e2.lag_map
  node_lags_lem port h e e2 node node2 = rw (node_lags, node, node2)

  all_nodes :
      (hs : List ℕ)
      → ((h : ℕ) → occurrences h hs ≢ 0 → value_for h s.pre.l1_entries ≢ none)
      → (outs : List McOut) × (replicate_nodes s hs ≡ some outs)
        × ((port : ℕ)
            → copies_to port outs ≡ nodes_with_port s.pre port hs + lags_with_port s port hs)
  unfolding replicate_nodes copies_to nodes_with_port lags_with_port occurrences
  all_nodes [] there = ([], refl, λ port. refl)
  all_nodes (h ∷ hs) there =
      let (outs, rest, counts) = all_nodes hs (λ i n. there i (λ z. n (omega (arith, z)))) in
      elim (Option-cases (value_for h s.pre.l1_entries)) [
        | inl f ↦ absurd (there h (λ z. absurd (ground (arith, z))) f)
        | inr (e, node) ↦ elim (Option-cases (value_for e.l2_hdl s.pre.l2_entries)) [
          | inl f ↦
              let gone : owner (value_for e.l2_hdl s.pre.l2_entries) ≡ none = ap owner f in
              absurd (cc (gone, v.base.owned h e node))
          | inr (e2, node2) ↦
              let first = copies e.rid 0 e2.port_map in
              let second = lag_copies s.lag_entries e.rid 0 e2.lag_map in
              (
                first ++ (second ++ outs),
                nodes_step h hs e e2 outs node node2 rest,
                λ port. omega (
                  arith,
                  copies_to-append port first (second ++ outs),
                  copies_to-append port second outs,
                  counts port,
                  first_port e.rid port e2.port_map,
                  lag_copies_lem port e.rid 0 e2.lag_map,
                  has_port_node s.pre v.base port h e e2 node node2,
                  node_lags_lem port h e e2 node node2,
                ),
              )
        ]
      ]

  -- In a valid state, replication to a group never throws, and gives each port one copy for each
  -- node of the group that has it and one for each LAG of such a node whose member number 255,
  -- modulo the number of members, is that port.
  pub replicate-lag_copies :
      (g : ℕ)
      → (outs : List McOut) × (replicate s g ≡ some outs)
        × ((port : ℕ)
            → copies_to port outs
              ≡ nodes_with_port s.pre port (list_of (value_for g s.pre.mgid_entries))
                + lags_with_port s port (list_of (value_for g s.pre.mgid_entries)))
  unfolding replicate copies_to nodes_with_port lags_with_port
  replicate-lag_copies g = elim (Option-cases (value_for g s.pre.mgid_entries)) [
    | inl f ↦ ([], rw (f, replicate), λ port. rw f)
    | inr (me, f) ↦
        let (outs, done, counts) = all_nodes me.l1_list (λ h n.
          member_node s.pre v.base g h
            (λ z. n (ap (λ o. occurrences h (list_of o)) (sym f) ∙ z))) in
        (outs, rw (f, replicate) done, λ port. rw f (counts port))
  ]
