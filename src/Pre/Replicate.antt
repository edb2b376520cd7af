-- ===== src/Pre/Replicate.antt =====
-- `replicate` of McSimplePre, by the number of copies that each port gets, and what happens to the nodes
-- of a group that is destroyed.
use prog_tm_bmv.Base.{
  as_bit, occurrences, ℕ, suc, ◌+◌, ◌-◌, ◌≡◌, ◌≢◌, refl, ap, sym, ◌∙◌, arith, Bool, true, false,
  ◌==◌, leb, if◌then◌else◌, Option-cases, List, [], ◌∷◌, ◌++◌, get_or, none, some, inl, inr,
  value_for, is_some, ==_refl, erase, value_for-erase_same,
}
use native.Mathlib.Decide.{dec_lt}
use prog_tm_bmv.Handles
use prog_tm_bmv.Handles.Release.{valid_handle_lem}
use prog_tm_bmv.Pre.{
  throws, McOut, L1Entry, L2Entry, McSimplePre, PortMap, copies, replicate_nodes, replicate,
  mc_mgrp_destroy, mc_node_destroy,
}
use prog_tm_bmv.Pre.Inv.{list_of, is_member, owner, IsValid}
use prog_tm_bmv.Pre.Life.{destroy_throws}

-- the copies that go to a port
unfoldable pub copies_to : ℕ → List McOut → ℕ
copies_to port [] = 0
copies_to port (o ∷ os) = as_bit (o.egress_port == port) + copies_to port os

-- 1 if the node has the port, else 0
abbrev pub has_port : McSimplePre → ℕ → ℕ → ℕ
has_port s port h = elim (value_for h s.l1_entries) [
  | none ↦ 0
  | some e ↦ elim (value_for e.l2_hdl s.l2_entries) [
    | none ↦ 0
    | some e2 ↦ as_bit (get_or e2.port_map port false)
  ]
]

-- the nodes of a list that have a port
unfoldable pub nodes_with_port : McSimplePre → ℕ → List ℕ → ℕ
nodes_with_port s port [] = 0
nodes_with_port s port (h ∷ hs) = has_port s port h + nodes_with_port s port hs

pub copies_to-append :
    (port : ℕ) (xs ys : List McOut)
    → copies_to port (xs ++ ys) ≡ copies_to port xs + copies_to port ys
unfolding copies_to
copies_to-append port [] ys = omega arith
copies_to-append port (x ∷ xs) ys = omega (arith, copies_to-append port xs ys)

copies_to-copies :
    (rid port lo : ℕ) (m : PortMap)
    → copies_to port (copies rid lo m)
      ≡ (if leb lo port then as_bit (get_or m (port - lo) false) else 0)
unfolding copies_to copies
copies_to-copies rid port lo [] = ground arith
copies_to-copies rid port lo (b ∷ bs) = head b ∙ (elim (dec_lt lo port) [
  | yes later ↦
      let next : port - lo ≡ suc (port - (lo + 1)) = omega arith in
      rw next (ground (arith, copies_to-copies rid port (lo + 1) bs))
  | no not_later ↦ elim (dec_lt port lo) [
    | yes before ↦ ground (arith, copies_to-copies rid port (lo + 1) bs)
    | no here ↦
        let this : lo ≡ port = omega arith in
        let first : port - lo ≡ 0 = omega arith in
        rw first (ground (arith, copies_to-copies rid port (lo + 1) bs))
  ]
])
  where
    head :
        (t : Bool)
        → copies_to port (
            if t
            then record { rid = rid; egress_port = lo } ∷ copies rid (lo + 1) bs
            else copies rid (lo + 1) bs)
          ≡ (if t then as_bit (lo == port) else 0) + copies_to port (copies rid (lo + 1) bs)
    head true = refl
    head false = omega arith

pub first_port :
    (rid port : ℕ) (m : PortMap) → copies_to port (copies rid 0 m) ≡ as_bit (get_or m port false)
first_port rid port m =
    copies_to-copies rid port 0 m ∙ ground (arith, ap (λ p. get_or m p false) same)
  where
    same : port - 0 ≡ port
    same = omega arith

module _ (s : McSimplePre) (v : IsValid s) where
  replicate_nodes_step :
      (h : ℕ) (hs : List ℕ) (e : L1Entry) (e2 : L2Entry) (outs : List McOut)
      → value_for h s.l1_entries ≡ some e
      → value_for e.l2_hdl s.l2_entries ≡ some e2
      → replicate_nodes s hs ≡ some outs
      → replicate_nodes s (h ∷ hs) ≡ some (copies e.rid 0 e2.port_map ++ outs)
  unfolding replicate_nodes
  replicate_nodes_step h hs e e2 outs node node2 rest = rw (node, node2, rest, replicate_nodes)

  pub has_port_node :
      (port h : ℕ) (e : L1Entry) (e2 : L2Entry)
      → value_for h s.l1_entries ≡ some e
      → value_for e.l2_hdl s.l2_entries ≡ some e2
      → has_port s port h ≡ as_bit (get_or e2.port_map port false)
  has_port_node port h e e2 node node2 = rw (has_port, node, node2)

  -- All nodes of a list that have L1 entries are replicated to.
  replicate_nodes_all :
      (hs : List ℕ)
      → ((h : ℕ) → occurrences h hs ≢ 0 → value_for h s.l1_entries ≢ none)
      → (outs : List McOut) × (replicate_nodes s hs ≡ some outs)
        × ((port : ℕ) → copies_to port outs ≡ nodes_with_port s port hs)
  unfolding replicate_nodes copies_to nodes_with_port occurrences
  replicate_nodes_all [] there = ([], refl, λ port. refl)
  replicate_nodes_all (h ∷ hs) there =
      let (outs, rest, counts) =
        replicate_nodes_all hs (λ i n. there i (λ z. n (omega (arith, z)))) in
      elim (Option-cases (value_for h s.l1_entries)) [
        | inl f ↦ absurd (there h (λ z. absurd (ground (arith, z))) f)
        | inr (e, node) ↦ elim (Option-cases (value_for e.l2_hdl s.l2_entries)) [
          | inl f ↦
              let gone : owner (value_for e.l2_hdl s.l2_entries) ≡ none = ap owner f in
              absurd (cc (gone, v.owned h e node))
          | inr (e2, node2) ↦ (
            copies e.rid 0 e2.port_map ++ outs,
            replicate_nodes_step h hs e e2 outs node node2 rest,
            λ port. omega (
              arith,
              copies_to-append port (copies e.rid 0 e2.port_map) outs,
              counts port,
              has_port_node port h e e2 node node2,
              first_port e.rid port e2.port_map,
            ),
          )
        ]
      ]

  pub member_node :
      (g h : ℕ)
      → occurrences h (list_of (value_for g s.mgid_entries)) ≢ 0
      → value_for h s.l1_entries ≢ none
  member_node g h n f = n (v.members g h ∙ ap (λ o. as_bit (is_member g o)) f)

  -- In a valid state, replication to a group never throws, and gives each port one copy for each
  -- node of the group that has it; a group that is not known gives none.
  pub replicate-copies_to :
      (g : ℕ)
      → (outs : List McOut) × (replicate s g ≡ some outs)
        × ((port : ℕ)
            → copies_to port outs ≡ nodes_with_port s port (list_of (value_for g s.mgid_entries)))
  unfolding replicate copies_to nodes_with_port
  replicate-copies_to g = elim (Option-cases (value_for g s.mgid_entries)) [
    | inl f ↦ ([], rw (f, replicate), λ port. rw f)
    | inr (me, f) ↦
        let (outs, done, counts) =
          replicate_nodes_all me.l1_list
            (λ h n. member_node g h (λ z. n (ap (λ o. occurrences h (list_of o)) (sym f) ∙ z))) in
        (outs, rw (f, replicate) done, λ port. rw f (counts port))
  ]

  -- In a valid state, if a group is destroyed that has a node, then destroying that node throws.
  pub mc_node_destroy_throws :
      (h : ℕ) (e : L1Entry)
      → value_for h s.l1_entries ≡ some e
      → e.is_associated ≡ true
      → (mc_node_destroy (mc_mgrp_destroy s e.mgrp_hdl).1 h).0 ≡ throws
  unfolding mc_mgrp_destroy
  mc_node_destroy_throws h e node a =
      ap (λ r. r.0)
        (destroy_throws (record s { mgid_entries = erase e.mgrp_hdl s.mgid_entries }) h good e node
          a (value_for-erase_same e.mgrp_hdl e.mgrp_hdl s.mgid_entries (==_refl e.mgrp_hdl)))
    where
      good : Handles.valid_handle s.l1_handles h ≡ true
      good =
          valid_handle_lem s.l1_handles v.l1_manager h
          ∙ ap (λ n. n == 1) (v.l1_used h ∙ ap (λ o. as_bit (is_some o)) node)
