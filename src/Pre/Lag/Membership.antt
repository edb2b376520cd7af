-- ===== src/Pre/Lag/Membership.antt =====
-- `mc_set_lag_membership`, and the operations on nodes, of McSimplePreLAG.
use prog_tm_bmv.Base.{
  ℕ, zero, suc, ◌+◌, ◌-◌, ◌%◌, ◌^◌, ◌≤◌, ◌<◌, ◌≡◌, ◌≢◌, refl, ap, subst, sym, ◌∙◌, arith, Bool,
  true, false, ◌==◌, ltb, if◌then◌else◌, Bool-cases, Option-cases, List, [], ◌∷◌, length, get_or,
  get_elem?, get_elem?-none, some, inl, inr, value_for, has_key, assign, insert_new, ==_refl,
  value_for-assign_same, value_for-assign_other, value_for-insert_new_same,
  value_for-insert_new_other,
}
use native.Mathlib.Nat.{mod-lt}
use prog_tm_bmv.Pre.{Outcome, returns, success, PortMap, LagMap}
use prog_tm_bmv.Pre.Change.{some_equal}
use prog_tm_bmv.Pre.Create.{HasRoom, create_node-Keeps, update_node-Keeps}
use prog_tm_bmv.Pre.Lag.{
  LagEntry, McSimplePreLag, count_members, mc_set_lag_membership, mc_node_create, mc_node_update,
}
use prog_tm_bmv.Pre.Lag.Members.{members, chosen, CountsMembers, count_members_lem, IsValid}

-- A member is a port that is set.
member_set :
    (lo i q : ℕ) (m : PortMap)
    → get_elem? (members lo m) i ≡ some q
    → (lo ≤ q) × (get_or m (q - lo) false ≡ true)
unfolding members
member_set lo i q [] e = cc
member_set lo zero q (true ∷ bs) e =
    let this : lo ≡ q = some_equal (some lo) lo q refl e in
    (omega (arith, this), ap (λ j. get_or (true ∷ bs) j false) (first this))
  where
    first : lo ≡ q → q - lo ≡ 0
    first this = omega (arith, this)
member_set lo (suc i) q (true ∷ bs) e = later lo q true bs (member_set (lo + 1) i q bs e)
  where
    later :
        (lo q : ℕ) (b : Bool) (bs : PortMap)
        → (lo + 1 ≤ q) × (get_or bs (q - (lo + 1)) false ≡ true)
        → (lo ≤ q) × (get_or (b ∷ bs) (q - lo) false ≡ true)
    later lo q b bs (below, set) =
        let next : q - lo ≡ suc (q - (lo + 1)) = omega arith in
        (omega arith, ap (λ j. get_or (b ∷ bs) j false) next ∙ set)
member_set lo i q (false ∷ bs) e =
    let (below, set) = member_set (lo + 1) i q bs e in
    let next : q - lo ≡ suc (q - (lo + 1)) = omega arith in
    (omega arith, ap (λ j. get_or (false ∷ bs) j false) next ∙ set)

some_member : (lo p : ℕ) (m : PortMap) → get_or m p false ≡ true → 1 ≤ length (members lo m)
unfolding members
some_member lo p [] e = absurd (ground arith)
some_member lo p (true ∷ bs) e = omega arith
some_member lo zero (false ∷ bs) e = absurd (ground arith)
some_member lo (suc p) (false ∷ bs) e = some_member (lo + 1) p bs e

-- Of a LAG with a member, the chosen port is a member.
chosen_member :
    (e : LagEntry) (p : ℕ)
    → get_or e.port_map p false ≡ true
    → (q : ℕ) × (chosen (some e) ≡ some q) × (get_or e.port_map q false ≡ true)
chosen_member e p set =
    let ports = members 0 e.port_map in
    let positive : 1 ≤ length ports = some_member 0 p e.port_map set in
    let below : 255 % length ports < length ports = mod-lt 255 positive in
    elim (Option-cases (get_elem? ports (255 % length ports))) [
      | inl n ↦ absurd (omega (arith, below, get_elem?-none ports (255 % length ports) n))
      | inr (q, n) ↦ (
        q,
        n,
        ap (λ j. get_or e.port_map j false) (from_zero q)
            ∙ (member_set 0 (255 % length ports) q e.port_map n).1,
      )
    ]
  where
    from_zero : (q : ℕ) → q ≡ q - 0
    from_zero q = omega arith

-- What setting the members of a LAG does: it is valid, leaves the other LAGs, and if there is a member,
-- then copies for the LAG go to one.
pub record Sets (s : McSimplePreLag) (lag_index : ℕ) (m : PortMap) (r : Outcome × McSimplePreLag)
    : Type 0 where
  pub code : r.0 ≡ returns success
  pub valid : IsValid r.1
  pub others : (j : ℕ) → j ≢ lag_index → value_for j r.1.lag_entries ≡ value_for j s.lag_entries
  pub to_member :
      (p : ℕ)
      → get_or m p false ≡ true
      → (q : ℕ) × (chosen (value_for lag_index r.1.lag_entries) ≡ some q)
        × (get_or m q false ≡ true)

module _ (lag_index : ℕ) (e : LagEntry) (es : List (ℕ × LagEntry)) where
  abbrev stored : List (ℕ × LagEntry)
  stored = if has_key lag_index es then assign lag_index e es else insert_new lag_index e es

  stored_here : value_for lag_index stored ≡ some e
  stored_here = elim (Bool-cases (has_key lag_index es)) [
    | inl k ↦ rw k (value_for-assign_same lag_index e lag_index es k (==_refl lag_index))
    | inr k ↦ rw k (value_for-insert_new_same lag_index e lag_index es k (==_refl lag_index))
  ]

  stored_other : (j : ℕ) → (j == lag_index) ≡ false → value_for j stored ≡ value_for j es
  stored_other j o = elim (Bool-cases (has_key lag_index es)) [
    | inl k ↦ rw k (value_for-assign_other lag_index e j es k o)
    | inr k ↦ rw k (value_for-insert_new_other lag_index e j es k o)
  ]

module _ (s : McSimplePreLag) (v : IsValid s) where
  stored-IsValid :
      (i : ℕ) (e : LagEntry)
      → CountsMembers e
      → IsValid (record s { lag_entries = stored i e s.lag_entries })
  stored-IsValid i e c = record {
    base = v.base;
    counts = λ j x f. elim (Bool-cases (j == i)) [
      | inl y ↦
          let this : i ≡ j = ground arith in
          let same : e ≡ x =
            some_equal (value_for i (stored i e s.lag_entries)) e x (stored_here i e s.lag_entries)
              (ap (λ k. value_for k (stored i e s.lag_entries)) this ∙ f) in
          subst CountsMembers same c
      | inr y ↦ v.counts j x (sym (stored_other i e s.lag_entries j y) ∙ f)
    ];
  }

  -- In a valid state, setting the members of a LAG of an index up to 256, with fewer than 2 ^ 16
  -- ports, succeeds, keeps the state valid, leaves the other LAGs, and if there is a member then
  -- copies for the LAG go to one.
  pub mc_set_lag_membership-Sets :
      (lag_index : ℕ) (m : PortMap)
      → lag_index ≤ 256
      → length m < 2 ^ 16
      → Sets s lag_index m (mc_set_lag_membership s lag_index m)
  unfolding mc_set_lag_membership
  mc_set_lag_membership-Sets lag_index m below short =
      let e : LagEntry = record { member_count = count_members 0 m; port_map = m } in
      let in_range : ltb 256 lag_index ≡ false = ground arith in
      rw in_range (record {
        code = refl;
        valid = stored-IsValid lag_index e (count_members_lem 0 0 m (omega arith) ∙ omega arith);
        others = λ j n. stored_other lag_index e s.lag_entries j (ground arith);
        to_member = λ p set.
            let (q, c, t) = chosen_member e p set in
            (q, ap chosen (stored_here lag_index e s.lag_entries) ∙ c, t);
      })

  -- Creating a node with LAGs, and changing those of a node.
  pub mc_node_create-IsValid :
      (rid : ℕ) (port_map : PortMap) (lag_map : LagMap)
      → HasRoom s.pre
      → IsValid (mc_node_create s rid port_map lag_map).2
  unfolding mc_node_create
  mc_node_create-IsValid rid port_map lag_map room = record {
    base = (create_node-Keeps s.pre v.base rid port_map lag_map room).valid;
    counts = v.counts;
  }

  pub mc_node_update-IsValid :
      (h : ℕ) (port_map : PortMap) (lag_map : LagMap)
      → IsValid (mc_node_update s h port_map lag_map).1
  unfolding mc_node_update
  mc_node_update-IsValid h port_map lag_map = record {
    base =
        (update_node-Keeps s.pre v.base h (λ x. record x { port_map = port_map; lag_map = lag_map })
          (λ x. refl)).valid;
    counts = v.counts;
  }
