-- ===== src/Profiles/Renewed.antt =====
-- What making and deleting a group leaves of the counts of references of ActionProfile.
use prog_tm_bmv.Base.{
  ℕ, suc, ◌+◌, ◌≤◌, ◌<◌, ◌≡◌, refl, ap, ap₂, sym, ◌∙◌, arith, ◌==◌, false, ◌&&◌, if◌then◌else◌,
  Bool-cases, inl, inr, List, length, get_or, as_bit, occurrences, ==_refl, sum_below,
  sum_below_ext,
}
use prog_tm_bmv.Handles.{HandleMgr}
use prog_tm_bmv.Handles.Inv.{live}
use prog_tm_bmv.Profiles.Parts.{FlatSet}
use prog_tm_bmv.Profiles.Inv.{
  IsFlatSet, References, holds, groups_with, Counted, stored, length-stored, get_or-stored,
}
use prog_tm_bmv.Profiles.Refs.{change-Counted}

module _ (S : FlatSet) (mh gh : HandleMgr) (gs : List S.Carrier) (mc gc : List ℕ) (r : References)
    (v : Counted S mh gh gs mc gc r) where
  -- A group without entries that refer to it is no longer live, and its members are counted less.
  pub drop-Counted :
      IsFlatSet S
      → (gh' : HandleMgr) (mc' : List ℕ) (g : ℕ) → g < length gs
      → live gh g ≡ 1
      → get_or gc g 0 ≡ 0
      → ((j : ℕ) → live gh' j ≡ (if j == g then 0 else live gh j))
      → ((k : ℕ)
          → get_or mc' k 0 + occurrences k (S.elements (get_or gs g S.empty)) ≡ get_or mc k 0)
      → Counted S mh gh' gs mc' gc r
  unfolding holds
  drop-Counted laws gh' mc' g h alive unused after less =
      change-Counted S mh gh gs mc gc r v gh' gs mc' g refl h
        (λ m j n.
          let off : (j == g) ≡ false = ground arith in
          ap (λ l. as_bit ((l == 1) && S.has m (get_or gs j S.empty))) (after j ∙ rw off))
        (λ m. omega (arith, less m, laws.has-elements m (get_or gs g S.empty), now m, before m))
        (λ m z. omega (arith, now m))
        (λ j z. elim (Bool-cases (j == g)) [
          | inl y ↦
              let this : j ≡ g = ground arith in
              ap r.to_groups this ∙ sym (v.group_counts g) ∙ unused
          | inr y ↦ v.unused_groups j (sym (after j ∙ rw y) ∙ z)
        ])
    where
      gone : live gh' g ≡ 0
      gone = after g ∙ rw (==_refl g)

      before : (m : ℕ) → holds S gh gs m g ≡ as_bit (S.has m (get_or gs g S.empty))
      before m = rw alive

      now : (m : ℕ) → holds S gh' gs m g ≡ 0
      now m = rw gone

  -- A new group, at a handle that was not live, has no members.
  pub fresh-Counted :
      IsFlatSet S
      → (gh' : HandleMgr) (g : ℕ) → g ≤ length gs
      → g ≤ length gc
      → live gh g ≡ 0
      → ((j : ℕ) → live gh' j ≡ (if j == g then 1 else live gh j))
      → Counted S mh gh' (stored gs g S.empty) mc (stored gc g 0) r
  unfolding holds groups_with sum_below
  fresh-Counted laws gh' g h h2 dead after = record {
    member_counts = λ m. v.member_counts m ∙ ap (λ n. n + r.to_members m) (sym (same m));
    group_counts = λ j. get_or-stored gc g 0 j 0 h2 ∙ (elim (Bool-cases (j == g)) [
      | inl y ↦
          let this : g ≡ j = ground arith in
          rw y (sym (v.unused_groups g dead) ∙ ap r.to_groups this)
      | inr y ↦ rw y (v.group_counts j)
    ]);
    unused_members = λ m z. ap (λ n. n + r.to_members m) (same m) ∙ v.unused_members m z;
    unused_groups = λ j z. elim (Bool-cases (j == g)) [
      | inl y ↦ let now : live gh' j ≡ 1 = after j ∙ rw y in absurd (omega (arith, z, now))
      | inr y ↦ v.unused_groups j (sym (after j ∙ rw y) ∙ z)
    ];
  }
    where
      holds_same : (m j : ℕ) → holds S gh' (stored gs g S.empty) m j ≡ holds S gh gs m j
      holds_same m j =
          ap₂ (λ l x. as_bit ((l == 1) && S.has m x)) (after j)
            (get_or-stored gs g S.empty j S.empty h)
          ∙ (elim (Bool-cases (j == g)) [
            | inl y ↦ let this : j ≡ g = ground arith in rw (y, laws.has-empty m, this, dead)
            | inr y ↦ rw y
          ])

      one_more_zero : (f : ℕ → ℕ) (n : ℕ) → f n ≡ 0 → sum_below f (n + 1) ≡ sum_below f n
      one_more_zero f n z = ap (sum_below f) more ∙ omega (arith, z)
        where
          more : n + 1 ≡ suc n
          more = omega arith

      up_to :
          (m : ℕ)
          → sum_below (holds S gh gs m) (if g == length gs then length gs + 1 else length gs)
            ≡ sum_below (holds S gh gs m) (length gs)
      up_to m = elim (Bool-cases (g == length gs)) [
        | inl y ↦
            let this : length gs ≡ g = ground arith in
            rw y (one_more_zero (holds S gh gs m) (length gs) (rw (this, dead)))
        | inr y ↦ rw y
      ]

      same : (m : ℕ) → groups_with S gh' (stored gs g S.empty) m ≡ groups_with S gh gs m
      same m =
          sum_below_ext (holds S gh' (stored gs g S.empty) m) (holds S gh gs m)
            (length (stored gs g S.empty)) (λ j l. holds_same m j)
          ∙ ap (sum_below (holds S gh gs m)) (length-stored gs g S.empty)
          ∙ up_to m
