-- ===== src/Profiles/Refs.antt =====
-- What an operation of ActionProfile on one group or on one member leaves of the counts of references.
use prog_tm_bmv.Base.{
  ℕ, ◌+◌, ◌-◌, ◌^◌, ◌≤◌, ◌<◌, ◌≡◌, ◌≢◌, ap, ◌∙◌, arith, ◌==◌, Bool, true, false, not, ◌&&◌, ◌||◌,
  if◌then◌else◌, Bool-cases, inl, inr, List, length, get_or, set, length-set, as_bit, ==_refl,
  sum_below, sum_below_change, sum_below-at, sum_below-le,
}
use prog_tm_bmv.Handles.{HandleMgr}
use prog_tm_bmv.Handles.Inv.{live}
use prog_tm_bmv.Profiles.Parts.{FlatSet, add_at}
use prog_tm_bmv.Profiles.Inv.{IsFlatSet, References, holds, groups_with, Counted, get_or-set}
use prog_tm_bmv.Profiles.Counts.{one_more, one_less}

as_bit_small : (b : Bool) → as_bit b < 2
as_bit_small true = omega arith
as_bit_small false = omega arith

module _ (S : FlatSet) (mh gh : HandleMgr) (gs : List S.Carrier) (mc gc : List ℕ) (r : References)
    (v : Counted S mh gh gs mc gc r) where
  -- One group has changed, and each count with it.
  pub change-Counted :
      (gh' : HandleMgr) (gs' : List S.Carrier) (mc' : List ℕ) (g : ℕ)
      → length gs' ≡ length gs
      → g < length gs
      → ((m j : ℕ) → j ≢ g → holds S gh' gs' m j ≡ holds S gh gs m j)
      → ((m : ℕ) → get_or mc' m 0 + holds S gh gs m g ≡ get_or mc m 0 + holds S gh' gs' m g)
      → ((m : ℕ) → live mh m ≡ 0 → holds S gh' gs' m g ≤ holds S gh gs m g)
      → ((j : ℕ) → live gh' j ≡ 0 → r.to_groups j ≡ 0)
      → Counted S mh gh' gs' mc' gc r
  unfolding groups_with
  change-Counted gh' gs' mc' g l h other counts dead dead' = record {
    member_counts = λ m. omega (arith, moved m, v.member_counts m, counts m);
    group_counts = v.group_counts;
    unused_members = λ m z. omega (arith, moved m, v.unused_members m z, dead m z);
    unused_groups = dead';
  }
    where
      moved :
          (m : ℕ)
          → groups_with S gh' gs' m + holds S gh gs m g
            ≡ groups_with S gh gs m + holds S gh' gs' m g
      moved m =
          ap (λ n. sum_below (holds S gh' gs' m) n + holds S gh gs m g) l
          ∙ sum_below_change (holds S gh gs m) (holds S gh' gs' m) (length gs) g h (other m)

  -- The handles of the members are others, with the same that are referred to.
  pub rehandle-Counted :
      (mh' : HandleMgr) (mc' : List ℕ)
      → ((m : ℕ) → get_or mc' m 0 ≡ get_or mc m 0)
      → ((m : ℕ) → live mh' m ≡ 0 → groups_with S gh gs m + r.to_members m ≡ 0)
      → Counted S mh' gh gs mc' gc r
  rehandle-Counted mh' mc' same dead = record {
    member_counts = λ m. same m ∙ v.member_counts m;
    group_counts = v.group_counts;
    unused_members = dead;
    unused_groups = v.unused_groups;
  }

  -- A member of a live group is counted.
  pub counted_member :
      (g m : ℕ)
      → g < length gs
      → live gh g ≡ 1
      → as_bit (S.has m (get_or gs g S.empty)) ≤ get_or mc m 0
  unfolding holds groups_with
  counted_member g m h alive =
      omega (arith, v.member_counts m, sum_below-at (holds S gh gs m) (length gs) g h, here)
    where
      here : holds S gh gs m g ≡ as_bit (S.has m (get_or gs g S.empty))
      here = rw alive

  -- A count is at most that of the groups, and of the match entries.
  pub count_bounded : (m : ℕ) → get_or mc m 0 ≤ length gs + r.to_members m
  unfolding groups_with holds
  count_bounded m =
      omega
        (arith, v.member_counts m, sum_below-le (holds S gh gs m) (length gs) (λ j. as_bit_small _))

  holds-set :
      (g : ℕ) (x : S.Carrier) (m j : ℕ)
      → g < length gs
      → holds S gh (set gs g x) m j
        ≡ (if j == g then as_bit ((live gh g == 1) && S.has m x) else holds S gh gs m j)
  unfolding holds
  holds-set g x m j h =
      ap (λ y. as_bit ((live gh j == 1) && S.has m y)) (get_or-set gs g x j S.empty h)
      ∙ (elim (Bool-cases (j == g)) [
        | inl y ↦ let this : j ≡ g = ground arith in rw (this, ==_refl g)
        | inr y ↦ rw y
      ])

  -- A live group has another set of members.
  pub set-Counted :
      (g : ℕ) (x : S.Carrier) (mc' : List ℕ)
      → g < length gs
      → live gh g ≡ 1
      → ((m : ℕ)
          → get_or mc' m 0 + as_bit (S.has m (get_or gs g S.empty))
            ≡ get_or mc m 0 + as_bit (S.has m x))
      → ((m : ℕ) → live mh m ≡ 0 → as_bit (S.has m x) ≤ as_bit (S.has m (get_or gs g S.empty)))
      → Counted S mh gh (set gs g x) mc' gc r
  unfolding holds
  set-Counted g x mc' h alive counts dead =
      change-Counted gh (set gs g x) mc' g (length-set gs g x) h
        (λ m j n. let off : (j == g) ≡ false = ground arith in holds-set g x m j h ∙ rw off)
        (λ m. omega (arith, counts m, now m, before m))
        (λ m z. omega (arith, dead m z, now m, before m)) v.unused_groups
    where
      before : (m : ℕ) → holds S gh gs m g ≡ as_bit (S.has m (get_or gs g S.empty))
      before m = rw alive

      now : (m : ℕ) → holds S gh (set gs g x) m g ≡ as_bit (S.has m x)
      now m = holds-set g x m g h ∙ rw (==_refl g, alive)

  module _ (laws : IsFlatSet S) (g m : ℕ) (h : g < length gs) (alive : live gh g ≡ 1)
      (member : live mh m ≡ 1) where
    abbrev was : S.Carrier
    was = get_or gs g S.empty

    has_inserted : (k : ℕ) → as_bit (S.has k (S.insert m was)) ≡ as_bit (k == m || S.has k was)
    has_inserted k = ap as_bit (laws.has-insert m k was)

    has_erased : (k : ℕ) → as_bit (S.has k (S.erase m was)) ≡ as_bit (not (k == m) && S.has k was)
    has_erased k = ap as_bit (laws.has-erase m k was)

    other_dead : (k : ℕ) → live mh k ≡ 0 → (k == m) ≡ false
    other_dead k z = elim (Bool-cases (k == m)) [
      | inl y ↦
          let this : k ≡ m = ground arith in absurd (omega (arith, z, member, ap (live mh) this))
      | inr y ↦ y
    ]

    at_place : (k : ℕ) → (k == m) ≡ true → S.has k was ≡ S.has m was
    at_place k y = let this : k ≡ m = ground arith in ap (λ j. S.has j was) this

    -- The member is added to the group, whether it is there or not.
    pub insert-Counted :
        S.has m was ≡ false
        → m < length mc
        → get_or mc m 0 + 1 < 2 ^ 32
        → Counted S mh gh (set gs g (S.insert m was)) (add_at mc m 1) gc r
    insert-Counted out inside fits =
        set-Counted g (S.insert m was) (add_at mc m 1) h alive
          (λ k. ground (arith, one_more mc m k inside fits, has_inserted k, at_place k, out))
          (λ k z. ground (arith, has_inserted k, other_dead k z))

    pub insert_again-Counted :
        S.has m was ≡ true → Counted S mh gh (set gs g (S.insert m was)) mc gc r
    insert_again-Counted there =
        set-Counted g (S.insert m was) mc h alive
          (λ k. ground (arith, has_inserted k, at_place k, there))
          (λ k z. ground (arith, has_inserted k, other_dead k z))

    -- The member is taken out of the group, whether it is there or not.
    pub erase-Counted :
        S.has m was ≡ true
        → m < length mc
        → 0 < get_or mc m 0
        → get_or mc m 0 < 2 ^ 32
        → Counted S mh gh (set gs g (S.erase m was)) (add_at mc m (2 ^ 32 - 1)) gc r
    erase-Counted there inside used fits =
        set-Counted g (S.erase m was) (add_at mc m (2 ^ 32 - 1)) h alive
          (λ k. ground (arith, one_less mc m k inside used fits, has_erased k, at_place k, there))
          (λ k z. ground (arith, has_erased k, other_dead k z))

    pub erase_again-Counted :
        S.has m was ≡ false → Counted S mh gh (set gs g (S.erase m was)) mc gc r
    erase_again-Counted out =
        set-Counted g (S.erase m was) mc h alive
          (λ k. ground (arith, has_erased k, at_place k, out))
          (λ k z. ground (arith, has_erased k, other_dead k z))
