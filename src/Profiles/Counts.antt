-- ===== src/Profiles/Counts.antt =====
-- The counts of references of ActionProfile, by the index of a member or of a group.
use prog_tm_bmv.Base.{
  ℕ, ◌+◌, ◌-◌, ◌/◌, ◌%◌, ◌^◌, ◌≤◌, ◌<◌, ◌≡◌, refl, ap, ◌∙◌, arith, ◌==◌, true, false, List, [], ◌∷◌,
  length, get_or, get_or_above, length-set, as_bit, occurrences, ==_refl, Bool-cases, inl, inr,
}
use native.Mathlib.Decide.{dec_lt}
use prog_tm_bmv.Profiles.Parts.{
  IndirectIndexRefCount, set_count, get_count, increase, decrease, make_mbr_index, make_grp_index,
  add_at, decrease_each,
}
use prog_tm_bmv.Profiles.Inv.{stored, get_or-set}

module _ (c : IndirectIndexRefCount) (mbr : ℕ) (small : mbr < 2 ^ 24) where
  names_member : (mbr / 2 ^ 24 == 0) ≡ true
  names_member = ground arith

  at_member : mbr % 2 ^ 24 ≡ mbr
  at_member = omega arith

  pub get_count-mbr : get_count c (make_mbr_index mbr) ≡ get_or c.mbr_count mbr 0
  unfolding get_count
  get_count-mbr = rw (names_member, at_member)

  pub set_count-mbr :
      (n : ℕ)
      → set_count c (make_mbr_index mbr) n ≡ record c { mbr_count = stored c.mbr_count mbr n }
  unfolding set_count
  set_count-mbr n = rw (names_member, at_member)

  pub increase-mbr :
      increase c (make_mbr_index mbr) ≡ record c { mbr_count = add_at c.mbr_count mbr 1 }
  unfolding increase
  increase-mbr = rw (names_member, at_member)

  pub decrease-mbr :
      decrease c (make_mbr_index mbr) ≡ record c { mbr_count = add_at c.mbr_count mbr (2 ^ 32 - 1) }
  unfolding decrease
  decrease-mbr = rw (names_member, at_member)

module _ (c : IndirectIndexRefCount) (grp : ℕ) (small : grp < 2 ^ 24) where
  names_group : ((2 ^ 24 + grp) / 2 ^ 24 == 0) ≡ false
  names_group = ground arith

  at_group : (2 ^ 24 + grp) % 2 ^ 24 ≡ grp
  at_group = omega arith

  pub get_count-grp : get_count c (make_grp_index grp) ≡ get_or c.grp_count grp 0
  unfolding get_count
  get_count-grp = rw (names_group, at_group)

  pub set_count-grp :
      (n : ℕ)
      → set_count c (make_grp_index grp) n ≡ record c { grp_count = stored c.grp_count grp n }
  unfolding set_count
  set_count-grp n = rw (names_group, at_group)

  pub increase-grp :
      increase c (make_grp_index grp) ≡ record c { grp_count = add_at c.grp_count grp 1 }
  unfolding increase
  increase-grp = rw (names_group, at_group)

  pub decrease-grp :
      decrease c (make_grp_index grp) ≡ record c { grp_count = add_at c.grp_count grp (2 ^ 32 - 1) }
  unfolding decrease
  decrease-grp = rw (names_group, at_group)

-- A count goes up or down by one, and no other changes.
module _ (v : List ℕ) (i k : ℕ) (inside : i < length v) where
  pub one_more :
      get_or v i 0 + 1 < 2 ^ 32 → get_or (add_at v i 1) k 0 ≡ get_or v k 0 + as_bit (i == k)
  one_more fits =
      get_or-set v i ((get_or v i 0 + 1) % 2 ^ 32) k 0 inside
      ∙ ground (arith, ap (λ j. get_or v j 0))

  pub one_less :
      0 < get_or v i 0
      → get_or v i 0 < 2 ^ 32
      → get_or (add_at v i (2 ^ 32 - 1)) k 0 + as_bit (i == k) ≡ get_or v k 0
  one_less used fits =
      ap (λ n. n + as_bit (i == k))
        (get_or-set v i ((get_or v i 0 + (2 ^ 32 - 1)) % 2 ^ 32) k 0 inside)
      ∙ (elim (Bool-cases (k == i)) [
        | inl y ↦
            let this : k ≡ i = ground arith in rw (this, ==_refl i) (omega (arith, used, fits))
        | inr y ↦ let off : (i == k) ≡ false = ground arith in rw (y, off) (omega arith)
      ])

inside_of_used : (v : List ℕ) (i : ℕ) → 0 < get_or v i 0 → i < length v
inside_of_used v i h = elim (dec_lt i (length v)) [
  | yes l ↦ l
  | no g ↦ absurd (omega (arith, get_or_above v i 0 (omega arith)))
]

-- The loop of `delete_group` takes from each count the number of times that its member occurs.
pub decrease_each_lem :
    (c : IndirectIndexRefCount) (mbrs : List ℕ)
    → length c.mbr_count ≤ 2 ^ 24
    → ((k : ℕ) → occurrences k mbrs ≤ get_or c.mbr_count k 0)
    → ((k : ℕ) → get_or c.mbr_count k 0 < 2 ^ 32)
    → (v : List ℕ) × (decrease_each c mbrs ≡ record c { mbr_count = v })
      × (length v ≡ length c.mbr_count)
      × ((k : ℕ) → get_or v k 0 + occurrences k mbrs ≡ get_or c.mbr_count k 0)
unfolding decrease_each occurrences
decrease_each_lem c [] small used fits = (c.mbr_count, refl, refl, λ k. omega arith)
decrease_each_lem c (x ∷ xs) small used fits =
    let (v, e, l, less) =
      decrease_each_lem (record c { mbr_count = w }) xs
        (omega (arith, length-set c.mbr_count x _, small)) (λ k. omega (arith, used k, taken k))
        (λ k. omega (arith, fits k, taken k)) in
    (
      v,
      ap (λ d. decrease_each d xs) (decrease-mbr c x (omega (arith, inside, small))) ∙ e,
      l ∙ length-set c.mbr_count x _,
      λ k. omega (arith, less k, taken k),
    )
  where
    w : List ℕ
    w = add_at c.mbr_count x (2 ^ 32 - 1)

    positive : 0 < get_or c.mbr_count x 0
    positive = omega (arith, used x, ap as_bit (==_refl x))

    inside : x < length c.mbr_count
    inside = inside_of_used c.mbr_count x positive

    taken : (k : ℕ) → get_or w k 0 + as_bit (x == k) ≡ get_or c.mbr_count k 0
    taken k = one_less c.mbr_count x k inside positive (fits x)
