-- ===== src/Profiles/Reads.antt =====
-- src/bm_sim/action_profile.cpp: what a packet or a client reads: `lookup`, `get_members` and
-- `get_groups`. The hash of a packet is a parameter, and so is whether there is one. Nothing is read
-- where an assertion fails, where `at` throws, or where a vector is accessed behind its end.
use prog_tm_bmv.Base.{
  ℕ, ◌+◌, ◌%◌, ◌^◌, ltb, Bool, if◌then◌else◌, ◌||◌, List, [], ◌∷◌, length, get_elem?, set,
  replicate, map, Option, none, some,
}
use prog_tm_bmv.Handles.Walk.{visited}
use prog_tm_bmv.Profiles.Parts
use prog_tm_bmv.Profiles.Parts.{FlatSet, is_mbr, get_from_hash}
use prog_tm_bmv.Profiles.{ActionProfile, is_valid_mbr, is_valid_grp}

-- A vector filled from `idx` on with what is read one after the other.
unfoldable pub fill :
    {A : Type 0} → List (Option A) → ℕ → List (Option A) → Option (List (Option A))
fill v idx [] = some v
fill v idx (none ∷ xs) = none
fill v idx (some x ∷ xs) =
    let rest = fill (set v idx (some x)) (idx + 1) xs in if ltb idx (length v) then rest else none

-- The handle with what `at` gives for it.
unfoldable pub read_at : {A : Type 0} → List A → ℕ → Option (ℕ × A)
read_at xs h = elim (get_elem? xs h) [ none ↦ none | some x ↦ some (h, x) ]

module _ (S : FlatSet) (Entry : Type 0) where
  unfoldable pub choose_from_group : ActionProfile S Entry → ℕ → Option ℕ → Option ℕ
  choose_from_group s grp hash = elim hash [
    | none ↦ get_from_hash S s.groups grp 0
    | some output ↦ get_from_hash S s.groups grp (output % 2 ^ 32)
  ]

  unfoldable pub lookup : ActionProfile S Entry → Bool → Option ℕ → ℕ → Option Entry
  lookup s with_selection hash index =
      let mbr =
        if is_mbr index
        then some (Parts.get index)
        else if is_valid_grp S Entry s (Parts.get index)
        then choose_from_group s (Parts.get index) hash
        else none in
      if is_mbr index || with_selection
      then (elim mbr [
        | none ↦ none
        | some m ↦ if is_valid_mbr S Entry s m then get_elem? s.action_entries m else none
      ])
      else none

  -- the handles of the members, each with its entry
  unfoldable pub get_members : ActionProfile S Entry → Option (List (Option (ℕ × Entry)))
  get_members s =
      fill (replicate s.num_members none) 0 (map (read_at s.action_entries) (visited s.mbr_handles))

  -- the handles of the groups, each with the handles of its members
  unfoldable pub get_groups : ActionProfile S Entry → Option (List (Option (ℕ × List ℕ)))
  get_groups s =
      fill (replicate s.num_groups none) 0
        (map (read_at (map (λ x. S.elements x) s.groups)) (visited s.grp_handles))
