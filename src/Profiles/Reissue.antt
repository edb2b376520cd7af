-- ===== src/Profiles/Reissue.antt =====
-- The next `add_member` on a profile that was restored.
use prog_tm_bmv.Base.{
  ℕ, ==_refl, subst, lt→ltb, get_elem?-set_self, ◌<◌, ◌≡◌, ◌∙◌, arith, ◌==◌, ltb, true, false, List,
  [], ◌++◌, length, get_elem?, some,
}
use native.Mathlib.Decide.{dec_lt}
use prog_tm_bmv.Bitset
use prog_tm_bmv.Handles
use prog_tm_bmv.Handles.{HandleMgr}
use prog_tm_bmv.Handles.Inv.{live}
use prog_tm_bmv.Profiles.Parts.{FlatSet, success}
use prog_tm_bmv.Profiles.{ActionProfile, add_member, entries_insert}
use prog_tm_bmv.Profiles.Inv.{IsFlatSet, References}
use prog_tm_bmv.Profiles.Valid.{IsValid, inside_of_live}
use prog_tm_bmv.Profiles.Reach.{Reached, reached-IsValid, new_profile}
use prog_tm_bmv.Profiles.Save.{Saving, serialize, deserialize}
use prog_tm_bmv.Profiles.Reload.{IsRestored, IsLeft, reloaded}

module _ (S : FlatSet) (Entry : Type 0) (laws : IsFlatSet S) (saving : Saving Entry)
    (reads : (e : Entry) (rest : List ℕ) → saving.take_one (saving.put e ++ rest) ≡ (e, rest))
    (s : ActionProfile S Entry) (r : References) (h : Reached S Entry s r)
    (dense : (i j : ℕ) → j < i → live s.grp_handles i ≡ 1 → live s.grp_handles j ≡ 1) where
  abbrev valid : IsValid S Entry s r
  valid = (reached-IsValid S Entry laws s r h).0

  reissued :
      (s' : ActionProfile S Entry) (n : ℕ) (entry : Entry)
      → live s.mbr_handles 0 ≡ 1
      → IsRestored S Entry s s'
      → IsLeft S Entry s s'
      → (live s'.mbr_handles 0 ≡ 1)
        × ((add_member S Entry s' n n entry).0 ≡ success)
        × ((add_member S Entry s' n n entry).1 ≡ 0)
        × (get_elem? (add_member S Entry s' n n entry).2.action_entries 0 ≡ some entry)
  unfolding add_member entries_insert Handles.get_handle Bitset.size
  reissued s' n entry alive same extra = (
    same.members 0 ∙ alive,
    rw (==_refl n, extra.first alive, inside),
    rw (==_refl n, extra.first alive, inside),
    rw (==_refl n, extra.first alive, inside, not_at_end)
        (get_elem?-set_self s'.action_entries 0 entry long),
  )
    where
      long : 0 < length s'.action_entries
      long = omega (
        arith,
        inside_of_live s.mbr_handles valid.members.manager 0 alive,
        valid.members.items_length,
        extra.as_long,
      )

      not_at_end : (0 == length s'.action_entries) ≡ false
      not_at_end = ground (arith, long)

      inside : ltb 0 s'.mbr_handles.handles.num_bits ≡ true
      inside = lt→ltb _ _ (elim (dec_lt 0 s'.mbr_handles.handles.num_bits) [
        | yes l ↦ l
        | no g ↦
            absurd (omega (arith, same.members 0, alive, extra.bits.clear_above 0 (omega arith)))
      ])

  -- If a profile that calls lead to, with member 0 live and no group that was deleted below a live
  -- one, is written and read back into a new profile, then the next add_member succeeds with
  -- handle 0, which is live, and replaces the entry of that member; if reading an entry gives back
  -- what writing it wrote.
  pub add_member-reissues :
      (stream : List ℕ) (s' : ActionProfile S Entry) (left : List ℕ) (n : ℕ) (entry : Entry)
      → live s.mbr_handles 0 ≡ 1
      → serialize S Entry saving s ≡ some stream
      → deserialize S Entry saving (new_profile S Entry) stream ≡ some (s', left)
      → (live s'.mbr_handles 0 ≡ 1)
        × ((add_member S Entry s' n n entry).0 ≡ success)
        × ((add_member S Entry s' n n entry).1 ≡ 0)
        × (get_elem? (add_member S Entry s' n n entry).2.action_entries 0 ≡ some entry)
  add_member-reissues stream s' left n entry alive e d =
      let (stream0, e0, s0, d0, same, extra) = reloaded S Entry laws saving reads s r h dense in
      let here : stream0 ≡ stream = cc (e, e0) in
      let d1 : deserialize S Entry saving (new_profile S Entry) stream ≡ some (s0, []) =
        subst (λ w. deserialize S Entry saving (new_profile S Entry) w ≡ some (s0, [])) here d0 in
      let this : s0 ≡ s' = cc (d, d1) in
      subst
        (λ w.
          (live w.mbr_handles 0 ≡ 1)
          × ((add_member S Entry w n n entry).0 ≡ success)
          × ((add_member S Entry w n n entry).1 ≡ 0)
          × (get_elem? (add_member S Entry w n n entry).2.action_entries 0 ≡ some entry))
        this (reissued s0 n entry alive same extra)
