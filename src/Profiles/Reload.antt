-- ===== src/Profiles/Reload.antt =====
-- A profile that is written by `serialize` and read back by `deserialize` into a new one.
use prog_tm_bmv.Base.{
  ℕ, ◌<◌, ◌≡◌, refl, ap, sym, ◌∙◌, arith, List, [], ◌∷◌, ◌++◌, length, get_or, get_elem?, some,
}
use prog_tm_bmv.Bitset
use prog_tm_bmv.Bitset.Access.{bit_at_small, bit_at-nil}
use prog_tm_bmv.Bitset.Inv.{empty-IsValid}
use prog_tm_bmv.Handles
use prog_tm_bmv.Handles.{HandleMgr}
use prog_tm_bmv.Handles.Inv
use prog_tm_bmv.Handles.Inv.{live}
use prog_tm_bmv.Handles.Walk.{visited_lem, live_list}
use prog_tm_bmv.Profiles.Parts.{FlatSet}
use prog_tm_bmv.Profiles.{ActionProfile}
use prog_tm_bmv.Profiles.Inv.{IsFlatSet, References}
use prog_tm_bmv.Profiles.Valid.{IsValid, inside_of_live}
use prog_tm_bmv.Profiles.Reach.{Reached, reached-IsValid, new_profile}
use prog_tm_bmv.Profiles.Listed.{number-live_list}
use prog_tm_bmv.Profiles.Save.{
  Saving, serialize, written, deserialize, save_members, save_groups, read_members, read_groups,
}
use prog_tm_bmv.Profiles.Restored.{Restores}
use prog_tm_bmv.Profiles.Reloaded.{IsReady, members_loop}
use prog_tm_bmv.Profiles.Regrouped.{groups_loop}
use prog_tm_bmv.Profiles.Pieces.{blank, length-blank, rest_of, deserialize_parts}

-- What is restored: the live handles, the entries of the live members, the members of the live groups, and
-- all counts and numbers.
pub record IsRestored (S : FlatSet) (Entry : Type 0) (s s' : ActionProfile S Entry) : Type 0 where
  pub members : (i : ℕ) → live s'.mbr_handles i ≡ live s.mbr_handles i
  pub groups_ : (i : ℕ) → live s'.grp_handles i ≡ live s.grp_handles i
  pub entries :
      (i : ℕ)
      → live s.mbr_handles i ≡ 1
      → get_elem? s'.action_entries i ≡ get_elem? s.action_entries i
  pub group_members :
      (x g : ℕ)
      → live s.grp_handles g ≡ 1
      → S.has x (get_or s'.groups g S.empty) ≡ S.has x (get_or s.groups g S.empty)
  pub counts : s'.index_ref_count ≡ s.index_ref_count
  pub numbers : (s'.num_members ≡ s.num_members) × (s'.num_groups ≡ s.num_groups)

-- what else is so after that
pub record IsLeft (S : FlatSet) (Entry : Type 0) (s s' : ActionProfile S Entry) : Type 0 where
  pub bits : Bitset.Inv.IsValid s'.mbr_handles.handles
  pub as_long : length s'.action_entries ≡ length s.action_entries
  pub first : live s.mbr_handles 0 ≡ 1 → s'.mbr_handles.first_unset ≡ 0

append_nil : {A : Type 0} → (xs : List A) → xs ++ [] ≡ xs
append_nil [] = refl
append_nil (x ∷ xs) = ap (◌∷◌ x) (append_nil xs)

fresh-IsReady : (f : ℕ → ℕ) → IsReady f Handles.fresh 0
fresh-IsReady f = record { bits_valid = empty-IsValid; above = λ i l. bit_at-nil i }

-- Restoring all live handles into a new manager.
restored_all :
    (m : HandleMgr)
    → Handles.Inv.IsValid m
    → (m' : HandleMgr) → Restores (live m) 0 m.handles.num_bits Handles.fresh m'
    → (i : ℕ) → live m' i ≡ live m i
restored_all m v m' r i = r.lives i ∙ ground (arith, v.bits.clear_above i, bit_at-nil i)

module _ (S : FlatSet) (Entry : Type 0) (laws : IsFlatSet S) (saving : Saving Entry)
    (reads : (e : Entry) (rest : List ℕ) → saving.take_one (saving.put e ++ rest) ≡ (e, rest))
    (s : ActionProfile S Entry) (r : References) (h : Reached S Entry s r)
    (dense : (i j : ℕ) → j < i → live s.grp_handles i ≡ 1 → live s.grp_handles j ≡ 1) where
  abbrev valid : IsValid S Entry s r
  valid = (reached-IsValid S Entry laws s r h).0

  abbrev members : ℕ
  members = s.mbr_handles.handles.num_bits

  abbrev all_groups : ℕ
  all_groups = s.grp_handles.handles.num_bits

  serialize_parts :
      (saved saved_groups : List ℕ)
      → save_members S Entry saving s.action_entries (live_list (live s.mbr_handles) 0 members)
        ≡ some saved
      → save_groups S s.groups (live_list (live s.grp_handles) 0 all_groups) ≡ some saved_groups
      → serialize S Entry saving s
        ≡ some (
            written S Entry saving
              (length s.action_entries)
              s.num_members
              saved
              s.index_ref_count
              s.num_groups
              saved_groups)
  unfolding serialize
  serialize_parts saved saved_groups e eg =
      rw
        (
          visited_lem s.mbr_handles valid.members.manager,
          e,
          visited_lem s.grp_handles valid.groups_.manager,
          eg,
        )
        refl

  -- the members, whose number is that of the live handles
  members_number : s.num_members ≡ length (live_list (live s.mbr_handles) 0 members)
  members_number = number-live_list s.mbr_handles _ _ s.num_members valid.members

  groups_number : s.num_groups ≡ length (live_list (live s.grp_handles) 0 all_groups)
  groups_number = number-live_list s.grp_handles _ _ s.num_groups valid.groups_

  pub reloaded :
      (stream : List ℕ) × (serialize S Entry saving s ≡ some stream)
      × (s' : ActionProfile S Entry) × (deserialize S Entry saving (new_profile S Entry) stream
          ≡ some (s', []))
      × IsRestored S Entry s s'
      × IsLeft S Entry s s'
  reloaded =
      let (saved, e, read) =
        members_loop Entry S saving reads (live s.mbr_handles)
          (bit_at_small s.mbr_handles.handles.words) s.action_entries 0 members
          (omega (arith, valid.members.items_length))
          (omega (arith, valid.members.items_length, valid.members.small)) in
      let (saved_groups, eg, read_g) =
        groups_loop S laws (live s.grp_handles) (bit_at_small s.grp_handles.handles.words) dense
          s.groups 0 all_groups (omega (arith, valid.groups_.items_length))
          (omega (arith, valid.groups_.items_length, valid.groups_.small)) in
      let (m', es', d, rm) =
        read Handles.fresh (fresh-IsReady (live s.mbr_handles))
          (blank S Entry saving (length s.action_entries))
          (length-blank S Entry saving (length s.action_entries))
          (rest_of S Entry saving s.index_ref_count s.num_groups saved_groups) in
      let (g', gs', dg, rg) =
        read_g Handles.fresh (fresh-IsReady (live s.grp_handles)) [] (λ z. refl) [] in
      (
        written S Entry saving (length s.action_entries) s.num_members saved s.index_ref_count
            s.num_groups saved_groups,
        serialize_parts saved saved_groups e eg,
        record {
          action_entries = es';
          index_ref_count = s.index_ref_count;
          mbr_handles = m';
          grp_handles = g';
          num_members = s.num_members;
          num_groups = s.num_groups;
          groups = gs';
        },
        deserialize_parts S Entry saving (length s.action_entries) s.num_members saved
            s.index_ref_count s.num_groups saved_groups m' es' g' gs'
            (ap
                (λ n.
                  read_members S Entry saving n Handles.fresh
                    (blank S Entry saving (length s.action_entries))
                    (saved ++ rest_of S Entry saving s.index_ref_count s.num_groups saved_groups))
                members_number
              ∙ d)
            (ap (λ n. read_groups S n Handles.fresh [] saved_groups) groups_number
              ∙ ap
                  (read_groups S (length (live_list (live s.grp_handles) 0 all_groups))
                    Handles.fresh [])
                  (sym (append_nil saved_groups))
              ∙ dg),
        record {
          members = restored_all s.mbr_handles valid.members.manager m' rm.handles_;
          groups_ = restored_all s.grp_handles valid.groups_.manager g' rg.handles_;
          entries = λ i alive.
              rm.same i
              ∙ ground (arith, alive, inside_of_live s.mbr_handles valid.members.manager i alive);
          group_members = λ x g alive.
              rg.same x g
              ∙ ground (arith, alive, inside_of_live s.grp_handles valid.groups_.manager g alive);
          counts = refl;
          numbers = (refl, refl);
        },
        record {
          bits = rm.handles_.bits;
          as_long = rm.as_long ∙ length-blank S Entry saving (length s.action_entries);
          first = λ alive.
              rm.handles_.first_again refl refl alive
                (omega (arith, inside_of_live s.mbr_handles valid.members.manager 0 alive));
        },
      )

  -- A profile that calls lead to, with no group that was deleted below a live one, is written
  -- without a throw, and reading it into a new profile passes the assertions, leaves nothing of
  -- the stream, and restores the live handles, the entries of the live members, the members of the
  -- live groups, and all counts and numbers; if reading an entry gives back what writing it wrote.
  pub deserialize-serialize_profile :
      (stream : List ℕ) × (serialize S Entry saving s ≡ some stream)
      × (s' : ActionProfile S Entry) × (deserialize S Entry saving (new_profile S Entry) stream
          ≡ some (s', []))
      × IsRestored S Entry s s'
  deserialize-serialize_profile =
      let (stream, e, s', d, same, _) = reloaded in (stream, e, s', d, same)
