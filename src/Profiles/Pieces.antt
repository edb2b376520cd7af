-- ===== src/Profiles/Pieces.antt =====
-- Reading the parts of a stored profile one after the other.
use prog_tm_bmv.Base.{
  ℕ, ◌-◌, ◌≡◌, ap, ◌∙◌, arith, List, [], ◌∷◌, ◌++◌, length, length-replicate, take, take_all,
  replicate, some,
}
use prog_tm_bmv.Handles
use prog_tm_bmv.Handles.{HandleMgr}
use prog_tm_bmv.Profiles.Parts.{FlatSet, IndirectIndexRefCount}
use prog_tm_bmv.Profiles.Reach.{new_profile}
use prog_tm_bmv.Profiles.Save.{Saving, written, deserialize, save_counts, read_members, read_groups}
use prog_tm_bmv.Profiles.Restored.{read_counts-save_counts}

module _ (S : FlatSet) (Entry : Type 0) (saving : Saving Entry) where
  -- the entries that `resize` makes
  unfoldable pub blank : ℕ → List Entry
  blank n = take n [] ++ replicate (n - 0) saving.made

  pub length-blank : (n : ℕ) → length (blank n) ≡ n
  unfolding blank
  length-blank n =
      ap (λ xs. length (xs ++ replicate (n - 0) saving.made)) (take_all n [] (omega arith))
      ∙ length-replicate (n - 0) saving.made
      ∙ omega arith

  -- what is written after the members
  abbrev pub rest_of : IndirectIndexRefCount → ℕ → List ℕ → List ℕ
  rest_of c n' saved_groups =
      save_counts c.mbr_count ++ (save_counts c.grp_count ++ (n' ∷ saved_groups))

  -- Reading the parts one after the other.
  pub deserialize_parts :
      (size n : ℕ) (saved : List ℕ) (c : IndirectIndexRefCount) (n' : ℕ) (saved_groups : List ℕ)
      → (m : HandleMgr) (es : List Entry) (g : HandleMgr) (gs : List S.Carrier)
      → read_members S Entry saving n Handles.fresh
          (blank size)
          (saved ++ rest_of c n' saved_groups)
        ≡ some (m, es, rest_of c n' saved_groups)
      → read_groups S n' Handles.fresh [] saved_groups ≡ some (g, gs, [])
      → deserialize S Entry saving
          (new_profile S Entry)
          (written S Entry saving size n saved c n' saved_groups)
        ≡ some (
          record {
            action_entries = es;
            index_ref_count = c;
            mbr_handles = m;
            grp_handles = g;
            num_members = n;
            num_groups = n';
            groups = gs;
          },
          [],
        )
  unfolding deserialize blank
  deserialize_parts size n saved c n' saved_groups m es g gs d dg = rw (
    d,
    read_counts-save_counts c.mbr_count (save_counts c.grp_count ++ (n' ∷ saved_groups)),
    read_counts-save_counts c.grp_count (n' ∷ saved_groups),
    dg,
  )
