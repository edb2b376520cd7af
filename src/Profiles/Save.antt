-- ===== src/Profiles/Save.antt =====
-- src/bm_sim/action_profile.cpp: `serialize` and `deserialize`. A stream is the list of the numbers that
-- it holds. How an action entry is written and read is a parameter. Nothing is written where `at` throws,
-- and nothing is read where an assertion fails or where the stream has ended.
use prog_tm_bmv.Base.{
  ℕ, zero, suc, ◌-◌, ltb, leb, ◌>>=◌, if◌then◌else◌, List, [], ◌∷◌, ◌++◌, length, get_elem?, set,
  take, replicate, Option, none, some,
}
use prog_tm_bmv.Handles
use prog_tm_bmv.Handles.{HandleMgr, Rc, ok, failure}
use prog_tm_bmv.Handles.Walk.{visited}
use prog_tm_bmv.Profiles.Parts.{FlatSet, IndirectIndexRefCount, add_member_to, insert_group}
use prog_tm_bmv.Profiles.{ActionProfile}

-- `serialize` and `deserialize` of ActionEntry, and the entry that its constructor makes.
pub record Saving (Entry : Type 0) : Type 0 where
  pub put : Entry → List ℕ
  pub take_one : List ℕ → Entry × List ℕ
  pub made : Entry

-- The assertion that a call succeeded.
abbrev pub asserted : Rc × HandleMgr → Option HandleMgr
asserted (ok, m) = some m
asserted (failure, m) = none

-- What is written where `at` leads to.
abbrev pub write_at : {A : Type 0} → List A → ℕ → A → Option (List A)
write_at xs i x = if ltb i (length xs) then some (set xs i x) else none

-- `in >> n`
abbrev pub next_number : List ℕ → Option (ℕ × List ℕ)
next_number [] = none
next_number (n ∷ stream) = some (n, stream)

-- IndirectIndexRefCount: the counts of one kind, with their number before them
unfoldable pub save_counts : List ℕ → List ℕ
save_counts counts = length counts ∷ counts

unfoldable pub read_numbers : ℕ → List ℕ → Option (List ℕ × List ℕ)
read_numbers zero stream = some ([], stream)
read_numbers (suc n) stream = do
  (c, stream) ← next_number stream
  (cs, stream) ← read_numbers n stream
  some (c ∷ cs, stream)

unfoldable pub read_counts : List ℕ → Option (List ℕ × List ℕ)
read_counts stream = do (n, stream) ← next_number stream; read_numbers n stream

module _ (S : FlatSet) where
  -- GroupInfo
  unfoldable pub save_group : S.Carrier → List ℕ
  save_group mbrs = S.size mbrs ∷ S.elements mbrs

  unfoldable pub read_each : ℕ → S.Carrier → List ℕ → Option (S.Carrier × List ℕ)
  read_each zero mbrs stream = some (mbrs, stream)
  read_each (suc n) mbrs stream = do
    (mbr, stream) ← next_number stream
    read_each n (add_member_to S mbrs mbr).1 stream

  unfoldable pub read_group : S.Carrier → List ℕ → Option (S.Carrier × List ℕ)
  read_group mbrs stream = do (size, stream) ← next_number stream; read_each size mbrs stream

  -- the loops over the groups
  unfoldable pub save_groups : List S.Carrier → List ℕ → Option (List ℕ)
  save_groups groups [] = some []
  save_groups groups (h ∷ hs) = do
    mbrs ← get_elem? groups h
    out ← save_groups groups hs
    some (h ∷ save_group mbrs ++ out)

  -- with the assertion of `insert_group`
  abbrev pub insert_asserted : List S.Carrier → ℕ → Option (List S.Carrier)
  insert_asserted groups grp =
      if leb grp (length groups) then some (insert_group S groups grp) else none

  unfoldable pub read_groups :
      ℕ → HandleMgr → List S.Carrier → List ℕ → Option (HandleMgr × List S.Carrier × List ℕ)
  read_groups zero m groups stream = some (m, groups, stream)
  read_groups (suc n) m groups stream = do
    (h, stream) ← next_number stream
    m ← asserted (Handles.set_handle m h)
    groups ← insert_asserted groups h
    (mbrs, stream) ← read_group S.empty stream
    groups ← write_at groups h mbrs
    read_groups n m groups stream

module _ (S : FlatSet) (Entry : Type 0) (saving : Saving Entry) where
  -- the loops over the members
  unfoldable pub save_members : List Entry → List ℕ → Option (List ℕ)
  save_members entries [] = some []
  save_members entries (h ∷ hs) = do
    entry ← get_elem? entries h
    out ← save_members entries hs
    some (h ∷ saving.put entry ++ out)

  -- the parts in the order in which they are written
  abbrev pub written : ℕ → ℕ → List ℕ → IndirectIndexRefCount → ℕ → List ℕ → List ℕ
  written size num_members members c num_groups groups =
      size
      ∷ num_members
      ∷ (members ++ (save_counts c.mbr_count ++ (save_counts c.grp_count ++ (num_groups ∷ groups))))

  unfoldable pub serialize : ActionProfile S Entry → Option (List ℕ)
  serialize s = do
    members ← save_members s.action_entries (visited s.mbr_handles)
    groups ← save_groups S s.groups (visited s.grp_handles)
    some (
        written (length s.action_entries) s.num_members members s.index_ref_count s.num_groups
          groups)

  unfoldable pub read_members :
      ℕ → HandleMgr → List Entry → List ℕ → Option (HandleMgr × List Entry × List ℕ)
  read_members zero m entries stream = some (m, entries, stream)
  read_members (suc n) m entries stream = do
    (h, stream) ← next_number stream
    m ← asserted (Handles.set_handle m h)
    entries ← write_at entries h (saving.take_one stream).0
    read_members n m entries (saving.take_one stream).1

  -- `resize`
  abbrev resize : List Entry → ℕ → List Entry
  resize xs n = take n xs ++ replicate (n - length xs) saving.made

  -- with what is left of the stream
  unfoldable pub deserialize :
      ActionProfile S Entry → List ℕ → Option (ActionProfile S Entry × List ℕ)
  deserialize s stream = do
    (size, stream) ← next_number stream
    (num_members, stream) ← next_number stream
    (mbr_handles, action_entries, stream) ←
        read_members num_members s.mbr_handles (resize s.action_entries size) stream
    (mbr_count, stream) ← read_counts stream
    (grp_count, stream) ← read_counts stream
    (num_groups, stream) ← next_number stream
    (grp_handles, groups, stream) ← read_groups S num_groups s.grp_handles s.groups stream
    some (
      record {
        action_entries = action_entries;
        index_ref_count = record { mbr_count = mbr_count; grp_count = grp_count };
        mbr_handles = mbr_handles;
        grp_handles = grp_handles;
        num_members = num_members;
        num_groups = num_groups;
        groups = groups;
      },
      stream,
    )
