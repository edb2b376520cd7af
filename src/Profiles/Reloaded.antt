-- ===== src/Profiles/Reloaded.antt =====
-- What `deserialize` restores of the members and of the groups that `serialize` wrote.
use native.Mathlib.Nat.{le_refl}
use prog_tm_bmv.Base.{
  ℕ, zero, suc, ◌+◌, ◌^◌, ◌≤◌, ◌<◌, ◌≡◌, ◌≢◌, refl, ◌∙◌, arith, ◌==◌, ltb, leb, lt→ltb, true, ◌&&◌,
  inl, inr, Bool-cases, if◌then◌else◌, List, [], ◌∷◌, ◌++◌, length, length-set, get_elem?,
  get_elem?-set_self, get_elem?-set_ne, set, some,
}
use prog_tm_bmv.Bitset
use prog_tm_bmv.Handles.{HandleMgr, set_handle}
use prog_tm_bmv.Handles.Inv.{live}
use prog_tm_bmv.Handles.Restore.{set_handle-bits}
use prog_tm_bmv.Handles.Walk.{live_list}
use prog_tm_bmv.Profiles.Parts.{FlatSet}
use prog_tm_bmv.Profiles.Listed.{elem_inside}
use prog_tm_bmv.Profiles.Save.{Saving, save_members, read_members}
use prog_tm_bmv.Profiles.Restored.{
  append_assoc, Restores, restored_one, restored_skip, still_above, asserted-set_handle,
}

module _ (f : ℕ → ℕ) where
  -- the condition on a manager and on a vector before a loop from `lo` on
  pub record IsReady (m : HandleMgr) (lo : ℕ) : Type 0 where
    pub bits_valid : Bitset.Inv.IsValid m.handles
    pub above : (i : ℕ) → lo ≤ i → live m i ≡ 0

  pub next-IsReady : (m : HandleMgr) (lo : ℕ) → IsReady m lo → IsReady m (suc lo)
  next-IsReady m lo r = record {
    bits_valid = r.bits_valid;
    above = λ i l. r.above i (omega (arith, l));
  }

  pub set_handle-IsReady :
      (m : HandleMgr) (lo k : ℕ)
      → IsReady m lo
      → lo + suc k ≤ 2 ^ 24
      → f lo ≡ 1
      → IsReady (set_handle m lo).1 (suc lo)
  set_handle-IsReady m lo k r small one = record {
    bits_valid = set_handle-bits m r.bits_valid lo (omega (arith, small));
    above = still_above f lo k m r.bits_valid r.above small one;
  }

  pub not_here :
      {A : Type 0}
      → (x y : A) (lo k : ℕ) → f lo ≡ 0
      → (i : ℕ)
      → (if f i == 1 && leb (suc lo) i && ltb i (suc lo + k) then x else y)
        ≡ (if f i == 1 && leb lo i && ltb i (lo + suc k) then x else y)
  not_here x y lo k off i = elim (Bool-cases (i == lo)) [
    | inl e ↦ let this : i ≡ lo = ground arith in rw this (ground (arith, off))
    | inr e ↦ ground (arith, e)
  ]

module _ (Entry : Type 0) (S : FlatSet) (saving : Saving Entry)
    (reads : (e : Entry) (rest : List ℕ) → saving.take_one (saving.put e ++ rest) ≡ (e, rest))
    (f : ℕ → ℕ) (bits : (i : ℕ) → f i < 2) where
  pub record RestoresMembers (entries es : List Entry) (m : HandleMgr) (lo k : ℕ) (m' : HandleMgr)
      (es' : List Entry) : Type 0 where
    pub handles_ : Restores f lo k m m'
    pub as_long : length es' ≡ length es
    pub same :
        (i : ℕ)
        → get_elem? es' i
          ≡ (if f i == 1 && leb lo i && ltb i (lo + k) then get_elem? entries i else get_elem? es i)

  module _ (entries : List Entry) where
    abbrev Reads : ℕ → ℕ → List ℕ → Type 0
    Reads lo k saved =
        (m : HandleMgr)
        → IsReady f m lo
        → (es : List Entry) → length es ≡ length entries
        → (rest : List ℕ)
        → (m' : HandleMgr) × (es' : List Entry) × (read_members S Entry saving
              (length (live_list f lo k)) m es (saved ++ rest)
            ≡ some (m', es', rest))
          × RestoresMembers entries es m lo k m' es'

    one_member :
        (lo k : ℕ) (saved : List ℕ) (entry : Entry)
        → lo + suc k ≤ length entries
        → length entries ≤ 2 ^ 24
        → f lo ≡ 1
        → get_elem? entries lo ≡ some entry
        → Reads (suc lo) k saved
        → (m : HandleMgr) → IsReady f m lo
        → (es : List Entry) → length es ≡ length entries
        → (rest : List ℕ)
        → (m' : HandleMgr) × (es' : List Entry) × (read_members S Entry saving
              (suc (length (live_list f (suc lo) k)))
              m
              es
              ((lo ∷ saving.put entry ++ saved) ++ rest)
            ≡ some (m', es', rest))
          × RestoresMembers entries es m lo (suc k) m' es'
    unfolding read_members
    one_member lo k saved entry h small one there loop m ready es l rest =
        let (m', es', e, r) =
          loop (set_handle m lo).1 (set_handle-IsReady f m lo k ready (omega (arith, h, small)) one)
            (set es lo entry) (length-set es lo entry ∙ l) rest in
        (
          m',
          es',
          rw
              (
                asserted-set_handle m ready.bits_valid lo (ready.above lo (le_refl lo))
                    (omega (arith, h, small)),
                append_assoc (saving.put entry) saved rest,
                reads entry (saved ++ rest),
                inside,
              )
              e,
          record {
            handles_ =
                restored_one f lo k m ready.bits_valid ready.above (omega (arith, h, small)) one m'
                  r.handles_;
            as_long = r.as_long ∙ length-set es lo entry;
            same = λ i. r.same i ∙ at_place i;
          },
        )
      where
        inside : ltb lo (length es) ≡ true
        inside = lt→ltb _ _ (omega (arith, h, l))

        at_place :
            (i : ℕ)
            → (if f i == 1 && leb (suc lo) i && ltb i (suc lo + k)
                then get_elem? entries i
                else get_elem? (set es lo entry) i)
              ≡ (if f i == 1 && leb lo i && ltb i (lo + suc k)
                  then get_elem? entries i
                  else get_elem? es i)
        at_place i = elim (Bool-cases (i == lo)) [
          | inl y ↦
              let this : i ≡ lo = ground arith in
              rw (this, get_elem?-set_self es lo entry (omega (arith, h, l)), there)
                (ground (arith, one))
          | inr y ↦
              let other : lo ≢ i = λ same. ground (arith, y, same) in
              rw (get_elem?-set_ne es lo i entry other) (ground (arith, y))
        ]

    pub members_loop :
        (lo k : ℕ)
        → lo + k ≤ length entries
        → length entries ≤ 2 ^ 24
        → (saved : List ℕ) × (save_members S Entry saving entries (live_list f lo k) ≡ some saved)
          × Reads lo k saved
    unfolding save_members live_list read_members
    members_loop lo zero h small = (
      [],
      refl,
      λ m ready es l rest. (
        m,
        es,
        refl,
        record {
          handles_ = record {
            bits = ready.bits_valid;
            lives = λ i. ground arith;
            first = λ l. refl;
            first_again = λ e e' one l. absurd (omega arith);
          };
          as_long = refl;
          same = λ i. ground arith;
        },
      ),
    )
    members_loop lo (suc k) h small =
        let (saved, e, loop) = members_loop (suc lo) k (omega (arith, h)) small in
        let (entry, there) = elem_inside entries lo (omega (arith, h)) in
        elim (Bool-cases (f lo == 1)) [
          | inl y ↦
              let one : f lo ≡ 1 = ground arith in
              rw y (
                lo ∷ saving.put entry ++ saved,
                rw (there, e) refl,
                one_member lo k saved entry h small one there loop,
              )
          | inr y ↦
              let off : f lo ≡ 0 = ground (arith, bits lo) in
              rw y (
                saved,
                e,
                λ m ready es l rest.
                    let (m', es', e', r) = loop m (next-IsReady f m lo ready) es l rest in
                    (
                      m',
                      es',
                      e',
                      record {
                        handles_ =
                            restored_skip f lo k m ready.bits_valid ready.above
                              (omega (arith, h, small)) off m' r.handles_;
                        as_long = r.as_long;
                        same = λ i. r.same i ∙ not_here f _ _ lo k off i;
                      },
                    ),
              )
        ]
