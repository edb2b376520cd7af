-- ===== src/Handles/Restore.antt =====
-- `set_handle` of HandleMgr, which restores a handle when a saved state is read back.
use native.Mathlib.Decide.{dec_lt, ℕ_discrete}
use native.Mathlib.Nat.{le_refl}
use prog_tm_bmv.Base.{
  ℕ, ◌+◌, ◌-◌, ◌%◌, ◌^◌, ◌≤◌, ◌<◌, ◌≡◌, ◌≢◌, refl, ap, ◌∙◌, inl, inr, ◌⊎◌, arith, Bool-cases, true,
  false, ◌==◌, leb, if◌then◌else◌, lt→leb, le→leb,
}
use prog_tm_bmv.Bitset
use prog_tm_bmv.Bitset.{DynamicBitset, npos, set_bit, resize, find_unset_next}
use prog_tm_bmv.Bitset.Access.{bit_at, bit_at_small, bit_at-set_bit, set_bit_changed}
use prog_tm_bmv.Bitset.Inv.{set_bit-IsValid, num_bits-set_bit, inside, count-set_bit}
use prog_tm_bmv.Bitset.Grow.{resize-IsValid, num_bits-resize, bit_at-resize, count-resize}
use prog_tm_bmv.Bitset.ScanUnset.{find_unset_next-FirstUnset, find_unset_next_past}
use prog_tm_bmv.Handles.{HandleMgr, Rc, ok, failure, set_handle, size, or_size}
use prog_tm_bmv.Handles.Inv.{live, IsValid, advance}

-- What `set_handle` promises: it fails exactly on a live handle, and the handle is live afterwards.
pub record Sets (m : HandleMgr) (pos : ℕ) (r : Rc × HandleMgr) : Type 0 where
  pub code : r.0 ≡ (if live m pos == 1 then failure else ok)
  pub after : (i : ℕ) → live r.1 i ≡ (if i == pos then 1 else live m i)
  pub counts : size r.1 ≡ size m + (1 - live m pos)

-- the bits that `set_handle` works on
abbrev room_for : HandleMgr → ℕ → DynamicBitset
room_for m pos =
    if leb m.handles.num_bits pos then resize m.handles ((pos + 1) % 2 ^ 64) else m.handles

record HasRoom (m : HandleMgr) (pos : ℕ) (b : DynamicBitset) : Type 0 where
  bits : Bitset.Inv.IsValid b
  inside : pos < b.num_bits
  large : m.handles.num_bits ≤ b.num_bits
  tight : (b.num_bits ≡ m.handles.num_bits) ⊎ (b.num_bits ≡ pos + 1)
  same : (i : ℕ) → bit_at b.words i ≡ live m i
  count : b.num_bits_set ≡ m.handles.num_bits_set

module _ (m : HandleMgr) (v : Bitset.Inv.IsValid m.handles) (pos : ℕ)
    (small : pos + 65 ≤ 2 ^ 64) where
  room_for-HasRoom : HasRoom m pos (room_for m pos)
  room_for-HasRoom = elim (dec_lt pos m.handles.num_bits) [
    | yes h ↦ rw (lt→leb _ _ h) (here h)
    | no h ↦ rw (le→leb m.handles.num_bits pos (omega arith), next) (resized (omega arith))
  ]
    where
      next : (pos + 1) % 2 ^ 64 ≡ pos + 1
      next = omega arith

      here : pos < m.handles.num_bits → HasRoom m pos m.handles
      here h = record {
        bits = v;
        inside = h;
        large = le_refl m.handles.num_bits;
        tight = inl refl;
        same = λ i. refl;
        count = refl;
      }

      resized : m.handles.num_bits ≤ pos → HasRoom m pos (resize m.handles (pos + 1))
      resized h = record {
        bits = resize-IsValid m.handles v (pos + 1) (omega arith) (omega arith);
        inside = omega (arith, num_bits-resize m.handles v (pos + 1) (omega arith) (omega arith));
        large = omega (arith, num_bits-resize m.handles v (pos + 1) (omega arith) (omega arith));
        tight = inr (num_bits-resize m.handles v (pos + 1) (omega arith) (omega arith));
        same = bit_at-resize m.handles v (pos + 1) (omega arith) (omega arith);
        count = count-resize m.handles v (pos + 1) (omega arith) (omega arith);
      }

  abbrev set_bits : DynamicBitset
  set_bits = (set_bit (room_for m pos) pos).0

  set_fails : live m pos ≡ 1 → set_handle m pos ≡ (failure, record m { handles = set_bits })
  unfolding set_handle Bitset.size
  set_fails e =
      let r : HasRoom m pos (room_for m pos) = room_for-HasRoom in
      rw (set_bit_changed (room_for m pos) pos r.bits.blocks, r.same pos, e)

  set_succeeds :
      live m pos ≡ 0
      → set_handle m pos ≡ (
        ok,
        record {
          handles = set_bits;
          first_unset =
              if m.first_unset == pos
              then or_size (find_unset_next set_bits pos) m.handles.num_bits
              else m.first_unset;
        },
      )
  unfolding set_handle Bitset.size
  set_succeeds e =
      let r : HasRoom m pos (room_for m pos) = room_for-HasRoom in
      rw (set_bit_changed (room_for m pos) pos r.bits.blocks, r.same pos, e)

module _ (m : HandleMgr) (v : Bitset.Inv.IsValid m.handles) (pos : ℕ) (b : DynamicBitset)
    (r : HasRoom m pos b) where
  set_after : (i : ℕ) → bit_at (set_bit b pos).0.words i ≡ (if i == pos then 1 else live m i)
  set_after i =
      bit_at-set_bit b pos (inside b r.bits pos r.inside) i
      ∙ ap (λ x. if i == pos then 1 else x) (r.same i)

  set_counts : (set_bit b pos).0.num_bits_set ≡ m.handles.num_bits_set + (1 - live m pos)
  set_counts = omega (
    arith,
    count-set_bit b r.bits pos r.inside,
    r.count,
    r.same pos,
    bit_at_small m.handles.words pos,
  )

  set-IsValid : Bitset.Inv.IsValid (set_bit b pos).0
  set-IsValid = set_bit-IsValid b r.bits pos r.inside

module _ (m : HandleMgr) (v : IsValid m) (pos : ℕ) (b : DynamicBitset) (r : HasRoom m pos b) where
  kept-IsValid :
      m.first_unset ≢ pos
      → IsValid (record { handles = (set_bit b pos).0; first_unset = m.first_unset })
  kept-IsValid ne = record {
    bits = set-IsValid m v.bits pos b r;
    first_le = omega (arith, num_bits-set_bit b pos, r.large, v.first_le);
    below_set = λ i l. ground (arith, set_after m v.bits pos b r i, v.below_set i l);
    at_first = ground (arith, set_after m v.bits pos b r m.first_unset, v.at_first);
  }

  moved-IsValid :
      m.first_unset ≡ pos
      → pos < m.handles.num_bits
      → IsValid (record {
        handles = (set_bit b pos).0;
        first_unset = or_size (find_unset_next (set_bit b pos).0 pos) m.handles.num_bits;
      })
  moved-IsValid e h =
      advance m v (set_bit b pos).0 (set-IsValid m v.bits pos b r)
        (num_bits-set_bit b pos ∙ equal r.tight) (rw e (set_after m v.bits pos b r))
        (find_unset_next (set_bit b pos).0 pos)
        (rw e (
          find_unset_next-FirstUnset _ pos (set-IsValid m v.bits pos b r)
            (omega (arith, r.bits.bounded, r.inside))))
    where
      equal :
          (b.num_bits ≡ m.handles.num_bits) ⊎ (b.num_bits ≡ pos + 1)
          → b.num_bits ≡ m.handles.num_bits
      equal (inl same) = same
      equal (inr last) = omega (arith, r.large)

module _ (m : HandleMgr) (v : Bitset.Inv.IsValid m.handles) (pos : ℕ)
    (small : pos + 65 ≤ 2 ^ 64) where
  abbrev room : HasRoom m pos (room_for m pos)
  room = room_for-HasRoom m v pos small

  -- On a manager with a valid bitset, set_handle makes exactly the given handle live, fails where
  -- it is live already, and counts it, if the vector can grow to that handle.
  pub set_handle-Sets : Sets m pos (set_handle m pos)
  unfolding size Bitset.count
  set_handle-Sets = elim (ℕ_discrete (live m pos) 0) [
    | yes off ↦ rw (set_succeeds m v pos small off) (record {
      code = rw off;
      after = set_after m v pos _ room;
      counts = set_counts m v pos _ room;
    })
    | no on ↦
        let e : live m pos ≡ 1 = omega (arith, bit_at_small m.handles.words pos) in
        rw (set_fails m v pos small e) (record {
          code = rw e;
          after = set_after m v pos _ room;
          counts = set_counts m v pos _ room;
        })
  ]

  -- The next free handle stays where it is the size of the vector, and is set.
  pub set_handle-stays :
      m.first_unset ≡ pos → m.handles.num_bits ≡ pos → (set_handle m pos).1.first_unset ≡ pos
  set_handle-stays e e' = ap (λ r. r.1.first_unset) (set_succeeds m v pos small off) ∙ stuck
    where
      off : live m pos ≡ 0
      off = v.clear_above pos (omega arith)

      past : find_unset_next (set_bits m v pos small) pos ≡ npos
      past =
          find_unset_next_past _ pos (omega arith)
            (rw (num_bits-set_bit (room_for m pos) pos) (at_most room.tight))
        where
          at_most :
              ((room_for m pos).num_bits ≡ m.handles.num_bits)
                ⊎ ((room_for m pos).num_bits ≡ pos + 1)
              → (room_for m pos).num_bits ≤ pos + 1
          at_most (inl same) = omega arith
          at_most (inr last) = omega arith

      stuck :
          (if m.first_unset == pos
            then or_size (find_unset_next (set_bits m v pos small) pos) m.handles.num_bits
            else m.first_unset)
          ≡ pos
      stuck = rw (past, e, e') (ground arith)

  -- The next free handle stays where another is set.
  pub set_handle-first : m.first_unset ≢ pos → (set_handle m pos).1.first_unset ≡ m.first_unset
  set_handle-first ne =
      let other : (m.first_unset == pos) ≡ false = ground (arith, ne) in
      elim (ℕ_discrete (live m pos) 0) [
        | yes off ↦ ap (λ r. r.1.first_unset) (set_succeeds m v pos small off) ∙ rw other
        | no on ↦
            let e : live m pos ≡ 1 = omega (arith, bit_at_small m.handles.words pos) in
            ap (λ r. r.1.first_unset) (set_fails m v pos small e)
      ]

  pub set_handle-bits : Bitset.Inv.IsValid (set_handle m pos).1.handles
  set_handle-bits = elim (ℕ_discrete (live m pos) 0) [
    | yes off ↦ rw (set_succeeds m v pos small off) (set-IsValid m v pos _ room)
    | no on ↦
        let e : live m pos ≡ 1 = omega (arith, bit_at_small m.handles.words pos) in
        rw (set_fails m v pos small e) (set-IsValid m v pos _ room)
  ]

module _ (m : HandleMgr) (v : IsValid m) (pos : ℕ) (small : pos + 65 ≤ 2 ^ 64) where
  abbrev room_left : HasRoom m pos (room_for m pos)
  room_left = room_for-HasRoom m v.bits pos small

  -- set_handle leaves a valid manager valid, if the vector can grow to the handle and the handle
  -- is not the next free one or is below the size of the vector.
  pub set_handle-IsValid :
      (m.first_unset ≢ pos) ⊎ (pos < m.handles.num_bits) → IsValid (set_handle m pos).1
  set_handle-IsValid ne = elim (ℕ_discrete (live m pos) 0) [
    | yes off ↦
        rw (set_succeeds m v.bits pos small off) (by_first (Bool-cases (m.first_unset == pos)) ne)
    | no on ↦
        let e : live m pos ≡ 1 = omega (arith, bit_at_small m.handles.words pos) in
        rw (set_fails m v.bits pos small e)
          (kept-IsValid m v pos _ room_left (λ same. ground (arith, v.at_first)))
  ]
    where
      by_first :
          ((m.first_unset == pos) ≡ true) ⊎ ((m.first_unset == pos) ≡ false)
          → (m.first_unset ≢ pos) ⊎ (pos < m.handles.num_bits)
          → IsValid (record {
            handles = set_bits m v.bits pos small;
            first_unset =
                if m.first_unset == pos
                then or_size (find_unset_next (set_bits m v.bits pos small) pos) m.handles.num_bits
                else m.first_unset;
          })
      by_first (inl same) (inl other) = absurd (other (ground arith))
      by_first (inl same) (inr h) = rw same (moved-IsValid m v pos _ room_left (ground arith) h)
      by_first (inr other) _ = rw other (kept-IsValid m v pos _ room_left (ground arith))
