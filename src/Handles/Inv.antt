-- ===== src/Handles/Inv.antt =====
-- The invariant of HandleMgr, and what each of its operations does to the set of live handles.
use native.Mathlib.Decide.{dec_lt}
use native.Mathlib.Nat.{le_refl}
use prog_tm_bmv.Base.{
  ℕ, ◌+◌, ◌%◌, ◌^◌, ◌≤◌, ◌<◌, ◌≡◌, refl, inl, inr, arith, true, false, ◌==◌, if◌then◌else◌, lt→ltb,
  le→ltb, ==_refl,
}
use prog_tm_bmv.Bitset
use prog_tm_bmv.Bitset.{
  DynamicBitset, npos, set_bit, push_back, reset, resize, test, find_unset_next,
}
use prog_tm_bmv.Bitset.Access.{bit_at, bit_at-nil, bit_at-set_bit}
use prog_tm_bmv.Bitset.Inv.{
  empty-IsValid, set_bit-IsValid, reset-IsValid, num_bits-set_bit, num_bits-reset, inside,
  count-set_bit, count-reset,
}
use prog_tm_bmv.Bitset.Grow.{
  push_back-IsValid, num_bits-push_back, bit_at-push_back, count-push_back,
}
use prog_tm_bmv.Bitset.ScanUnset.{FirstUnset, find_unset_next-FirstUnset}
use prog_tm_bmv.Handles.{HandleMgr, Rc, ok, fresh, get_handle, size, or_size}

-- 1 for a handle that was given out and not released, else 0.
abbrev pub live : HandleMgr → ℕ → ℕ
live m h = bit_at m.handles.words h

-- `first_unset` is the smallest handle that is not live.
pub record IsValid (m : HandleMgr) : Type 0 where
  pub bits : Bitset.Inv.IsValid m.handles
  pub first_le : m.first_unset ≤ m.handles.num_bits
  pub below_set : (i : ℕ) → i < m.first_unset → live m i ≡ 1
  pub at_first : live m m.first_unset ≡ 0

pub fresh-IsValid : IsValid fresh
fresh-IsValid = record {
  bits = empty-IsValid;
  first_le = omega arith;
  below_set = λ i h. absurd (omega arith);
  at_first = bit_at-nil 0;
}

module _ (m : HandleMgr) (v : IsValid m) where
  -- Setting the smallest free handle, and searching for the next one.
  pub advance :
      (b : DynamicBitset)
      → Bitset.Inv.IsValid b
      → b.num_bits ≡ m.handles.num_bits
      → ((i : ℕ) → bit_at b.words i ≡ (if i == m.first_unset then 1 else live m i))
      → (found : ℕ) → FirstUnset b (m.first_unset + 1) found
      → IsValid (record {
        handles = b;
        first_unset = if found == npos then m.handles.num_bits else found;
      })
  advance b w same bits found (inl (e, all)) = rw (e, ← same) done
    where
      done : IsValid (record { handles = b; first_unset = b.num_bits })
      done = record {
        bits = w;
        first_le = omega arith;
        below_set = λ i l. ground (arith, bits i, v.below_set i, all i);
        at_first = w.clear_above b.num_bits (omega arith);
      }
  advance b w same bits found (inr (le, le', unset, all)) = rw other done
    where
      other : (found == npos) ≡ false
      other = ground (arith, w.bounded)

      done : IsValid (record { handles = b; first_unset = found })
      done = record {
        bits = w;
        first_le = le';
        below_set = λ i l. ground (arith, bits i, v.below_set i, all i);
        at_first = unset;
      }

-- What `get_handle` promises: the smallest handle that is not live, which becomes live, and nothing
-- else changes.
pub record Gives (m : HandleMgr) (r : Rc × ℕ × HandleMgr) : Type 0 where
  pub code : r.0 ≡ ok
  pub least : (i : ℕ) → i < r.1 → live m i ≡ 1
  pub unused : live m r.1 ≡ 0
  pub after : (i : ℕ) → live r.2 i ≡ (if i == r.1 then 1 else live m i)
  pub counts : size r.2 ≡ size m + 1
  pub valid : IsValid r.2
  pub grows : r.2.handles.num_bits ≤ m.handles.num_bits + 1
  pub sized :
      r.2.handles.num_bits
      ≡ (if r.1 == m.handles.num_bits then m.handles.num_bits + 1 else m.handles.num_bits)

module _ (m : HandleMgr) (v : IsValid m) where
  -- `get_handle` where a handle below the size is free
  abbrev reused : HandleMgr
  reused = record {
    handles = (set_bit m.handles m.first_unset).0;
    first_unset =
        or_size (find_unset_next (set_bit m.handles m.first_unset).0 m.first_unset)
          m.handles.num_bits;
  }

  get_reused : m.first_unset < m.handles.num_bits → get_handle m ≡ (ok, m.first_unset, reused)
  unfolding get_handle Bitset.size
  get_reused h = rw (lt→ltb _ _ h)

  reused-Gives : m.first_unset < m.handles.num_bits → Gives m (ok, m.first_unset, reused)
  unfolding size Bitset.count
  reused-Gives h = record {
    code = refl;
    least = v.below_set;
    unused = v.at_first;
    after = changed;
    counts = omega (arith, count-set_bit m.handles v.bits m.first_unset h, v.at_first);
    valid =
        advance m v _ set-IsValid (num_bits-set_bit m.handles m.first_unset) changed _
          (find_unset_next-FirstUnset _ m.first_unset set-IsValid (omega (arith, v.bits.bounded)));
    grows = omega (arith, num_bits-set_bit m.handles m.first_unset);
    sized = ground (arith, num_bits-set_bit m.handles m.first_unset);
  }
    where
      set-IsValid : Bitset.Inv.IsValid (set_bit m.handles m.first_unset).0
      set-IsValid = set_bit-IsValid m.handles v.bits m.first_unset h

      changed :
          (i : ℕ)
          → bit_at (set_bit m.handles m.first_unset).0.words i
            ≡ (if i == m.first_unset then 1 else live m i)
      changed = bit_at-set_bit m.handles m.first_unset (inside m.handles v.bits m.first_unset h)

  module _ (room : m.handles.num_bits + 65 ≤ 2 ^ 64) where
    -- `get_handle` where all handles below the size are live
    abbrev appended : HandleMgr
    appended = record { handles = push_back m.handles true; first_unset = m.handles.num_bits + 1 }

    get_appended :
        m.first_unset ≡ m.handles.num_bits → get_handle m ≡ (ok, m.handles.num_bits, appended)
    unfolding get_handle Bitset.size
    get_appended e = rw (e, le→ltb _ _ (le_refl m.handles.num_bits), wrap)
      where
        wrap : (m.handles.num_bits + 1) % 2 ^ 64 ≡ m.handles.num_bits + 1
        wrap = omega arith

    appended-Gives : m.first_unset ≡ m.handles.num_bits → Gives m (ok, m.handles.num_bits, appended)
    unfolding size Bitset.count
    appended-Gives e = record {
      code = refl;
      least = λ i l. v.below_set i (omega arith);
      unused = v.bits.clear_above m.handles.num_bits (omega arith);
      after = bit_at-push_back m.handles v.bits room;
      counts = count-push_back m.handles v.bits room;
      valid = record {
        bits = push_back-IsValid m.handles v.bits room;
        first_le = omega (arith, num_bits-push_back m.handles v.bits room);
        below_set = λ i l. ground (arith, bit_at-push_back m.handles v.bits room i, v.below_set i);
        at_first = ground (
          arith,
          bit_at-push_back m.handles v.bits room (m.handles.num_bits + 1),
          v.bits.clear_above (m.handles.num_bits + 1),
        );
      };
      grows = omega (arith, num_bits-push_back m.handles v.bits room);
      sized = ground (arith, num_bits-push_back m.handles v.bits room, ==_refl m.handles.num_bits);
    }

    -- On a valid manager with room to grow, get_handle succeeds with the smallest handle that is
    -- not live, makes it live, changes no other handle, counts it, and leaves the manager valid.
    pub get_handle-Gives : Gives m (get_handle m)
    get_handle-Gives = elim (dec_lt m.first_unset m.handles.num_bits) [
      | yes h ↦ rw (get_reused h) (reused-Gives h)
      | no h ↦
          let full : m.first_unset ≡ m.handles.num_bits = omega (arith, v.first_le) in
          rw (get_appended full) (appended-Gives full)
    ]
