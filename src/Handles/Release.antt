-- ===== src/Handles/Release.antt =====
-- `release_handle`, `valid_handle` and `clear` of HandleMgr, and histories of its calls.
use native.Mathlib.Decide.{dec_lt, ℕ_discrete}
use prog_tm_bmv.Base.{
  ℕ, ◌+◌, ◌^◌, ◌≤◌, ◌<◌, ◌≡◌, ◌≢◌, refl, ◌∙◌, arith, ◌==◌, ltb, if◌then◌else◌, lt→leb, le→leb, List,
  [], ◌∷◌, length,
}
use prog_tm_bmv.Bitset
use prog_tm_bmv.Bitset.{npos, reset, test}
use prog_tm_bmv.Bitset.Access.{bit_at, bit_at_small, bit_at-reset, test_lem, reset_changed}
use prog_tm_bmv.Bitset.Inv.{reset-IsValid, num_bits-reset, inside, count-reset}
use prog_tm_bmv.Handles.{
  HandleMgr, Rc, ok, failure, fresh, get_handle, release_handle, valid_handle, size, clear,
}
use prog_tm_bmv.Handles.Inv.{live, IsValid, Gives, get_handle-Gives}

-- What `release_handle` promises: it fails exactly on a handle that is not live, and the handle is not
-- live afterwards.
pub record Releases (m : HandleMgr) (pos : ℕ) (r : Rc × HandleMgr) : Type 0 where
  pub code : r.0 ≡ (if live m pos == 1 then ok else failure)
  pub after : (i : ℕ) → live r.1 i ≡ (if i == pos then 0 else live m i)
  pub counts : size r.1 + live m pos ≡ size m
  pub valid : IsValid r.1
  pub keeps : r.1.handles.num_bits ≡ m.handles.num_bits

module _ (m : HandleMgr) (v : IsValid m) (pos : ℕ) where
  module _ (h : pos < m.handles.num_bits) where
    cleared : (i : ℕ) → bit_at (reset m.handles pos).0.words i ≡ (if i == pos then 0 else live m i)
    cleared = bit_at-reset m.handles pos (inside m.handles v.bits pos h)

    -- with any first free place that fits
    reset-Releases :
        (code : Rc) (first : ℕ)
        → code ≡ (if live m pos == 1 then ok else failure)
        → first ≤ m.first_unset
        → ((i : ℕ) → i < first → i ≢ pos)
        → (if first == pos then 0 else live m first) ≡ 0
        → Releases m pos (code, record { handles = (reset m.handles pos).0; first_unset = first })
    unfolding size Bitset.count
    reset-Releases code first e le ne free = record {
      code = e;
      after = cleared;
      counts = count-reset m.handles v.bits pos h;
      valid = record {
        bits = reset-IsValid m.handles v.bits pos h;
        first_le = omega (arith, num_bits-reset m.handles pos, v.first_le);
        below_set = λ i l. ground (arith, cleared i, v.below_set i, ne i l);
        at_first = cleared first ∙ free;
      };
      keeps = num_bits-reset m.handles pos;
    }

  release_outside : m.handles.num_bits ≤ pos → release_handle m pos ≡ (failure, m)
  unfolding release_handle Bitset.size
  release_outside h = rw (le→leb _ _ h)

  release_clear :
      pos < m.handles.num_bits
      → live m pos ≡ 0
      → release_handle m pos ≡ (failure, record m { handles = (reset m.handles pos).0 })
  unfolding release_handle Bitset.size
  release_clear h e = rw (lt→leb _ _ h, reset_changed m.handles pos v.bits.blocks, e)

  release_live :
      pos < m.handles.num_bits
      → live m pos ≡ 1
      → release_handle m pos ≡ (
        ok,
        record {
          handles = (reset m.handles pos).0;
          first_unset = if ltb pos m.first_unset then pos else m.first_unset;
        },
      )
  unfolding release_handle Bitset.size
  release_live h e = rw (lt→leb _ _ h, reset_changed m.handles pos v.bits.blocks, e)

  -- On a valid manager, release_handle fails exactly on a handle that is not live, leaves that
  -- handle not live and every other as it was, and leaves the manager valid.
  pub release_handle-Releases : Releases m pos (release_handle m pos)
  release_handle-Releases = elim (dec_lt pos m.handles.num_bits) [
    | yes h ↦ elim (ℕ_discrete (live m pos) 0) [
      | yes off ↦ rw (release_clear h off) (
          reset-Releases h failure m.first_unset (rw off) (omega arith)
            (λ i l. ground (arith, v.below_set i l)) (ground (arith, v.at_first)))
      | no on ↦
          let e : live m pos ≡ 1 = omega (arith, bit_at_small m.handles.words pos) in
          rw (release_live h e) (
            reset-Releases h ok (if ltb pos m.first_unset then pos else m.first_unset) (rw e)
              (ground arith) (λ i l. ground arith) (ground (arith, v.at_first)))
    ]
    | no h ↦ rw (release_outside (omega arith)) (unchanged (omega arith))
  ]
    where
      unchanged : m.handles.num_bits ≤ pos → Releases m pos (failure, m)
      unchanged h = record {
        code = ground (arith, v.bits.clear_above pos h);
        after = λ i. ground (arith, v.bits.clear_above i);
        counts = omega (arith, v.bits.clear_above pos h);
        valid = v;
        keeps = refl;
      }

  -- On a valid manager, valid_handle says whether a handle is live, also for a handle past the
  -- size.
  pub valid_handle_lem : valid_handle m pos ≡ (live m pos == 1)
  unfolding valid_handle Bitset.size
  valid_handle_lem = ground (
    arith,
    test_lem m.handles pos v.bits.blocks,
    v.bits.clear_above pos,
    bit_at_small m.handles.words pos,
  )

pub clear-eq : (m : HandleMgr) → clear m ≡ fresh
unfolding clear Bitset.clear
clear-eq m = refl

-- What a client can do with the handles of one manager.
pub data Call : Type 0 where
  get : Call
  release : ℕ → Call

step : HandleMgr → Call → HandleMgr
step m get = (get_handle m).2
step m (release h) = (release_handle m h).1

unfoldable pub run : HandleMgr → List Call → HandleMgr
unfolding step
run m [] = m
run m (c ∷ cs) = run (step m c) cs

-- After any history of get_handle and release_handle calls, as long as the vector can grow by one
-- bit a call, a valid manager is still valid.
pub run-IsValid :
    (cs : List Call) (m : HandleMgr)
    → IsValid m
    → m.handles.num_bits + length cs + 64 ≤ 2 ^ 64
    → IsValid (run m cs)
unfolding run
run-IsValid [] m v room = v
run-IsValid (get ∷ cs) m v room =
    let g : Gives m (get_handle m) = get_handle-Gives m v (omega arith) in
    run-IsValid cs (get_handle m).2 g.valid (omega (arith, g.grows))
run-IsValid (release h ∷ cs) m v room =
    let r : Releases m h (release_handle m h) = release_handle-Releases m v h in
    run-IsValid cs (release_handle m h).1 r.valid (omega (arith, r.keeps))
