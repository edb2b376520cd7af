-- ===== src/Handles/Walk.antt =====
-- `for (h : handle_mgr)`: the iterators of HandleMgr visit each live handle once, in ascending order.
use prog_tm_bmv.Base.{
  ℕ, zero, suc, ◌+◌, ◌-◌, ◌≤◌, ◌<◌, ◌≡◌, refl, ap, ap₂, ◌∙◌, sym, inl, inr, arith, false, ◌==◌,
  if◌then◌else◌, List, [], ◌∷◌,
}
use native.Mathlib.Decide.{dec_lt}
use prog_tm_bmv.Bitset.{npos}
use prog_tm_bmv.Bitset.Access.{bit_at}
use prog_tm_bmv.Bitset.Scan.{FirstFrom, find_first-FirstFrom, find_next-FirstFrom}
use prog_tm_bmv.Handles.{HandleMgr, begin, next}
use prog_tm_bmv.Handles.Inv.{live, IsValid}

-- The handles that a loop from iterator `index` to `end()` visits.
unfoldable pub visits : ℕ → HandleMgr → ℕ → List ℕ
visits zero m index = []
visits (suc fuel) m index =
    let rest = visits fuel m (next m index) in if index == npos then [] else index ∷ rest

-- One round for each bit is enough.
unfoldable pub visited : HandleMgr → List ℕ
visited m = visits (m.handles.num_bits + 1) m (begin m)

-- The live handles in [lo, lo + k), ascending.
unfoldable pub live_list : (ℕ → ℕ) → ℕ → ℕ → List ℕ
live_list f lo zero = []
live_list f lo (suc k) = if f lo == 1 then lo ∷ live_list f (suc lo) k else live_list f (suc lo) k

live_list-none : (f : ℕ → ℕ) (lo k : ℕ) → ((j : ℕ) → lo ≤ j → f j ≡ 0) → live_list f lo k ≡ []
unfolding live_list
live_list-none f lo zero h = refl
live_list-none f lo (suc k) h =
    rw (h lo (omega arith)) (live_list-none f (suc lo) k (λ j l. h j (omega arith)))

-- Places that are not live are passed over.
live_list-skip :
    (f : ℕ → ℕ) (n lo k : ℕ)
    → ((j : ℕ) → lo ≤ j → j < lo + n → f j ≡ 0)
    → live_list f lo (n + k) ≡ live_list f (lo + n) k
unfolding live_list
live_list-skip f zero lo k h = ap₂ (live_list f) (omega arith) (omega arith)
live_list-skip f (suc n) lo k h =
    ap (live_list f lo) more
    ∙ one
    ∙ live_list-skip f n (suc lo) k (λ j l l'. h j (omega arith) (omega arith))
    ∙ ap (λ x. live_list f x k) place
  where
    more : suc n + k ≡ suc (n + k)
    more = omega arith

    place : suc lo + n ≡ lo + suc n
    place = omega arith

    one : live_list f lo (suc (n + k)) ≡ live_list f (suc lo) (n + k)
    one = rw (h lo (omega arith) (omega arith))

or_npos : (pos : ℕ) → (if pos == npos then npos else pos) ≡ pos
or_npos pos = ground arith

begin-FirstFrom : (m : HandleMgr) → IsValid m → FirstFrom (bit_at m.handles.words) 0 (begin m)
unfolding begin
begin-FirstFrom m v = rw or_npos (find_first-FirstFrom m.handles v.bits)

next-FirstFrom :
    (m : HandleMgr) (i : ℕ)
    → IsValid m
    → i < npos
    → FirstFrom (bit_at m.handles.words) (suc i) (next m i)
unfolding next
next-FirstFrom m i v h =
    let plus : i + 1 ≡ suc i = omega arith in
    rw (or_npos, ← plus) (find_next-FirstFrom m.handles i v.bits h)

-- From a live handle on, the list starts with that handle.
live_list-from :
    (f : ℕ → ℕ) (lo k i rest : ℕ)
    → lo + k ≡ i + suc rest
    → lo ≤ i
    → f i ≡ 1
    → ((j : ℕ) → lo ≤ j → j < i → f j ≡ 0)
    → live_list f lo k ≡ i ∷ live_list f (suc i) rest
unfolding live_list
live_list-from f lo k i rest e le one zeros =
    ap (live_list f lo) length_split
    ∙ live_list-skip f (i - lo) lo (suc rest) (λ j l l'. zeros j l (omega arith))
    ∙ rw (place, one)
  where
    length_split : k ≡ i - lo + suc rest
    length_split = omega arith

    place : lo + (i - lo) ≡ i
    place = omega arith

visits-live_list :
    (m : HandleMgr)
    → IsValid m
    → (fuel lo k i : ℕ) → lo + k ≡ m.handles.num_bits
    → k < fuel
    → FirstFrom (bit_at m.handles.words) lo i
    → visits fuel m i ≡ live_list (bit_at m.handles.words) lo k
unfolding visits
visits-live_list m v zero lo k i e h found = absurd (omega arith)
visits-live_list m v (suc fuel) lo k i e h (inl (none_left, zeros)) =
    rw none_left (sym (live_list-none (bit_at m.handles.words) lo k zeros))
visits-live_list m v (suc fuel) lo k i e h (inr (le, one, zeros)) = rw on (
    ap (◌∷◌ i) (
      visits-live_list m v fuel (suc i) (m.handles.num_bits - suc i) (next m i)
        (omega (arith, inside)) (omega (arith, inside))
        (next-FirstFrom m i v (omega (arith, inside, v.bits.bounded))))
    ∙ sym (
        live_list-from (bit_at m.handles.words) lo k i (m.handles.num_bits - suc i)
          (omega (arith, inside)) le one zeros))
  where
    inside : i < m.handles.num_bits
    inside = elim (dec_lt i m.handles.num_bits) [
      | yes l ↦ l
      | no g ↦ absurd (omega (arith, one, v.bits.clear_above i (omega arith)))
    ]

    on : (i == npos) ≡ false
    on = ground (arith, v.bits.bounded, inside)

-- A loop over a valid manager by its iterators ends after at most one round for each bit: with
-- more rounds than that, however many, it visits exactly the live handles, in ascending order.
pub visits_lem :
    (m : HandleMgr)
    → IsValid m
    → (fuel : ℕ) → m.handles.num_bits < fuel
    → visits fuel m (begin m) ≡ live_list (live m) 0 m.handles.num_bits
visits_lem m v fuel h =
    visits-live_list m v fuel 0 m.handles.num_bits (begin m) (omega arith) h (begin-FirstFrom m v)

pub visited_lem : (m : HandleMgr) → IsValid m → visited m ≡ live_list (live m) 0 m.handles.num_bits
unfolding visited
visited_lem m v = visits_lem m v (m.handles.num_bits + 1) (omega arith)
