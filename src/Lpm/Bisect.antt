-- ===== src/Lpm/Bisect.antt =====
-- The binary search that src/bf_lpm_trie/bf_lpm_trie.c writes out in each of its six vector functions.
use Prim.Native.Nat.{compare, Ordering}
use native.Mathlib.Decide.{ℕ_discrete}
use prog_tm_bmv.Base.{
  ℕ, zero, suc, ◌+◌, ◌-◌, ◌/◌, ◌≤◌, ◌<◌, ◌≡◌, arith, ltb, if◌then◌else◌, List, length, get_or,
  Bool-cases, Order-cases, ltb→lt, ltb→le, inl, inr, sym, ◌∙◌,
}

-- Where an element is, or where it belongs.
pub data Search : Type 0 where
  found : ℕ → Search
  missing : ℕ → Search

-- `while (a < b)`, with `order i` for the order of the key against element `i`. A round at least
-- halves `b - a`, so that `b - a + 1` rounds are enough.
unfoldable pub search_loop : ℕ → (ℕ → Ordering) → ℕ → ℕ → Search
search_loop zero order a b = missing a
search_loop (suc fuel) order a b =
    let idx = a + (b - a) / 2 in
    let lower = search_loop fuel order a idx in
    let upper = search_loop fuel order (idx + 1) b in
    if ltb a b
    then elim (order idx) [ Ordering.lt ↦ lower | Ordering.eq ↦ found idx | Ordering.gt ↦ upper ]
    else missing a

unfoldable pub search : (ℕ → Ordering) → ℕ → Search
search order size = search_loop (size + 1) order 0 size

-- What a search for `x` in an ascending vector of numbers says.
pub data Located (x : ℕ) (xs : List ℕ) : Search → Type 0 where
  here : (i : ℕ) → i < length xs → get_or xs i 0 ≡ x → Located x xs (found i)
  between :
      (a : ℕ)
      → a ≤ length xs
      → ((i : ℕ) → i < a → get_or xs i 0 < x)
      → ((i : ℕ) → a ≤ i → i < length xs → x < get_or xs i 0)
      → Located x xs (missing a)

compare-lt : (x y : ℕ) → x < y → compare x y ≡ Ordering.lt
compare-lt x y h = ground arith

compare-eq : (x y : ℕ) → x ≡ y → compare x y ≡ Ordering.eq
compare-eq x y h = ground arith

compare-gt : (x y : ℕ) → y < x → compare x y ≡ Ordering.gt
compare-gt x y h = ground arith

-- The loop's invariant: what lies left of the window is below the key, and right of it above.
record Window (x : ℕ) (xs : List ℕ) (a b : ℕ) : Type 0 where
  ordered : a ≤ b
  in_range : b ≤ length xs
  below : (i : ℕ) → i < a → get_or xs i 0 < x
  above : (i : ℕ) → b ≤ i → i < length xs → x < get_or xs i 0

-- No element comes twice, and they ascend.
abbrev pub Rises : List ℕ → Type 0
Rises xs = (i j : ℕ) → i < j → j < length xs → get_or xs i 0 < get_or xs j 0

module _ (x : ℕ) (xs : List ℕ) (order : ℕ → Ordering)
    (same : (i : ℕ) → i < length xs → order i ≡ compare x (get_or xs i 0)) (rises : Rises xs) where
  round :
      (fuel a b : ℕ)
      → ((a' b' : ℕ)
          → Window x xs a' b'
          → b' - a' < fuel
          → Located x xs (search_loop fuel order a' b'))
      → Window x xs a b
      → a < b
      → b - a < suc fuel
      → Located x xs (elim (order (a + (b - a) / 2)) [
        | Ordering.lt ↦ search_loop fuel order a (a + (b - a) / 2)
        | Ordering.eq ↦ found (a + (b - a) / 2)
        | Ordering.gt ↦ search_loop fuel order (a + (b - a) / 2 + 1) b
      ])
  round fuel a b continue w l enough = elim (Order-cases x (get_or xs idx 0)) [
    | inl lt ↦ rw (same idx inside ∙ compare-lt x _ lt) (
        continue a idx
          (record {
            ordered = omega arith;
            in_range = omega (arith, w.in_range);
            below = w.below;
            above = λ i le l'. after i le l' lt;
          })
          (omega arith))
    | inr (inl e) ↦ rw (same idx inside ∙ compare-eq x _ e) (here idx inside (sym e))
    | inr (inr gt) ↦ rw (same idx inside ∙ compare-gt x _ gt) (
        continue (idx + 1) b
          (record {
            ordered = omega arith;
            in_range = w.in_range;
            below = λ i l'. before i l' gt;
            above = w.above;
          })
          (omega arith))
  ]
    where
      idx : ℕ
      idx = a + (b - a) / 2

      inside : idx < length xs
      inside = omega (arith, w.in_range)

      after : (i : ℕ) → idx ≤ i → i < length xs → x < get_or xs idx 0 → x < get_or xs i 0
      after i le l' lt = elim (ℕ_discrete idx i) [
        | yes e ↦ ground arith
        | no ne ↦ omega (arith, rises idx i (omega arith) l')
      ]

      before : (i : ℕ) → i < idx + 1 → get_or xs idx 0 < x → get_or xs i 0 < x
      before i l' gt = elim (ℕ_discrete i idx) [
        | yes e ↦ ground arith
        | no ne ↦ omega (arith, rises i idx (omega arith) inside)
      ]

  loop-Located :
      (fuel a b : ℕ) → Window x xs a b → b - a < fuel → Located x xs (search_loop fuel order a b)
  unfolding search_loop
  loop-Located zero a b w enough = absurd (omega arith)
  loop-Located (suc fuel) a b w enough = elim (Bool-cases (ltb a b)) [
    | inl lt ↦ rw lt (round fuel a b (loop-Located fuel) w (ltb→lt a b lt) enough)
    | inr ge ↦ rw ge (
        between a (omega (arith, w.ordered, w.in_range)) w.below
          (λ i l l'. w.above i (omega (arith, ltb→le a b ge)) l'))
  ]

  -- The search ends, finds the key where it is, and else finds the place that keeps the order.
  pub search-Located : Located x xs (search order (length xs))
  unfolding search
  search-Located =
      loop-Located (length xs + 1) 0 (length xs)
        (record {
          ordered = omega arith;
          in_range = omega arith;
          below = λ i l. absurd (omega arith);
          above = λ i l l'. absurd (omega arith);
        })
        (omega arith)
