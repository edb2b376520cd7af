-- ===== src/Stacks/Shift.antt =====
-- The loops of the header stacks, by the element that they leave at each index.
use prog_tm_bmv.Base.{
  ℕ, zero, suc, ◌+◌, ◌-◌, ◌≤◌, ◌<◌, ◌≡◌, ◌≢◌, refl, ap, sym, ◌∙◌, arith, ltb, leb, if◌then◌else◌,
  List, length, set, get_or-set_self, get_or-set_ne, length-set,
}
use native.Mathlib.Decide.{dec_lt, ℕ_discrete}
use prog_tm_bmv.Stacks.{Header, no_header, header_at, swap_values, shift_down, shift_up, mark_range}

module _ (xs : List Header) (i j : ℕ) (h : i < length xs) where
  swap_values-first : i ≢ j → header_at (swap_values xs i j) i ≡ header_at xs j
  unfolding swap_values
  swap_values-first ne =
      get_or-set_ne (set xs i (header_at xs j)) j i _ no_header (λ e. ne (sym e))
      ∙ get_or-set_self xs i (header_at xs j) no_header h

  swap_values-ne : (k : ℕ) → i ≢ k → j ≢ k → header_at (swap_values xs i j) k ≡ header_at xs k
  unfolding swap_values
  swap_values-ne k n n' =
      get_or-set_ne (set xs i (header_at xs j)) j k _ no_header n'
      ∙ get_or-set_ne xs i k _ no_header n

length-swap_values : (xs : List Header) (i j : ℕ) → length (swap_values xs i j) ≡ length xs
unfolding swap_values
length-swap_values xs i j = length-set (set xs i (header_at xs j)) j _ ∙ length-set xs i _

-- Shifting down moves the elements from `num` places above into the range.
pub shift_down_lem :
    (xs : List Header) (lo k num j : ℕ)
    → 0 < num
    → lo + k + num ≤ length xs
    → j < lo + k
    → header_at (shift_down xs lo k num) j
      ≡ (if ltb j lo then header_at xs j else header_at xs (j + num))
unfolding shift_down
shift_down_lem xs lo zero num j pos fits h = ground arith
shift_down_lem xs lo (suc k) num j pos fits h =
    shift_down_lem (swap_values xs lo (lo + num)) (suc lo) k num j pos
      (omega (arith, length-swap_values xs lo (lo + num))) (omega arith)
    ∙ (elim (dec_lt j lo) [
      | yes below ↦
          ground
            (arith, swap_values-ne xs lo (lo + num) (omega arith) j (omega arith) (omega arith))
      | no not_below ↦ elim (ℕ_discrete j lo) [
        | yes this ↦
            rw this (ground (arith, swap_values-first xs lo (lo + num) (omega arith) (omega arith)))
        | no other ↦ ground (
          arith,
          swap_values-ne xs lo (lo + num) (omega arith) (j + num) (omega arith) (omega arith),
        )
      ]
    ])

-- Shifting up moves the elements from `num` places below into the range.
pub shift_up_lem :
    (xs : List Header) (k num j : ℕ)
    → 0 < num
    → k + num ≤ length xs
    → num ≤ j
    → header_at (shift_up xs k num) j
      ≡ (if ltb j (num + k) then header_at xs (j - num) else header_at xs j)
unfolding shift_up
shift_up_lem xs zero num j pos fits h = ground arith
shift_up_lem xs (suc k) num j pos fits h =
    shift_up_lem (swap_values xs (num + k) k) k num j pos
      (omega (arith, length-swap_values xs (num + k) k)) h
    ∙ (elim (dec_lt j (num + k)) [
      | yes below ↦
          ground (
            arith,
            swap_values-ne xs (num + k) k (omega arith) (j - num) (omega arith) (omega arith),
          )
      | no not_below ↦ elim (ℕ_discrete j (num + k)) [
        | yes this ↦
            let from : j - num ≡ k = omega arith in
            rw from (
              ground (
                arith,
                ap (λ i. header_at (swap_values xs (num + k) k) i) this,
                swap_values-first xs (num + k) k (omega arith) (omega arith),
              ))
        | no other ↦
            ground
              (arith, swap_values-ne xs (num + k) k (omega arith) j (omega arith) (omega arith))
      ]
    ])

pub length-shift_down :
    (xs : List Header) (lo k num : ℕ) → length (shift_down xs lo k num) ≡ length xs
unfolding shift_down
length-shift_down xs lo zero num = refl
length-shift_down xs lo (suc k) num =
    length-shift_down (swap_values xs lo (lo + num)) (suc lo) k num
    ∙ length-swap_values xs lo (lo + num)

pub length-shift_up : (xs : List Header) (k num : ℕ) → length (shift_up xs k num) ≡ length xs
unfolding shift_up
length-shift_up xs zero num = refl
length-shift_up xs (suc k) num =
    length-shift_up (swap_values xs (num + k) k) k num ∙ length-swap_values xs (num + k) k

-- A marking loop marks the elements of its range.
pub mark_range_lem :
    (mark : Header → Header) (xs : List Header) (lo k j : ℕ)
    → lo + k ≤ length xs
    → header_at (mark_range mark xs lo k) j ≡ (
        if leb lo j
        then if ltb j (lo + k) then mark (header_at xs j) else header_at xs j
        else header_at xs j)
unfolding mark_range
mark_range_lem mark xs lo zero j fits = ground arith
mark_range_lem mark xs lo (suc k) j fits =
    mark_range_lem mark (set xs lo (mark (header_at xs lo))) (suc lo) k j
      (omega (arith, length-set xs lo (mark (header_at xs lo))))
    ∙ (elim (ℕ_discrete j lo) [
      | yes this ↦
          rw this
            (ground (arith, get_or-set_self xs lo (mark (header_at xs lo)) no_header (omega arith)))
      | no other ↦
          ground
            (arith, get_or-set_ne xs lo j (mark (header_at xs lo)) no_header (λ e. other (sym e)))
    ])

pub length-mark_range :
    (mark : Header → Header) (xs : List Header) (lo k : ℕ)
    → length (mark_range mark xs lo k) ≡ length xs
unfolding mark_range
length-mark_range mark xs lo zero = refl
length-mark_range mark xs lo (suc k) =
    length-mark_range mark (set xs lo (mark (header_at xs lo))) (suc lo) k ∙ length-set xs lo _

-- Shifting down does not touch what is above the elements that it reads.
pub shift_down_above :
    (xs : List Header) (lo k num j : ℕ)
    → 0 < num
    → lo + k + num ≤ length xs
    → lo + k + num ≤ j
    → header_at (shift_down xs lo k num) j ≡ header_at xs j
unfolding shift_down
shift_down_above xs lo zero num j pos fits h = refl
shift_down_above xs lo (suc k) num j pos fits h =
    shift_down_above (swap_values xs lo (lo + num)) (suc lo) k num j pos
      (omega (arith, length-swap_values xs lo (lo + num))) (omega arith)
    ∙ swap_values-ne xs lo (lo + num) (omega arith) j (omega arith) (omega arith)
