-- ===== src/Stacks/Push.antt =====
-- `push_front` of both kinds of header stack.
use prog_tm_bmv.Base.{
  ℕ, ◌+◌, ◌-◌, ◌%◌, ◌^◌, ◌≤◌, ◌<◌, ◌≡◌, refl, ap, ◌∙◌, arith, ◌==◌, ltb, if◌then◌else◌, Bool, true,
  false, List, length, Option, some, min,
}
use native.Mathlib.Decide.{dec_lt}
use prog_tm_bmv.Stacks.{Header, Stack, mark_valid, mark_invalid, header_at, shift_up, mark_range}
use prog_tm_bmv.Stacks.Conformant
use prog_tm_bmv.Stacks.Legacy
use prog_tm_bmv.Stacks.Shift.{shift_up_lem, length-shift_up, mark_range_lem, length-mark_range}

-- Below `bound`, the first `count` elements are new, with validity `flag`, and the others have moved up
-- by `count`; nothing else has changed.
pub record PushesFront (flag : Bool) (count bound : ℕ) (old new : List Header) : Type 0 where
  pub same_length : length new ≡ length old
  pub fresh : (j : ℕ) → j < bound → j < count → (header_at new j).valid ≡ flag
  pub moved : (j : ℕ) → count ≤ j → j < bound → header_at new j ≡ header_at old (j - count)
  pub rest : (j : ℕ) → bound ≤ j → header_at new j ≡ header_at old j

module _ (mark : Header → Header) (flag : Bool) (marks : (h : Header) → (mark h).valid ≡ flag)
    (xs : List Header) (bound num pushed : ℕ) (pos : 0 < num) (fits : bound ≤ length xs)
    (few : pushed ≡ min bound num) where
  abbrev shifted : List Header
  shifted = shift_up xs (bound - num) num

  abbrev pushed_list : List Header
  pushed_list = mark_range mark shifted 0 pushed

  marked :
      (j : ℕ)
      → header_at pushed_list j
        ≡ (if ltb j pushed then mark (header_at shifted j) else header_at shifted j)
  marked j =
      mark_range_lem mark shifted 0 pushed j (omega (arith, length-shift_up xs (bound - num) num))
      ∙ ground arith

  unshifted : (j : ℕ) → bound < num → header_at shifted j ≡ header_at xs j
  unfolding shift_up
  unshifted j h =
      let none_left : bound - num ≡ 0 = omega arith in
      ap (λ k. header_at (shift_up xs k num) j) none_left

  pushed-PushesFront : PushesFront flag num bound xs pushed_list
  pushed-PushesFront = record {
    same_length = length-mark_range mark shifted 0 pushed ∙ length-shift_up xs (bound - num) num;
    fresh = λ j h h'.
        ap (λ x. x.valid)
          (marked j
            ∙ ap (λ t. if t then mark (header_at shifted j) else header_at shifted j)
                (inside j h h'))
        ∙ marks (header_at shifted j);
    moved = λ j h h'. marked j ∙ ground (arith, shift_up_lem xs (bound - num) num j pos);
    rest = λ j h. marked j ∙ (elim (dec_lt bound num) [
      | yes all ↦ ground (arith, unshifted j all)
      | no some_left ↦ ground (arith, shift_up_lem xs (bound - num) num j pos)
    ]);
  }
    where
      inside : (j : ℕ) → j < bound → j < num → ltb j pushed ≡ true
      inside j h h' = ground arith

-- What a push of `num` headers returns and leaves.
pub record Pushes (flag : Bool) (num bound : ℕ) (s : Stack) (r : Option (ℕ × Stack)) : Type 0 where
  pub after : Stack
  pub result : r ≡ some (min (length s.elements) num, after)
  pub next : after.next ≡ min (length s.elements) (s.next + num)
  pub elements : PushesFront flag num bound s.elements after.elements

nonzero : (n : ℕ) → 0 < n → (n == 0) ≡ false
nonzero n h = ground arith

-- The sum of two numbers whose sum fits in a word does not wrap around.
fits_in_word : (a b : ℕ) → a + b < 2 ^ 64 → (a + b) % 2 ^ 64 ≡ a + b
fits_in_word a b h = omega (arith, h)

-- In P4_16, a push of at least one header onto a stack of at least one element shifts all elements
-- up, drops those at the end, and leaves invalid headers at the front; next grows up to the size;
-- if the sum of next and the number of headers is below 2 ^ 64.
pub push_front_num-Pushes :
    (s : Stack) (num : ℕ)
    → 0 < num
    → 0 < length s.elements
    → s.next + num < 2 ^ 64
    → Pushes false num (length s.elements) s (Conformant.push_front_num s num)
unfolding Conformant.push_front_num
push_front_num-Pushes s num pos some_elements small = record {
  after = record { elements = _; next = _ };
  result = rw (nonzero num pos, nonzero (length s.elements) some_elements) refl;
  next = ap (min (length s.elements)) (fits_in_word s.next num small);
  elements =
      pushed-PushesFront mark_invalid false (λ h. refl) s.elements (length s.elements) num
        (min (length s.elements) num) pos (omega arith) refl;
}

-- In P4_14, a push of at least one header onto a stack of at least one element shifts up the
-- elements below next, which grows up to the size, and leaves valid headers at the front; if the
-- sum of next and the number of headers is below 2 ^ 64.
pub legacy_push_front_num-Pushes :
    (s : Stack) (num : ℕ)
    → 0 < num
    → 0 < length s.elements
    → s.next + num < 2 ^ 64
    → Pushes true num (min (length s.elements) (s.next + num)) s (Legacy.push_front_num s num)
unfolding Legacy.push_front_num
legacy_push_front_num-Pushes s num pos some_elements small = record {
  after = record { elements = _; next = _ };
  result =
      rw
        (
          fits_in_word s.next num small,
          nonzero num pos,
          nonzero (min (length s.elements) (s.next + num)) (omega arith),
        )
        refl;
  next = refl;
  elements =
      pushed-PushesFront mark_valid true (λ h. refl) s.elements
        (min (length s.elements) (s.next + num)) num (min (length s.elements) num) pos (omega arith)
        (omega arith);
}

-- In P4_16, a push of one header is push_front(1), if next is at most the size, which is below the
-- largest word.
pub push_front-one :
    (s : Stack)
    → s.next ≤ length s.elements
    → length s.elements + 1 < 2 ^ 64
    → Conformant.push_front s ≡ Conformant.push_front_num s 1
unfolding Conformant.push_front Conformant.push_front_num mark_range
push_front-one s h small = elim (dec_lt 0 (length s.elements)) [
  | no none_left ↦ let zero_size : length s.elements ≡ 0 = omega arith in rw (zero_size)
  | yes some_left ↦
      let one : min (length s.elements) 1 ≡ 1 = omega arith in
      let next : (if ltb s.next (length s.elements) then s.next + 1 else s.next)
          ≡ min (length s.elements) ((s.next + 1) % 2 ^ 64) =
        ground (arith, fits_in_word s.next 1 (omega arith)) in
      rw (one, next)
]
