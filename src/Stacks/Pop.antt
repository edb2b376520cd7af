-- ===== src/Stacks/Pop.antt =====
-- `pop_front` of both kinds of header stack, and the two operations at the back.
use prog_tm_bmv.Base.{
  ℕ, ◌+◌, ◌-◌, ◌≤◌, ◌<◌, ◌≡◌, refl, ap, ◌∙◌, arith, ◌==◌, ltb, leb, if◌then◌else◌, true, false,
  List, length, some, none, min, set, get_or-set_self, length-set,
}
use native.Mathlib.Decide.{dec_lt}
use prog_tm_bmv.Stacks.{
  Header, Stack, mark_valid, mark_invalid, header_at, no_header, shift_down, mark_range, pop_back,
  push_back,
}
use prog_tm_bmv.Stacks.Conformant
use prog_tm_bmv.Stacks.Legacy
use prog_tm_bmv.Stacks.Shift.{
  shift_down_lem, shift_down_above, length-shift_down, mark_range_lem, length-mark_range,
}

-- Below `bound`, the elements have moved down by `count`, and the last `count` are invalid; nothing
-- else has changed.
pub record PopsFront (count bound : ℕ) (old new : List Header) : Type 0 where
  pub same_length : length new ≡ length old
  pub moved : (j : ℕ) → j + count < bound → header_at new j ≡ header_at old (j + count)
  pub gone : (j : ℕ) → j < bound → bound ≤ j + count → (header_at new j).valid ≡ false
  pub rest : (j : ℕ) → bound ≤ j → header_at new j ≡ header_at old j

module _ (xs : List Header) (bound num popped : ℕ) (pos : 0 < num) (fits : bound ≤ length xs)
    (few : popped ≡ min bound num) where
  abbrev shifted : List Header
  shifted = shift_down xs 0 (bound - popped) num

  abbrev popped_list : List Header
  popped_list = mark_range mark_invalid shifted (bound - popped) popped

  marked :
      (j : ℕ)
      → header_at popped_list j ≡ (
          if leb (bound - popped) j
          then if ltb j bound then mark_invalid (header_at shifted j) else header_at shifted j
          else header_at shifted j)
  marked j =
      mark_range_lem mark_invalid shifted (bound - popped) popped j
        (omega (arith, length-shift_down xs 0 (bound - popped) num))
      ∙ ground arith

  unshifted : (j : ℕ) → bound ≤ num → header_at shifted j ≡ header_at xs j
  unfolding shift_down
  unshifted j h =
      let none_left : bound - popped ≡ 0 = omega arith in
      ap (λ k. header_at (shift_down xs 0 k num) j) none_left

  popped-PopsFront : PopsFront popped bound xs popped_list
  popped-PopsFront = record {
    same_length =
        length-mark_range mark_invalid shifted (bound - popped) popped
        ∙ length-shift_down xs 0 (bound - popped) num;
    moved = λ j h.
        let same : num ≡ popped = omega arith in
        marked j
        ∙ ground (
          arith,
          shift_down_lem xs 0 (bound - popped) num j pos,
          ap (λ n. header_at xs (j + n)) same,
        );
    gone = λ j h h'. ap (λ x. x.valid) (marked j ∙ picked j (ground arith) (ground arith));
    rest = λ j h. marked j ∙ (elim (dec_lt num bound) [
      | yes some_left ↦ ground (arith, shift_down_above xs 0 (bound - popped) num j pos)
      | no none_left ↦ ground (arith, unshifted j)
    ]);
  }
    where
      picked :
          (j : ℕ)
          → leb (bound - popped) j ≡ true
          → ltb j bound ≡ true
          → (if leb (bound - popped) j
              then if ltb j bound then mark_invalid (header_at shifted j) else header_at shifted j
              else header_at shifted j)
            ≡ mark_invalid (header_at shifted j)
      picked j p q = rw (p, q)

-- In P4_16, a pop of up to as many headers as the stack has elements shifts all elements down and
-- leaves invalid headers at the end; next goes down as far as 0.
pub pop_front_num-PopsFront :
    (s : Stack) (num : ℕ)
    → 0 < num
    → num ≤ length s.elements
    → (after : Stack) × (Conformant.pop_front_num s num ≡ some (num, after))
      × (after.next ≡ s.next - num)
      × PopsFront num (length s.elements) s.elements after.elements
unfolding Conformant.pop_front_num
pop_front_num-PopsFront s num pos few = (
  record {
    elements =
        mark_range mark_invalid (shift_down s.elements 0 (length s.elements - num) num)
          (length s.elements - num) (length s.elements - (length s.elements - num));
    next = s.next - min s.next num;
  },
  rw (nonzero, inside, all_popped),
  omega arith,
  rw twice
      (popped-PopsFront s.elements (length s.elements) num num pos (omega arith) (omega arith)),
)
  where
    nonzero : (num == 0) ≡ false
    nonzero = ground arith

    inside : ltb (length s.elements) num ≡ false
    inside = ground arith

    all_popped : min num (length s.elements) ≡ num
    all_popped = omega arith

    twice : length s.elements - (length s.elements - num) ≡ num
    twice = omega arith

-- In P4_16, a pop of more headers than the stack has elements accesses an element outside the stack.
pub pop_front_num-none :
    (s : Stack) (num : ℕ) → length s.elements < num → Conformant.pop_front_num s num ≡ none
unfolding Conformant.pop_front_num
pop_front_num-none s num h = rw (nonzero, outside)
  where
    nonzero : (num == 0) ≡ false
    nonzero = ground arith

    outside : ltb (length s.elements) num ≡ true
    outside = ground arith

-- In P4_14, a pop of any number of headers shifts down the elements below next, leaves invalid
-- headers in the places freed, and takes them off next.
pub legacy_pop_front_num-PopsFront :
    (s : Stack) (num : ℕ)
    → 0 < num
    → s.next ≤ length s.elements
    → ((Legacy.pop_front_num s num).0 ≡ min s.next num)
      × ((Legacy.pop_front_num s num).1.next + min s.next num ≡ s.next)
      × PopsFront (min s.next num) s.next s.elements (Legacy.pop_front_num s num).1.elements
unfolding Legacy.pop_front_num
legacy_pop_front_num-PopsFront s num pos fits = (
  ap (λ r. r.0) result,
  ap (λ r. r.1.next + min s.next num) result ∙ omega arith,
  rw result (popped-PopsFront s.elements s.next num (min s.next num) pos fits refl),
)
  where
    nonzero : (num == 0) ≡ false
    nonzero = ground arith

    result : Legacy.pop_front_num s num ≡ (
      min s.next num,
      record {
        elements =
            mark_range mark_invalid
              (shift_down s.elements 0 (s.next - min s.next num) num)
              (s.next - min s.next num)
              (min s.next num);
        next = s.next - min s.next num;
      },
    )
    result = rw (nonzero, Legacy.pop_front_num)

push_done :
    (s : Stack)
    → s.next < length s.elements
    → push_back s ≡ (
      1,
      record {
        elements = set s.elements s.next (mark_valid (header_at s.elements s.next));
        next = s.next + 1;
      },
    )
unfolding push_back
push_done s h = rw room
  where
    room : (s.next == length s.elements) ≡ false
    room = ground arith

pop_done :
    (xs : List Header) (n : ℕ)
    → pop_back (record { elements = xs; next = n + 1 })
      ≡ (1, record { elements = set xs n (mark_invalid (header_at xs n)); next = n })
unfolding pop_back
pop_done xs n = rw (nonzero, back)
  where
    nonzero : (n + 1 == 0) ≡ false
    nonzero = ground arith

    back : n + 1 - 1 ≡ n
    back = omega arith

-- On a stack that is not full, push_back makes the header at next valid, and pop_back after it
-- goes back to the same next and makes that header invalid.
pub pop_back-push_back :
    (s : Stack)
    → s.next < length s.elements
    → ((header_at (push_back s).1.elements s.next).valid ≡ true)
      × ((pop_back (push_back s).1).1.next ≡ s.next)
      × ((header_at (pop_back (push_back s).1).1.elements s.next).valid ≡ false)
pop_back-push_back s h =
    rw (push_done s h, pop_done)
      (
        ap (λ x. x.valid) (get_or-set_self s.elements s.next (mark_valid old) no_header h),
        refl,
        ap (λ x. x.valid)
            (get_or-set_self pushed s.next (mark_invalid (header_at pushed s.next)) no_header
              (omega (arith, length-set s.elements s.next (mark_valid old)))),
      )
  where
    old : Header
    old = header_at s.elements s.next

    pushed : List Header
    pushed = set s.elements s.next (mark_valid (header_at s.elements s.next))

-- In P4_16, a pop of one header is pop_front(1), on a stack of at least one element.
pub pop_front-one :
    (s : Stack) → 0 < length s.elements → Conformant.pop_front s ≡ Conformant.pop_front_num s 1
unfolding Conformant.pop_front Conformant.pop_front_num mark_range
pop_front-one s h =
    let nonempty : (length s.elements == 0) ≡ false = ground arith in
    let inside : ltb (length s.elements) 1 ≡ false = ground arith in
    let one : min 1 (length s.elements) ≡ 1 = omega arith in
    let last : length s.elements - (length s.elements - 1) ≡ 1 = omega arith in
    let next : s.next - min s.next 1 ≡ s.next - 1 = omega arith in
    rw (nonempty, inside, one, last, next)
