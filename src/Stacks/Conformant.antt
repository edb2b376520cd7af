-- ===== src/Stacks/Conformant.antt =====
-- StackP4_16 of src/bm_sim/stacks.cpp: the shifts of P4_16, over all elements. Each returns how many
-- elements it has shifted in.
use prog_tm_bmv.Base.{
  ℕ, ◌+◌, ◌-◌, ◌%◌, ◌^◌, ◌==◌, ltb, if◌then◌else◌, length, set, Option, none, some, min,
}
use prog_tm_bmv.Stacks.{Stack, mark_invalid, header_at, shift_down, shift_up, mark_range}

unfoldable pub pop_front : Stack → Option (ℕ × Stack)
pop_front s =
    let size = length s.elements in
    let next' = s.next - 1 in
    if size == 0
    then none
    else (let shifted = shift_down s.elements 0 (size - 1) 1 in
        some (
          1,
          record {
            elements = set shifted (size - 1) (mark_invalid (header_at shifted (size - 1)));
            next = next';
          },
        ))

-- For `num > size` the bound `size - num` wraps around, and the first access is outside.
unfoldable pub pop_front_num : Stack → ℕ → Option (ℕ × Stack)
pop_front_num s num =
    let size = length s.elements in
    if num == 0
    then some (0, s)
    else if ltb size num
    then none
    else some (
      min num size,
      record {
        elements =
            mark_range mark_invalid (shift_down s.elements 0 (size - num) num) (size - num)
              (size - (size - num));
        next = s.next - min s.next num;
      },
    )

-- In an empty stack `size - 1` wraps around, and the first access is outside.
unfoldable pub push_front : Stack → Option (ℕ × Stack)
push_front s =
    let size = length s.elements in
    let next' = if ltb s.next size then s.next + 1 else s.next in
    if size == 0
    then none
    else (let shifted = shift_up s.elements (size - 1) 1 in
        some (
          1,
          record { elements = set shifted 0 (mark_invalid (header_at shifted 0)); next = next' },
        ))

unfoldable pub push_front_num : Stack → ℕ → Option (ℕ × Stack)
push_front_num s num =
    let size = length s.elements in
    let pushed = min size num in
    if num == 0
    then some (0, s)
    else if size == 0
    then none
    else some (
      pushed,
      record {
        elements = mark_range mark_invalid (shift_up s.elements (size - num) num) 0 pushed;
        next = min size ((s.next + num) % 2 ^ 64);
      },
    )
