-- ===== src/Stacks/Legacy.antt =====
-- StackLegacy of src/bm_sim/stacks.cpp: the shifts of P4_14, over the elements below `next`. Each
-- returns how many elements it has shifted in.
use prog_tm_bmv.Base.{
  ℕ, ◌+◌, ◌-◌, ◌%◌, ◌^◌, ◌==◌, ltb, if◌then◌else◌, length, set, Option, none, some, min,
}
use prog_tm_bmv.Stacks.{
  Stack, mark_valid, mark_invalid, header_at, shift_down, shift_up, mark_range,
}

unfoldable pub pop_front : Stack → ℕ × Stack
pop_front s =
    if s.next == 0
    then (0, s)
    else (let next' = s.next - 1 in
        let shifted = shift_down s.elements 0 next' 1 in
        (
          1,
          record {
            elements = set shifted next' (mark_invalid (header_at shifted next'));
            next = next';
          },
        ))

unfoldable pub pop_front_num : Stack → ℕ → ℕ × Stack
pop_front_num s num =
    let popped = min s.next num in
    let next' = s.next - popped in
    if num == 0 then (0, s) else (
      popped,
      record {
        elements = mark_range mark_invalid (shift_down s.elements 0 next' num) next' popped;
        next = next';
      },
    )

-- In an empty stack `next - 1` wraps around, and the first access is outside.
unfoldable pub push_front : Stack → Option (ℕ × Stack)
push_front s =
    let next' = if ltb s.next (length s.elements) then s.next + 1 else s.next in
    if next' == 0
    then none
    else (let shifted = shift_up s.elements (next' - 1) 1 in
        some
          (1, record { elements = set shifted 0 (mark_valid (header_at shifted 0)); next = next' }))

unfoldable pub push_front_num : Stack → ℕ → Option (ℕ × Stack)
push_front_num s num =
    let size = length s.elements in
    let next' = min size ((s.next + num) % 2 ^ 64) in
    let pushed = min size num in
    if num == 0
    then some (0, s)
    else if next' == 0
    then none
    else some (
      pushed,
      record {
        elements = mark_range mark_valid (shift_up s.elements (next' - num) num) 0 pushed;
        next = next';
      },
    )
