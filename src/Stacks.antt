-- ===== src/Stacks.antt =====
-- src/bm_sim/stacks.cpp: header stacks, for stacks of headers that are in no union. An access outside
-- the elements is undefined in the code and gives nothing here.
pub mod Legacy
pub mod Conformant
mod Shift
pub mod Push
pub mod Pop
mod Tests
use prog_tm_bmv.Base.{
  ℕ, zero, suc, ◌+◌, ◌-◌, ◌==◌, leb, Bool, true, false, if◌then◌else◌, List, [], ◌∷◌, ◌++◌, length,
  get_or, set, Option, none, some,
}

-- What `swap_values` exchanges of a `Header` (src/bm_sim/headers.cpp): the hidden validity field is
-- kept beside the other fields.
pub record Header : Type 0 where
  pub valid : Bool
  pub valid_field : ℕ
  pub fields : List ℕ
  pub nbytes_packet : ℕ

abbrev pub mark_valid : Header → Header
mark_valid h = record h { valid = true; valid_field = 1 }

abbrev pub mark_invalid : Header → Header
mark_invalid h = record h { valid = false; valid_field = 0 }

pub record Stack : Type 0 where
  pub elements : List Header
  pub next : ℕ

abbrev pub no_header : Header
no_header = record { valid = false; valid_field = 0; fields = []; nbytes_packet = 0 }

abbrev pub header_at : List Header → ℕ → Header
header_at xs i = get_or xs i no_header

-- `elements[i].swap_values(&elements[j])`
unfoldable pub swap_values : List Header → ℕ → ℕ → List Header
swap_values xs i j = set (set xs i (header_at xs j)) j (header_at xs i)

-- `for (i = lo; i < lo + k; i++) elements[i].swap_values(&elements[i + num])`
unfoldable pub shift_down : List Header → ℕ → ℕ → ℕ → List Header
shift_down xs lo zero num = xs
shift_down xs lo (suc k) num = shift_down (swap_values xs lo (lo + num)) (suc lo) k num

-- `for (i = num + k - 1; i > num - 1; i--) elements[i].swap_values(&elements[i - num])`
unfoldable pub shift_up : List Header → ℕ → ℕ → List Header
shift_up xs zero num = xs
shift_up xs (suc k) num = shift_up (swap_values xs (num + k) k) k num

-- `for (i = lo; i < lo + k; i++)` a mark on `elements[i]`
unfoldable pub mark_range : (Header → Header) → List Header → ℕ → ℕ → List Header
mark_range mark xs lo zero = xs
mark_range mark xs lo (suc k) = mark_range mark (set xs lo (mark (header_at xs lo))) (suc lo) k

unfoldable pub pop_back : Stack → ℕ × Stack
pop_back s = if s.next == 0 then (0, s) else (
  1,
  record {
    elements = set s.elements (s.next - 1) (mark_invalid (header_at s.elements (s.next - 1)));
    next = s.next - 1;
  },
)

unfoldable pub push_back : Stack → ℕ × Stack
push_back s = if s.next == length s.elements then (0, s) else (
  1,
  record {
    elements = set s.elements s.next (mark_valid (header_at s.elements s.next));
    next = s.next + 1;
  },
)

unfoldable pub get_depth : Stack → ℕ
get_depth s = length s.elements

unfoldable pub get_count : Stack → ℕ
get_count s = s.next

unfoldable pub is_full : Stack → Bool
is_full s = leb (length s.elements) s.next

unfoldable pub reset : Stack → Stack
reset s = record s { next = 0 }

-- `set_next_element`
unfoldable pub set_next_element : Stack → Header → Stack
set_next_element s e = record s { elements = s.elements ++ e ∷ [] }
