-- ===== src/Stacks/Tests.antt =====
-- The theorems on header stacks at a stack of three elements, two of them in use.
use prog_tm_bmv.Base.{
  ℕ, ◌≡◌, ◌+◌, ◌-◌, arith, true, false, [], ◌∷◌, length, Option, none, some, min, refl, ◌^◌,
}
use prog_tm_bmv.Stacks.{Header, Stack, no_header, header_at, push_back, pop_back}
use prog_tm_bmv.Stacks.Conformant
use prog_tm_bmv.Stacks.Legacy
use prog_tm_bmv.Stacks.Push.{Pushes, push_front_num-Pushes, legacy_push_front_num-Pushes}
use prog_tm_bmv.Stacks.Pop.{
  PopsFront, pop_front_num-PopsFront, legacy_pop_front_num-PopsFront, pop_back-push_back,
}

abbrev label : ℕ → Header
label n = record { valid = true; valid_field = 1; fields = n ∷ []; nbytes_packet = 4 }

abbrev two_of_three : Stack
two_of_three = record { elements = label 16 ∷ label 17 ∷ no_header ∷ []; next = 2 }

push_front_num-Pushes_example :
    Pushes false 2
      (length two_of_three.elements)
      two_of_three
      (Conformant.push_front_num two_of_three 2)
push_front_num-Pushes_example =
    push_front_num-Pushes two_of_three 2 (omega arith) (omega arith) (omega arith)

legacy_push_front_num-Pushes_example :
    Pushes true 1
      (min (length two_of_three.elements) (two_of_three.next + 1))
      two_of_three
      (Legacy.push_front_num two_of_three 1)
legacy_push_front_num-Pushes_example =
    legacy_push_front_num-Pushes two_of_three 1 (omega arith) (omega arith) (omega arith)

abbrev next_after : Option (ℕ × Stack) → ℕ
next_after none = 0
next_after (some (pushed, after)) = after.next

-- The sum of next and a large number wraps around, and leaves next lower than it was.
wrapped_push : next_after (Conformant.push_front_num two_of_three (2 ^ 64 - 1)) ≡ 1
unfolding Conformant.push_front_num
wrapped_push = refl

pop_front_num-PopsFront_example :
    (after : Stack) × (Conformant.pop_front_num two_of_three 2 ≡ some (2, after))
    × (after.next ≡ two_of_three.next - 2)
    × PopsFront 2 (length two_of_three.elements) two_of_three.elements after.elements
pop_front_num-PopsFront_example = pop_front_num-PopsFront two_of_three 2 (omega arith) (omega arith)

legacy_pop_front_num-PopsFront_example :
    ((Legacy.pop_front_num two_of_three 1).0 ≡ min two_of_three.next 1)
    × ((Legacy.pop_front_num two_of_three 1).1.next + min two_of_three.next 1 ≡ two_of_three.next)
    × PopsFront
        (min two_of_three.next 1)
        two_of_three.next
        two_of_three.elements
        (Legacy.pop_front_num two_of_three 1).1.elements
legacy_pop_front_num-PopsFront_example =
    legacy_pop_front_num-PopsFront two_of_three 1 (omega arith) (omega arith)

pop_back-push_back_example :
    ((header_at (push_back two_of_three).1.elements 2).valid ≡ true)
    × ((pop_back (push_back two_of_three).1).1.next ≡ 2)
    × ((header_at (pop_back (push_back two_of_three).1).1.elements 2).valid ≡ false)
pop_back-push_back_example = pop_back-push_back two_of_three (omega arith)
