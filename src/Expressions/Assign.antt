-- ===== src/Expressions/Assign.antt =====
-- What the assignment of registers does to its variables, for an operation and for a list of them.
use prog_tm_bmv.Base.{
  ℕ, zero, suc, ◌+◌, ◌-◌, ◌≤◌, ◌≡◌, refl, ap, sym, ◌∙◌, arith, List, [], ◌∷◌, ◌++◌, length, Option,
  none, some, ◌>>=◌, Option-cases, inl, inr,
}
use mathlib.Core.List.{append_assoc}
use prog_tm_bmv.Expressions.Ops.{
  Objects, Op, load_field, load_header, load_header_stack, load_last_header_stack_field, load_union,
  load_union_stack, load_bool, load_const, load_local, load_register_ref, load_register_gen,
  access_field, access_union_header, arithmetic, bit_neg, compare_op, compare_headers,
  compare_unions, connect, negation, valid_header, valid_union, ternary_op, skip, data_to_bool,
  bool_to_data, dereference_header_stack, last_stack_index, size_stack, dereference_union_stack,
}
use prog_tm_bmv.Expressions.Build.{
  Registers, release, claim, keep_count, assign_dest_register, assign_dest_registers,
}

-- the registers of some entries
unfoldable pub sum : List ℕ → ℕ
sum [] = 0
sum (n ∷ ns) = n + sum ns

sum-append : (xs ys : List ℕ) → sum (xs ++ ys) ≡ sum xs + sum ys
unfolding sum
sum-append [] ys = omega arith
sum-append (x ∷ xs) ys = omega (arith, sum-append xs ys)

-- From `r0` on, the entries `ns` have been added, and nothing below them has changed.
pub record Grown (r0 r : Registers) (ns : List ℕ) : Type 0 where
  pub entries : r.new_registers ≡ ns ++ r0.new_registers
  pub current : r.registers_curr ≡ r0.registers_curr + sum ns
  pub counted : r0.registers_cnt ≤ r.registers_cnt
  pub within : r.registers_curr ≤ r.registers_cnt

pub Grown-trans :
    (r0 r1 r2 : Registers) (ns ms : List ℕ)
    → Grown r0 r1 ns
    → Grown r1 r2 ms
    → Grown r0 r2 (ms ++ ns)
Grown-trans r0 r1 r2 ns ms g h = record {
  entries = h.entries ∙ ap (λ e. ms ++ e) g.entries ∙ sym (append_assoc ms ns r0.new_registers);
  current = omega (arith, h.current, g.current, sum-append ms ns);
  counted = omega (arith, h.counted, g.counted);
  within = h.within;
}

pub Grown-refl : (r : Registers) → r.registers_curr ≤ r.registers_cnt → Grown r r []
unfolding sum
Grown-refl r h = record { entries = refl; current = omega arith; counted = omega arith; within = h }

release_grown :
    (n : ℕ) (r0 r : Registers) (ns : List ℕ)
    → Grown r0 r ns
    → n ≤ length ns
    → (free : Registers) × (left : List ℕ) × (release n r ≡ some free)
      × Grown r0 free left
      × (free.registers_cnt ≡ r.registers_cnt)
unfolding release sum
release_grown zero r0 r ns g h = (r, ns, refl, g, refl)
release_grown (suc n) r0 r [] g h = absurd (omega arith)
release_grown (suc n) r0 r (k ∷ ns) g h =
    let (free, left, e, f, c) =
      release_grown n r0
        (record r { registers_curr = r.registers_curr - k; new_registers = ns ++ r0.new_registers })
        ns
        (record {
          entries = refl;
          current = omega (arith, g.current);
          counted = g.counted;
          within = omega (arith, g.within);
        })
        (omega arith) in
    (free, left, rw (g.entries, release) e, f, c)

-- the entries that an operation releases, and the registers that the entry of its result claims
module _ {O : Objects} where
  unfoldable pub pops : Op O → ℕ
  pops (load_register_gen a) = 1
  pops (arithmetic a i) = 2
  pops (bit_neg i) = 1
  pops (compare_op c) = 2
  pops data_to_bool = 1
  pops dereference_header_stack = 1
  pops dereference_union_stack = 1
  pops op = 0

  unfoldable pub pushes : Op O → Option ℕ
  pushes (load_field h f) = some 0
  pushes (load_last_header_stack_field s f) = some 0
  pushes (load_const k) = some 0
  pushes (load_local k) = some 0
  pushes (load_register_ref a k) = some 0
  pushes (load_register_gen a) = some 0
  pushes (access_field f) = some 0
  pushes (arithmetic a i) = some 1
  pushes (bit_neg i) = some 1
  pushes (bool_to_data i) = some 1
  pushes (last_stack_index i) = some 1
  pushes (size_stack i) = some 1
  pushes op = none

  -- the operation with its register set
  unfoldable pub with_dest : ℕ → Op O → Op O
  with_dest d (arithmetic a i) = arithmetic a d
  with_dest d (bit_neg i) = bit_neg d
  with_dest d (bool_to_data i) = bool_to_data d
  with_dest d (last_stack_index i) = last_stack_index d
  with_dest d (size_stack i) = size_stack d
  with_dest d op = op

abbrev pub number_of : Option ℕ → ℕ
number_of none = 0
number_of (some k) = 1

abbrev pub claims : Option ℕ → ℕ
claims none = 0
claims (some k) = k

abbrev claim_entry : Option ℕ → Registers → Registers
claim_entry none r = r
claim_entry (some k) r = claim k r

claimed :
    (r0 free : Registers) (left : List ℕ) (o : Option ℕ)
    → Grown r0 free left
    → (ns : List ℕ) × Grown r0 (keep_count (claim_entry o free)) ns
      × (number_of o ≤ length ns)
      × ((keep_count (claim_entry o free)).registers_curr ≡ free.registers_curr + claims o)
      × (free.registers_cnt ≤ (keep_count (claim_entry o free)).registers_cnt)
unfolding keep_count claim sum
claimed r0 free left none g = (
  left,
  record {
    entries = g.entries;
    current = g.current;
    counted = omega (arith, g.counted);
    within = omega arith;
  },
  omega arith,
  omega arith,
  omega arith,
)
claimed r0 free left (some k) g = (
  k ∷ left,
  record {
    entries = ap (◌∷◌ k) g.entries;
    current = omega (arith, g.current);
    counted = omega (arith, g.counted);
    within = omega arith;
  },
  omega arith,
  refl,
  omega arith,
)

module _ {O : Objects} where
  assign_dest_register_lem :
      (op : Op O) (r : Registers)
      → assign_dest_register op r ≡ (
          release (pops op) r >>= λ free.
          some (with_dest free.registers_curr op, keep_count (claim_entry (pushes op) free)))
  unfolding assign_dest_register pops pushes with_dest
  assign_dest_register_lem (load_field h f) r = refl
  assign_dest_register_lem (load_header h) r = refl
  assign_dest_register_lem (load_header_stack s) r = refl
  assign_dest_register_lem (load_last_header_stack_field s f) r = refl
  assign_dest_register_lem (load_union u) r = refl
  assign_dest_register_lem (load_union_stack s) r = refl
  assign_dest_register_lem (load_bool b) r = refl
  assign_dest_register_lem (load_const k) r = refl
  assign_dest_register_lem (load_local k) r = refl
  assign_dest_register_lem (load_register_ref a k) r = refl
  assign_dest_register_lem (load_register_gen a) r = refl
  assign_dest_register_lem (access_field f) r = refl
  assign_dest_register_lem (access_union_header k) r = refl
  assign_dest_register_lem (arithmetic a i) r = refl
  assign_dest_register_lem (bit_neg i) r = refl
  assign_dest_register_lem (compare_op c) r = refl
  assign_dest_register_lem (compare_headers e) r = refl
  assign_dest_register_lem (compare_unions e) r = refl
  assign_dest_register_lem (connect c) r = refl
  assign_dest_register_lem negation r = refl
  assign_dest_register_lem valid_header r = refl
  assign_dest_register_lem valid_union r = refl
  assign_dest_register_lem ternary_op r = refl
  assign_dest_register_lem (skip n) r = refl
  assign_dest_register_lem data_to_bool r = refl
  assign_dest_register_lem (bool_to_data i) r = refl
  assign_dest_register_lem dereference_header_stack r = refl
  assign_dest_register_lem (last_stack_index i) r = refl
  assign_dest_register_lem (size_stack i) r = refl
  assign_dest_register_lem dereference_union_stack r = refl

  -- An operation whose operands have their entries gets a register that is not below those of `r0`.
  pub assigned :
      (op : Op O) (r0 r : Registers) (ns : List ℕ)
      → Grown r0 r ns
      → pops op ≤ length ns
      → (d : ℕ) × (r' : Registers) × (ms : List ℕ) × (assign_dest_register op r
          ≡ some (with_dest d op, r'))
        × Grown r0 r' ms
        × (number_of (pushes op) ≤ length ms)
        × (r0.registers_curr ≤ d)
        × (d + claims (pushes op) ≡ r'.registers_curr)
        × (r.registers_cnt ≤ r'.registers_cnt)
  assigned op r0 r ns g h =
      let (free, left, e, f, c) = release_grown (pops op) r0 r ns g h in
      let (ms, grown, enough, current, counted) = claimed r0 free left (pushes op) f in
      (
        free.registers_curr,
        keep_count (claim_entry (pushes op) free),
        ms,
        assign_dest_register_lem op r ∙ rw e,
        grown,
        enough,
        omega (arith, f.current),
        sym current,
        omega (arith, c, counted),
      )

  pub assign-append :
      (xs ys : List (Op O)) (r0 r1 r2 : Registers) (xs' ys' : List (Op O))
      → assign_dest_registers xs r0 ≡ some (xs', r1)
      → assign_dest_registers ys r1 ≡ some (ys', r2)
      → assign_dest_registers (xs ++ ys) r0 ≡ some (xs' ++ ys', r2)
  unfolding assign_dest_registers
  assign-append [] ys r0 r1 r2 xs' ys' e f = ground (arith, f)
  assign-append (x ∷ xs) ys r0 r1 r2 xs' ys' e f = elim (Option-cases (assign_dest_register x r0)) [
    | inl n ↦ absurd (ground (arith, n))
    | inr (p, n) ↦ elim (Option-cases (assign_dest_registers xs p.1)) [
      | inl k ↦ absurd (ground (arith, n, k))
      | inr (q, k) ↦ ground (arith, n, k, assign-append xs ys p.1 q.1 r2 q.0 ys')
    ]
  ]

  pub assign-one :
      (op op' : Op O) (r r' : Registers)
      → assign_dest_register op r ≡ some (op', r')
      → assign_dest_registers (op ∷ []) r ≡ some (op' ∷ [], r')
  unfolding assign_dest_registers
  assign-one op op' r r' e = rw (e, assign_dest_registers)
