-- ===== src/Expressions/Build.antt =====
-- How an expression is put together, and the assignment of registers to its operations.
use prog_tm_bmv.Base.{
  ℕ, zero, suc, ◌+◌, ◌-◌, max, List, [], ◌∷◌, ◌++◌, length, map, Option, none, some, ◌>>=◌,
}
use prog_tm_bmv.Expressions.Ops.{
  Objects, Op, load_field, load_last_header_stack_field, load_const, load_local, load_register_ref,
  load_register_gen, access_field, arithmetic, bit_neg, compare_op, ternary_op, skip, data_to_bool,
  bool_to_data, dereference_header_stack, last_stack_index, size_stack, dereference_union_stack,
}

pub record Expression (O : Objects) : Type 0 where
  pub ops : List (Op O)
  pub const_values : List O.Data
  pub data_registers_cnt : ℕ

-- The variables of `assign_dest_registers`, the stack with its top first.
pub record Registers : Type 0 where
  pub registers_cnt : ℕ
  pub registers_curr : ℕ
  pub new_registers : List ℕ

abbrev pub no_registers : Registers
no_registers = record { registers_cnt = 0; registers_curr = 0; new_registers = [] }

-- The top `n` entries are popped, and their registers given back. Nothing where the source reads the
-- top of an empty stack.
unfoldable pub release : ℕ → Registers → Option Registers
release zero r = some r
release (suc n) r = elim r.new_registers [
  | [] ↦ none
  | top ∷ rest ↦
      release n (record r { registers_curr = r.registers_curr - top; new_registers = rest })
]

-- An entry is pushed, with its registers.
unfoldable pub claim : ℕ → Registers → Registers
claim n r = record r { registers_curr = r.registers_curr + n; new_registers = n ∷ r.new_registers }

-- The end of a round of the loop.
unfoldable pub keep_count : Registers → Registers
keep_count r = record r { registers_cnt = max r.registers_cnt r.registers_curr }

module _ {O : Objects} where
  abbrev pub new_expression : Expression O
  new_expression = record { ops = []; const_values = []; data_registers_cnt = 0 }

  unfoldable pub push_back_op : Op O → Expression O → Expression O
  push_back_op op e = record e { ops = e.ops ++ op ∷ [] }

  unfoldable pub push_back_load_const : O.Data → Expression O → Expression O
  push_back_load_const d e = record e {
    ops = e.ops ++ load_const (length e.const_values) ∷ [];
    const_values = e.const_values ++ d ∷ [];
  }

  unfoldable pub shift_const : ℕ → Op O → Op O
  shift_const n (load_const k) = load_const (k + n)
  shift_const n op = op

  unfoldable pub append_expression : Expression O → Expression O → Expression O
  append_expression e1 e = record e {
    ops = e.ops ++ map (shift_const (length e.const_values)) e1.ops;
    const_values = e.const_values ++ e1.const_values;
  }

  unfoldable pub push_back_ternary_op : Expression O → Expression O → Expression O → Expression O
  push_back_ternary_op e1 e2 e =
      let taken =
        append_expression e1
          (push_back_op (skip (length e1.ops + 1)) (push_back_op ternary_op e)) in
      append_expression e2 (push_back_op (skip (length e2.ops)) taken)

  -- An operation whose operands release `n` entries and whose result claims `k` registers.
  replaces : ℕ → ℕ → Registers → (ℕ → Op O) → Option (Op O × Registers)
  replaces n k r op = do
    free ← release n r
    some (op free.registers_curr, keep_count (claim k free))

  -- An operation whose operands release `n` entries and whose result is no data.
  releases : ℕ → Registers → Op O → Option (Op O × Registers)
  releases n r op = do free ← release n r; some (op, keep_count free)

  -- A round of the loop of `assign_dest_registers`.
  unfoldable pub assign_dest_register : Op O → Registers → Option (Op O × Registers)
  unfolding replaces releases
  assign_dest_register (arithmetic a d) r = replaces 2 1 r (arithmetic a)
  assign_dest_register (bit_neg d) r = replaces 1 1 r bit_neg
  assign_dest_register (bool_to_data d) r = replaces 0 1 r bool_to_data
  assign_dest_register (last_stack_index d) r = replaces 0 1 r last_stack_index
  assign_dest_register (size_stack d) r = replaces 0 1 r size_stack
  assign_dest_register (compare_op c) r = releases 2 r (compare_op c)
  assign_dest_register data_to_bool r = releases 1 r data_to_bool
  assign_dest_register dereference_header_stack r = releases 1 r dereference_header_stack
  assign_dest_register dereference_union_stack r = releases 1 r dereference_union_stack
  assign_dest_register (load_const k) r = replaces 0 0 r (λ _. load_const k)
  assign_dest_register (load_local k) r = replaces 0 0 r (λ _. load_local k)
  assign_dest_register (load_field h f) r = replaces 0 0 r (λ _. load_field h f)
  assign_dest_register (load_last_header_stack_field s f) r =
      replaces 0 0 r (λ _. load_last_header_stack_field s f)
  assign_dest_register (load_register_ref a k) r = replaces 0 0 r (λ _. load_register_ref a k)
  assign_dest_register (access_field f) r = replaces 0 0 r (λ _. access_field f)
  assign_dest_register (load_register_gen a) r = replaces 1 0 r (λ _. load_register_gen a)
  assign_dest_register op r = releases 0 r op

  unfoldable pub assign_dest_registers : List (Op O) → Registers → Option (List (Op O) × Registers)
  assign_dest_registers [] r = some ([], r)
  assign_dest_registers (op ∷ ops) r = elim (assign_dest_register op r) [
    | none ↦ none
    | some (op', r1) ↦ elim (assign_dest_registers ops r1) [
      | none ↦ none
      | some (ops', r2) ↦ some (op' ∷ ops', r2)
    ]
  ]

  unfoldable pub build : Expression O → Option (Expression O)
  build e = elim (assign_dest_registers e.ops no_registers) [
    | none ↦ none
    | some (ops, r) ↦ some (record e { ops = ops; data_registers_cnt = r.registers_cnt })
  ]
