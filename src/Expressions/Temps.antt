-- ===== src/Expressions/Temps.antt =====
-- ExpressionTemps: the stacks of temporaries on which an expression is evaluated, and its registers. A
-- stack is a list with its top first; a pop of an empty stack and a cast of a stack to the wrong class
-- have no result.
use prog_tm_bmv.Base.{
  ℕ, ◌-◌, Bool, List, [], ◌∷◌, ◌++◌, length, get_elem?, set, replicate, Option, none, some,
}
use prog_tm_bmv.Expressions.Ops.{Objects}

-- A pointer to data: to a register, or to data that evaluation does not change.
pub data DataPointer (O : Objects) : Type 0 where
  temp : ℕ → DataPointer O
  stored : O.Data → DataPointer O

-- `StackIface`
pub data StackIface (O : Objects) : Type 0 where
  header_stack : O.HeaderStack → StackIface O
  union_stack : O.HeaderUnionStack → StackIface O

pub record ExpressionTemps (O : Objects) : Type 0 where
  pub data_temps : List O.Data
  pub bool_temps_stack : List Bool
  pub data_temps_stack : List (DataPointer O)
  pub header_temps_stack : List O.Header
  pub stack_temps_stack : List (StackIface O)
  pub union_temps_stack : List O.HeaderUnion

module _ {O : Objects} where
  -- The registers that are there are kept, at least four.
  unfoldable pub prepare : ExpressionTemps O → ℕ → ExpressionTemps O
  prepare t data_registers_cnt = record {
    data_temps =
        t.data_temps ++ replicate (data_registers_cnt - length t.data_temps) (O.of_number 0);
    bool_temps_stack = [];
    data_temps_stack = [];
    header_temps_stack = [];
    stack_temps_stack = [];
    union_temps_stack = [];
  }

  unfoldable pub push_bool : Bool → ExpressionTemps O → ExpressionTemps O
  push_bool b t = record t { bool_temps_stack = b ∷ t.bool_temps_stack }

  unfoldable pub pop_bool : ExpressionTemps O → Option (Bool × ExpressionTemps O)
  pop_bool t = elim t.bool_temps_stack [
    | [] ↦ none
    | b ∷ rest ↦ some (b, record t { bool_temps_stack = rest })
  ]

  unfoldable pub push_data : DataPointer O → ExpressionTemps O → ExpressionTemps O
  push_data p t = record t { data_temps_stack = p ∷ t.data_temps_stack }

  unfoldable pub read : ExpressionTemps O → DataPointer O → Option O.Data
  read t (temp i) = get_elem? t.data_temps i
  read t (stored d) = some d

  -- The pointer is read when it is popped; nothing is written between.
  unfoldable pub pop_data : ExpressionTemps O → Option (O.Data × ExpressionTemps O)
  pop_data t = elim t.data_temps_stack [
    | [] ↦ none
    | p ∷ rest ↦ elim (read t p) [
      | none ↦ none
      | some d ↦ some (d, record t { data_temps_stack = rest })
    ]
  ]

  unfoldable pub push_header : O.Header → ExpressionTemps O → ExpressionTemps O
  push_header h t = record t { header_temps_stack = h ∷ t.header_temps_stack }

  unfoldable pub pop_header : ExpressionTemps O → Option (O.Header × ExpressionTemps O)
  pop_header t = elim t.header_temps_stack [
    | [] ↦ none
    | h ∷ rest ↦ some (h, record t { header_temps_stack = rest })
  ]

  unfoldable pub push_stack : StackIface O → ExpressionTemps O → ExpressionTemps O
  push_stack s t = record t { stack_temps_stack = s ∷ t.stack_temps_stack }

  unfoldable pub pop_header_stack : ExpressionTemps O → Option (O.HeaderStack × ExpressionTemps O)
  pop_header_stack t = elim t.stack_temps_stack [
    | [] ↦ none
    | s ∷ rest ↦ elim s [
      | header_stack hs ↦ some (hs, record t { stack_temps_stack = rest })
      | union_stack us ↦ none
    ]
  ]

  unfoldable pub pop_union_stack :
      ExpressionTemps O → Option (O.HeaderUnionStack × ExpressionTemps O)
  pop_union_stack t = elim t.stack_temps_stack [
    | [] ↦ none
    | s ∷ rest ↦ elim s [
      | header_stack hs ↦ none
      | union_stack us ↦ some (us, record t { stack_temps_stack = rest })
    ]
  ]

  unfoldable pub push_union : O.HeaderUnion → ExpressionTemps O → ExpressionTemps O
  push_union u t = record t { union_temps_stack = u ∷ t.union_temps_stack }

  unfoldable pub pop_union : ExpressionTemps O → Option (O.HeaderUnion × ExpressionTemps O)
  pop_union t = elim t.union_temps_stack [
    | [] ↦ none
    | u ∷ rest ↦ some (u, record t { union_temps_stack = rest })
  ]

  -- A register is written, and a pointer to it pushed.
  unfoldable pub push_temp : ℕ → O.Data → ExpressionTemps O → ExpressionTemps O
  push_temp i d t = record t {
    data_temps = set t.data_temps i d;
    data_temps_stack = temp i ∷ t.data_temps_stack;
  }
