-- ===== src/Expressions/Ops.antt =====
-- The operations of an expression, and the objects of other components that they work on.
use prog_tm_bmv.Base.{ℕ, Bool, Option, none, some}

-- `ExprType`
pub data ExprType : Type 0 where
  unknown_type data_type header_type header_stack_type bool_type union_type union_stack_type :
      ExprType

-- the functions of Data that ADD, SUB, MOD, DIV, MUL, SHIFT_LEFT, SHIFT_RIGHT, BIT_AND, BIT_OR, BIT_XOR,
-- TWO_COMP_MOD, USAT_CAST and SAT_CAST call
pub data Arithmetic : Type 0 where
  add sub mod_ div mul shift_left shift_right bit_and bit_or bit_xor two_comp_mod usat_cast
        sat_cast :
      Arithmetic

-- EQ_DATA, NEQ_DATA, GT_DATA, LT_DATA, GET_DATA and LET_DATA
pub data Comparison : Type 0 where
  eq neq gt lt get let_ : Comparison

pub data Equality : Type 0 where
  eq neq : Equality

-- EQ_BOOL, NEQ_BOOL, AND and OR
pub data Connective : Type 0 where
  eq neq and or : Connective

-- What expressions use of a packet's PHV and of the classes of its objects. An access out of range and
-- arithmetic that the class Data refuses have no result.
pub record Objects : Type 1 where
  pub Data : Type 0
  pub Header : Type 0
  pub HeaderStack : Type 0
  pub HeaderUnion : Type 0
  pub HeaderUnionStack : Type 0
  pub RegisterArray : Type 0
  pub phv_header : ℕ → Option Header
  pub phv_header_stack : ℕ → Option HeaderStack
  pub phv_header_union : ℕ → Option HeaderUnion
  pub phv_header_union_stack : ℕ → Option HeaderUnionStack
  pub get_field : Header → ℕ → Option Data
  pub header_cmp : Header → Header → Bool
  pub header_is_valid : Header → Bool
  pub get_last : HeaderStack → Option Header
  pub get_count : HeaderStack → ℕ
  pub stack_at : HeaderStack → ℕ → Option Header
  pub union_at : HeaderUnion → ℕ → Option Header
  pub union_cmp : HeaderUnion → HeaderUnion → Bool
  pub union_is_valid : HeaderUnion → Bool
  pub union_stack_at : HeaderUnionStack → ℕ → Option HeaderUnion
  pub register_at : RegisterArray → ℕ → Option Data
  pub apply : Arithmetic → Data → Data → Option Data
  pub negate : Data → Option Data
  pub compare_data : Comparison → Data → Data → Bool
  pub is_zero : Data → Bool
  pub of_number : ℕ → Data
  pub to_size : Data → ℕ

-- `Op`, with the operands that its opcode uses. The last argument of an operation with a register is
-- `data_dest_index`.
pub data Op (O : Objects) : Type 0 where
  load_field : ℕ → ℕ → Op O
  load_header : ℕ → Op O
  load_header_stack : ℕ → Op O
  load_last_header_stack_field : ℕ → ℕ → Op O
  load_union : ℕ → Op O
  load_union_stack : ℕ → Op O
  load_bool : Bool → Op O
  load_const : ℕ → Op O
  load_local : ℕ → Op O
  load_register_ref : O.RegisterArray → ℕ → Op O
  load_register_gen : O.RegisterArray → Op O
  access_field : ℕ → Op O
  access_union_header : ℕ → Op O
  arithmetic : Arithmetic → ℕ → Op O
  bit_neg : ℕ → Op O
  compare_op : Comparison → Op O
  compare_headers : Equality → Op O
  compare_unions : Equality → Op O
  connect : Connective → Op O
  negation : Op O
  valid_header : Op O
  valid_union : Op O
  ternary_op : Op O
  skip : ℕ → Op O
  data_to_bool : Op O
  bool_to_data : ℕ → Op O
  dereference_header_stack : Op O
  last_stack_index : ℕ → Op O
  size_stack : ℕ → Op O
  dereference_union_stack : Op O

module _ {O : Objects} where
  -- Nothing where the source asserts.
  unfoldable pub get_eq_opcode : ExprType → Option (Op O)
  get_eq_opcode data_type = some (compare_op Comparison.eq)
  get_eq_opcode header_type = some (compare_headers Equality.eq)
  get_eq_opcode bool_type = some (connect Connective.eq)
  get_eq_opcode union_type = some (compare_unions Equality.eq)
  get_eq_opcode t = none

  unfoldable pub get_neq_opcode : ExprType → Option (Op O)
  get_neq_opcode data_type = some (compare_op Comparison.neq)
  get_neq_opcode header_type = some (compare_headers Equality.neq)
  get_neq_opcode bool_type = some (connect Connective.neq)
  get_neq_opcode union_type = some (compare_unions Equality.neq)
  get_neq_opcode t = none

  -- the type of what an operation pushes; nothing where the source asserts
  unfoldable pub get_opcode_type : Op O → Option ExprType
  get_opcode_type (load_field h f) = some data_type
  get_opcode_type (load_const k) = some data_type
  get_opcode_type (load_local k) = some data_type
  get_opcode_type (load_register_ref r k) = some data_type
  get_opcode_type (load_register_gen r) = some data_type
  get_opcode_type (load_last_header_stack_field s f) = some data_type
  get_opcode_type (arithmetic a d) = some data_type
  get_opcode_type (bit_neg d) = some data_type
  get_opcode_type (bool_to_data d) = some data_type
  get_opcode_type (last_stack_index d) = some data_type
  get_opcode_type (size_stack d) = some data_type
  get_opcode_type (access_field f) = some data_type
  get_opcode_type (load_bool b) = some bool_type
  get_opcode_type (compare_op c) = some bool_type
  get_opcode_type (compare_headers e) = some bool_type
  get_opcode_type (compare_unions e) = some bool_type
  get_opcode_type (connect c) = some bool_type
  get_opcode_type negation = some bool_type
  get_opcode_type valid_header = some bool_type
  get_opcode_type valid_union = some bool_type
  get_opcode_type data_to_bool = some bool_type
  get_opcode_type (load_header h) = some header_type
  get_opcode_type dereference_header_stack = some header_type
  get_opcode_type (access_union_header k) = some header_type
  get_opcode_type (load_header_stack s) = some header_stack_type
  get_opcode_type (load_union u) = some union_type
  get_opcode_type dereference_union_stack = some union_type
  get_opcode_type (load_union_stack s) = some union_stack_type
  get_opcode_type ternary_op = some unknown_type
  get_opcode_type (skip n) = none
