-- ===== src/Expressions/Source.antt =====
-- Expressions as trees with types: what they mean, and how they are written with the functions of
-- Expression, operands first.
use prog_tm_bmv.Base.{
  ℕ, ◌+◌, ◌-◌, ◌%◌, ◌^◌, Bool, not, if◌then◌else◌, List, get_elem?, Option, some, ◌>>=◌,
}
use prog_tm_bmv.Expressions.Ops
use prog_tm_bmv.Expressions.Ops.{
  ExprType, unknown_type, data_type, header_type, header_stack_type, bool_type, union_type,
  union_stack_type, Objects, Op, Arithmetic, Comparison, Equality, Connective,
}
use prog_tm_bmv.Expressions.Build.{
  Expression, new_expression, push_back_op, push_back_load_const, push_back_ternary_op,
}
use prog_tm_bmv.Expressions.Eval.{connect_bools, equal_or_not, bool_number}

-- the operations without operands, but for a constant
pub data Leaf (O : Objects) : ExprType → Type 0 where
  field : ℕ → ℕ → Leaf O data_type
  header : ℕ → Leaf O header_type
  stack : ℕ → Leaf O header_stack_type
  last_field : ℕ → ℕ → Leaf O data_type
  union : ℕ → Leaf O union_type
  union_stack : ℕ → Leaf O union_stack_type
  truth : Bool → Leaf O bool_type
  local : ℕ → Leaf O data_type
  register : O.RegisterArray → ℕ → Leaf O data_type

-- those with one operand, by the types of the operand and of the result
pub data Unary (O : Objects) : ExprType → ExprType → Type 0 where
  register_at : O.RegisterArray → Unary O data_type data_type
  field_of : ℕ → Unary O header_type data_type
  header_of : ℕ → Unary O union_type header_type
  complement : Unary O data_type data_type
  negated : Unary O bool_type bool_type
  header_valid : Unary O header_type bool_type
  union_valid : Unary O union_type bool_type
  as_bool : Unary O data_type bool_type
  as_data : Unary O bool_type data_type
  last_index : Unary O header_stack_type data_type
  stack_length : Unary O header_stack_type data_type

-- those with two operands
pub data Binary (O : Objects) : ExprType → ExprType → ExprType → Type 0 where
  calculated : Arithmetic → Binary O data_type data_type data_type
  compared : Comparison → Binary O data_type data_type bool_type
  same_header : Equality → Binary O header_type header_type bool_type
  same_union : Equality → Binary O union_type union_type bool_type
  connected : Connective → Binary O bool_type bool_type bool_type
  stack_element : Binary O header_stack_type data_type header_type
  union_element : Binary O union_stack_type data_type union_type

pub data Tree (O : Objects) : ExprType → Type 0 where
  leaf : {t : ExprType} → Leaf O t → Tree O t
  constant : O.Data → Tree O data_type
  unary : {a t : ExprType} → Unary O a t → Tree O a → Tree O t
  binary : {a b t : ExprType} → Binary O a b t → Tree O a → Tree O b → Tree O t
  choice : {t : ExprType} → Tree O bool_type → Tree O t → Tree O t → Tree O t

-- the values of a type
abbrev pub Value : Objects → ExprType → Type 0
Value O unknown_type = Unit
Value O data_type = O.Data
Value O header_type = O.Header
Value O header_stack_type = O.HeaderStack
Value O bool_type = Bool
Value O union_type = O.HeaderUnion
Value O union_stack_type = O.HeaderUnionStack

module _ {O : Objects} (locals : List O.Data) where
  unfoldable pub leaf_meaning : {t : ExprType} → Leaf O t → Option (Value O t)
  leaf_meaning (field h f) = O.phv_header h >>= λ hdr. O.get_field hdr f
  leaf_meaning (header h) = O.phv_header h
  leaf_meaning (stack s) = O.phv_header_stack s
  leaf_meaning (last_field s f) =
      O.phv_header_stack s >>= λ hs. O.get_last hs >>= λ hdr. O.get_field hdr f
  leaf_meaning (union u) = O.phv_header_union u
  leaf_meaning (union_stack s) = O.phv_header_union_stack s
  leaf_meaning (truth b) = some b
  leaf_meaning (local k) = get_elem? locals k
  leaf_meaning (register a k) = O.register_at a k

module _ {O : Objects} where
  unfoldable pub unary_meaning : {a t : ExprType} → Unary O a t → Value O a → Option (Value O t)
  unary_meaning (register_at a) k = O.register_at a (O.to_size k)
  unary_meaning (field_of f) hdr = O.get_field hdr f
  unary_meaning (header_of k) u = O.union_at u k
  unary_meaning complement d = O.negate d
  unary_meaning negated b = some (not b)
  unary_meaning header_valid h = some (O.header_is_valid h)
  unary_meaning union_valid u = some (O.union_is_valid u)
  unary_meaning as_bool d = some (not (O.is_zero d))
  unary_meaning as_data b = some (O.of_number (bool_number b))
  unary_meaning last_index hs = some (O.of_number ((O.get_count hs + (2 ^ 64 - 1)) % 2 ^ 64))
  unary_meaning stack_length hs = some (O.of_number (O.get_count hs))

  unfoldable pub binary_meaning :
      {a b t : ExprType} → Binary O a b t → Value O a → Value O b → Option (Value O t)
  binary_meaning (calculated a) l r = O.apply a l r
  binary_meaning (compared c) l r = some (O.compare_data c l r)
  binary_meaning (same_header q) l r = some (equal_or_not q (O.header_cmp l r))
  binary_meaning (same_union q) l r = some (equal_or_not q (O.union_cmp l r))
  binary_meaning (connected c) l r = some (connect_bools c l r)
  binary_meaning stack_element hs d = O.stack_at hs (O.to_size d)
  binary_meaning union_element us d = O.union_stack_at us (O.to_size d)

module _ {O : Objects} (locals : List O.Data) where
  -- What a tree means: its parts from left to right, of a choice only the part that is chosen.
  unfoldable pub meaning : {t : ExprType} → Tree O t → Option (Value O t)
  meaning (leaf l) = leaf_meaning locals l
  meaning (constant d) = some d
  meaning (unary u e) = meaning e >>= unary_meaning u
  meaning (binary b e1 e2) =
      let right = meaning e2 in meaning e1 >>= λ l. right >>= λ r. binary_meaning b l r
  meaning (choice e e1 e2) =
      let first = meaning e1 in
      let second = meaning e2 in meaning e >>= λ b. if b then first else second

module _ {O : Objects} where
  unfoldable pub leaf_op : {t : ExprType} → Leaf O t → Op O
  leaf_op (field h f) = Ops.load_field h f
  leaf_op (header h) = Ops.load_header h
  leaf_op (stack s) = Ops.load_header_stack s
  leaf_op (last_field s f) = Ops.load_last_header_stack_field s f
  leaf_op (union u) = Ops.load_union u
  leaf_op (union_stack s) = Ops.load_union_stack s
  leaf_op (truth b) = Ops.load_bool b
  leaf_op (local k) = Ops.load_local k
  leaf_op (register a k) = Ops.load_register_ref a k

  unfoldable pub unary_op : {a t : ExprType} → Unary O a t → Op O
  unary_op (register_at a) = Ops.load_register_gen a
  unary_op (field_of f) = Ops.access_field f
  unary_op (header_of k) = Ops.access_union_header k
  unary_op complement = Ops.bit_neg 0
  unary_op negated = Ops.negation
  unary_op header_valid = Ops.valid_header
  unary_op union_valid = Ops.valid_union
  unary_op as_bool = Ops.data_to_bool
  unary_op as_data = Ops.bool_to_data 0
  unary_op last_index = Ops.last_stack_index 0
  unary_op stack_length = Ops.size_stack 0

  unfoldable pub binary_op : {a b t : ExprType} → Binary O a b t → Op O
  binary_op (calculated a) = Ops.arithmetic a 0
  binary_op (compared c) = Ops.compare_op c
  binary_op (same_header q) = Ops.compare_headers q
  binary_op (same_union q) = Ops.compare_unions q
  binary_op (connected c) = Ops.connect c
  binary_op stack_element = Ops.dereference_header_stack
  binary_op union_element = Ops.dereference_union_stack

  -- How a tree is written behind what is there.
  unfoldable pub write : {t : ExprType} → Tree O t → Expression O → Expression O
  write (leaf l) e = push_back_op (leaf_op l) e
  write (constant d) e = push_back_load_const d e
  write (unary u e1) e = push_back_op (unary_op u) (write e1 e)
  write (binary b e1 e2) e = push_back_op (binary_op b) (write e2 (write e1 e))
  write (choice c e1 e2) e =
      push_back_ternary_op (write e1 new_expression) (write e2 new_expression) (write c e)
