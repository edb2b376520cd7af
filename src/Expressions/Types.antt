-- ===== src/Expressions/Types.antt =====
-- The types that ExprOpcodesUtils reports for the operations of a tree.
use prog_tm_bmv.Base.{ℕ, ◌+◌, ◌≡◌, refl, ap, sym, ◌∙◌, List, [], ◌∷◌, ◌++◌, length, some}
use mathlib.Core.List.{append_assoc}
use prog_tm_bmv.Expressions.Ops
use prog_tm_bmv.Expressions.Ops.{
  ExprType, unknown_type, data_type, header_type, header_stack_type, bool_type, union_type,
  union_stack_type, Objects, Op, get_opcode_type,
}
use prog_tm_bmv.Expressions.Build.{Expression}
use prog_tm_bmv.Expressions.Source.{
  Leaf, Unary, Binary, Tree, field, header, stack, last_field, union, union_stack, truth, local,
  register, register_at, field_of, header_of, complement, negated, header_valid, union_valid,
  as_bool, as_data, last_index, stack_length, calculated, compared, same_header, same_union,
  connected, stack_element, union_element, leaf, constant, unary, binary, choice, leaf_op, unary_op,
  binary_op, write,
}
use prog_tm_bmv.Expressions.Code.{code, glue, consts_of, op_count, write-code}

module _ {O : Objects} where
  leaf_type : {t : ExprType} (l : Leaf O t) → get_opcode_type (leaf_op l) ≡ some t
  unfolding get_opcode_type leaf_op
  leaf_type (field h f) = refl
  leaf_type (header h) = refl
  leaf_type (stack s) = refl
  leaf_type (last_field s f) = refl
  leaf_type (union u) = refl
  leaf_type (union_stack s) = refl
  leaf_type (truth b) = refl
  leaf_type (local k) = refl
  leaf_type (register a k) = refl

  unary_type : {a t : ExprType} (u : Unary O a t) → get_opcode_type (unary_op u) ≡ some t
  unfolding get_opcode_type unary_op
  unary_type (register_at a) = refl
  unary_type (field_of f) = refl
  unary_type (header_of i) = refl
  unary_type complement = refl
  unary_type negated = refl
  unary_type header_valid = refl
  unary_type union_valid = refl
  unary_type as_bool = refl
  unary_type as_data = refl
  unary_type last_index = refl
  unary_type stack_length = refl

  binary_type : {a b t : ExprType} (f : Binary O a b t) → get_opcode_type (binary_op f) ≡ some t
  unfolding get_opcode_type binary_op
  binary_type (calculated a) = refl
  binary_type (compared c) = refl
  binary_type (same_header q) = refl
  binary_type (same_union q) = refl
  binary_type (connected c) = refl
  binary_type stack_element = refl
  binary_type union_element = refl

  Last : ExprType → List (Op O) → Type 0
  Last t xs =
      (ops : List (Op O)) × (op : Op O) × (xs ≡ ops ++ op ∷ []) × (get_opcode_type op ≡ some t)

  -- behind other operations
  behind : (t : ExprType) (ys xs : List (Op O)) → Last t xs → Last t (ys ++ xs)
  unfolding Last
  behind t ys xs (ops, op, e, f) =
      (ys ++ ops, op, ap (λ z. ys ++ z) e ∙ sym (append_assoc ys ops (op ∷ [])), f)

  code-Last : {t : ExprType} (n : ℕ) (e : Tree O t) → Last t (code n e)
  unfolding code Last glue get_opcode_type
  code-Last n (leaf l) = ([], leaf_op l, refl, leaf_type l)
  code-Last n (constant d) = ([], Ops.load_const n, refl, refl)
  code-Last n (unary u e) = (code n e, unary_op u, refl, unary_type u)
  code-Last {t = t} n (binary f e1 e2) =
      behind t (code n e1) _ (code (n + length (consts_of e1)) e2, binary_op f, refl, binary_type f)
  code-Last {t = t} n (choice e e1 e2) =
      let k = n + length (consts_of e) in
      let second = code (k + length (consts_of e1)) e2 in
      behind t (code n e) _ (
        behind t (Ops.ternary_op ∷ Ops.skip (op_count e1 + 1) ∷ []) _ (
          behind t (code k e1) _ (
            behind t (Ops.skip (op_count e2) ∷ []) second
              (code-Last (k + length (consts_of e1)) e2))))

-- The type that get_opcode_type reports for the operation written last is the type of the tree,
-- for every tree and wherever it is written.
pub last_opcode_type :
    {O : Objects} {t : ExprType} (e : Tree O t) (x : Expression O)
    → (ops : List (Op O)) × (op : Op O) × ((write e x).ops ≡ ops ++ op ∷ [])
      × (get_opcode_type op ≡ some t)
unfolding Last
last_opcode_type {t = t} e x =
    let (ops, op, same, type) = behind t x.ops _ (code-Last (length x.const_values) e) in
    (ops, op, ap (λ w. w.ops) (write-code e x) ∙ same, type)
