-- ===== src/Expressions/Evaluate.antt =====
-- The results of a built tree's evaluation, by their type.
use prog_tm_bmv.Base.{
  ℕ, ◌≡◌, ap, arith, List, ◌∷◌, length, Option, none, some, List-cases, inl, inr,
}
use prog_tm_bmv.Expressions.Ops.{
  ExprType, unknown_type, data_type, header_type, header_stack_type, bool_type, union_type,
  union_stack_type, Objects, Op,
}
use prog_tm_bmv.Expressions.Build.{Expression, new_expression, build}
use prog_tm_bmv.Expressions.Temps.{
  ExpressionTemps, pop_bool, pop_header, pop_header_stack, pop_union, pop_union_stack,
}
use prog_tm_bmv.Expressions.Eval.{
  eval, eval_bool, eval_arith, eval_header, eval_header_stack, eval_header_union,
  eval_header_union_stack,
}
use prog_tm_bmv.Expressions.Source.{
  Leaf, Unary, Binary, Tree, field, header, stack, last_field, union, union_stack, truth, local,
  register, register_at, field_of, header_of, complement, negated, header_valid, union_valid,
  as_bool, as_data, last_index, stack_length, calculated, compared, same_header, same_union,
  connected, stack_element, union_element, leaf, constant, unary, binary, choice, Value, meaning,
  write,
}
use prog_tm_bmv.Expressions.Steps.{Result, pop_data_lem}
use prog_tm_bmv.Expressions.Meaning.{built, no_items}

-- The functions of Expression that evaluate, by the type of the result.
abbrev pub evaluate :
    {O : Objects} (t : ExprType)
    → Expression O
    → List O.Data
    → ExpressionTemps O
    → Option (Value O t)
evaluate unknown_type x ls y = none
evaluate data_type x ls y = eval_arith x ls y
evaluate header_type x ls y = eval_header x ls y
evaluate header_stack_type x ls y = eval_header_stack x ls y
evaluate bool_type x ls y = eval_bool x ls y
evaluate union_type x ls y = eval_header_union x ls y
evaluate union_stack_type x ls y = eval_header_union_stack x ls y

-- the types of values
abbrev Known : ExprType → Type 0
Known unknown_type = ⊥
Known data_type = Unit
Known header_type = Unit
Known header_stack_type = Unit
Known bool_type = Unit
Known union_type = Unit
Known union_stack_type = Unit

module _ {O : Objects} where
  leaf_known : {t : ExprType} → Leaf O t → Known t
  leaf_known (field h f) = tt
  leaf_known (header h) = tt
  leaf_known (stack s) = tt
  leaf_known (last_field s f) = tt
  leaf_known (union u) = tt
  leaf_known (union_stack s) = tt
  leaf_known (truth b) = tt
  leaf_known (local k) = tt
  leaf_known (register a k) = tt

  unary_known : {a t : ExprType} → Unary O a t → Known t
  unary_known (register_at a) = tt
  unary_known (field_of f) = tt
  unary_known (header_of i) = tt
  unary_known complement = tt
  unary_known negated = tt
  unary_known header_valid = tt
  unary_known union_valid = tt
  unary_known as_bool = tt
  unary_known as_data = tt
  unary_known last_index = tt
  unary_known stack_length = tt

  binary_known : {a b t : ExprType} → Binary O a b t → Known t
  binary_known (calculated a) = tt
  binary_known (compared c) = tt
  binary_known (same_header q) = tt
  binary_known (same_union q) = tt
  binary_known (connected c) = tt
  binary_known stack_element = tt
  binary_known union_element = tt

  tree_known : {t : ExprType} → Tree O t → Known t
  tree_known (leaf l) = leaf_known l
  tree_known (constant d) = tt
  tree_known (unary u e) = unary_known u
  tree_known (binary f e1 e2) = binary_known f
  tree_known (choice e e1 e2) = tree_known e1

  evaluate-Result :
      (t : ExprType) (x : Expression O) (ls : List O.Data) (y : ExpressionTemps O)
      (ts : List O.Data) (hi : ℕ) (o : Option (Value O t)) (op : Op O) (ops : List (Op O))
      → Known t
      → x.ops ≡ op ∷ ops
      → Result O t 0 hi (no_items O) ts o (eval x ls y)
      → evaluate t x ls y ≡ o
  unfolding eval_arith eval_bool eval_header eval_header_stack eval_header_union
      eval_header_union_stack pop_bool pop_header pop_header_stack pop_union pop_union_stack
  evaluate-Result unknown_type x ls y ts hi o op ops k h r = absurd k
  evaluate-Result data_type x ls y ts hi none op ops k h r = rw (h, r, eval_arith)
  evaluate-Result data_type x ls y ts hi (some v) op ops k h (j, ts', r, kept, m) =
      rw (h, r, eval_arith, pop_data_lem hi ts' (no_items O) j v m)
  evaluate-Result bool_type x ls y ts hi none op ops k h r = rw (h, r, eval_bool)
  evaluate-Result bool_type x ls y ts hi (some v) op ops k h (j, ts', r, kept, m) =
      rw (h, r, eval_bool, pop_bool) (ap some m)
  evaluate-Result header_type x ls y ts hi none op ops k h r = rw (r, eval_header)
  evaluate-Result header_type x ls y ts hi (some v) op ops k h (j, ts', r, kept, m) =
      rw (r, eval_header, pop_header) (ap some m)
  evaluate-Result header_stack_type x ls y ts hi none op ops k h r = rw (r, eval_header_stack)
  evaluate-Result header_stack_type x ls y ts hi (some v) op ops k h (j, ts', r, kept, m) =
      rw (r, eval_header_stack, pop_header_stack) (ap some m)
  evaluate-Result union_type x ls y ts hi none op ops k h r = rw (r, eval_header_union)
  evaluate-Result union_type x ls y ts hi (some v) op ops k h (j, ts', r, kept, m) =
      rw (r, eval_header_union, pop_union) (ap some m)
  evaluate-Result union_stack_type x ls y ts hi none op ops k h r = rw (r, eval_header_union_stack)
  evaluate-Result union_stack_type x ls y ts hi (some v) op ops k h (j, ts', r, kept, m) =
      rw (r, eval_header_union_stack, pop_union_stack) (ap some m)

-- A tree that is written with the functions of Expression can be built, that is, the assignment of
-- registers never reads the top of an empty stack, and evaluating the result by the function for
-- its type yields the tree's meaning, whatever the locals are and whatever an earlier evaluation
-- left.
pub evaluate-write :
    {O : Objects} {t : ExprType} (e : Tree O t) (ls : List O.Data) (y : ExpressionTemps O)
    → (x : Expression O) × (build (write e new_expression) ≡ some x)
      × (evaluate t x ls y ≡ meaning ls e)
evaluate-write {t = t} e ls y =
    let (x, b, h, ts, hi, r) = built e ls y in
    elim (List-cases x.ops) [
      | inl empty ↦ absurd (omega (arith, h, ap length empty))
      | inr (op, ops, same) ↦
          (x, b, evaluate-Result t x ls y ts hi (meaning ls e) op ops (tree_known e) same r)
    ]
