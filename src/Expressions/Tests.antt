-- ===== src/Expressions/Tests.antt =====
-- Runs of the expressions on numbers.
use prog_tm_bmv.Base.{
  subst, ℕ, zero, suc, ◌+◌, ◌*◌, ◌≡◌, refl, Bool, true, List, [], ◌∷◌, ◌++◌, length, get_elem?,
  Option, none, some, ◌>>=◌, ltb, leb, ◌==◌,
}
use mathlib.Core.Option.{some-injective}
use prog_tm_bmv.Expressions.Ops
use prog_tm_bmv.Expressions.Ops.{
  ExprType, data_type, bool_type, header_type, Objects, Op, Arithmetic, Comparison, Equality,
  get_opcode_type,
}
use prog_tm_bmv.Expressions.Build.{
  push_back_op, push_back_load_const, push_back_ternary_op, append_expression, shift_const,
  assign_dest_registers, assign_dest_register, release, claim, keep_count, Expression,
  new_expression, build,
}
use prog_tm_bmv.Expressions.Temps.{
  prepare, pop_data, read, pop_bool, pop_header, push_data, push_bool, push_header, push_temp,
  ExpressionTemps,
}
use prog_tm_bmv.Expressions.Eval.{eval, eval_loop, step, run_op, load, compute, test, eval_arith}
use prog_tm_bmv.Expressions.Source.{
  leaf_meaning, unary_meaning, binary_meaning, leaf_op, unary_op, binary_op, Tree, field, local,
  compared, calculated, field_of, header, leaf, constant, unary, binary, choice, meaning, write,
}
use prog_tm_bmv.Expressions.Evaluate.{evaluate, evaluate-write}
use prog_tm_bmv.Expressions.Resolve.{
  resolve, offsets, get_input_offsets, AreFields, resolve-eval_arith,
}
use prog_tm_bmv.Expressions.Types.{last_opcode_type}

-- the functions of Data on numbers, without a width
abbrev applied : Arithmetic → ℕ → ℕ → Option ℕ
applied Arithmetic.add a b = some (a + b)
applied Arithmetic.mul a b = some (a * b)
applied o a b = none

abbrev ordered : Comparison → ℕ → ℕ → Bool
ordered Comparison.eq a b = a == b
ordered Comparison.lt a b = ltb a b
ordered o a b = leb b a

-- A header is the list of its fields, and a stack a list of headers.
abbrev numbers : Objects
numbers = record {
  Data = ℕ;
  Header = List ℕ;
  HeaderStack = List (List ℕ);
  HeaderUnion = List (List ℕ);
  HeaderUnionStack = List (List (List ℕ));
  RegisterArray = List ℕ;
  phv_header = λ i. get_elem? ((3 ∷ 4 ∷ []) ∷ (5 ∷ 6 ∷ []) ∷ []) i;
  phv_header_stack = λ i. none;
  phv_header_union = λ i. none;
  phv_header_union_stack = λ i. none;
  get_field = λ h i. get_elem? h i;
  header_cmp = λ a b. length a == length b;
  header_is_valid = λ h. true;
  get_last = λ s. none;
  get_count = λ s. length s;
  stack_at = λ s i. get_elem? s i;
  union_at = λ u i. get_elem? u i;
  union_cmp = λ a b. length a == length b;
  union_is_valid = λ u. true;
  union_stack_at = λ s i. get_elem? s i;
  register_at = λ a i. get_elem? a i;
  apply = applied;
  negate = λ d. none;
  compare_data = ordered;
  is_zero = λ d. d == 0;
  of_number = λ n. n;
  to_size = λ n. n;
}

-- (field 1 of header 0) < (local 0) ? (local 0 + 10) * (field 0 of header 1 + 1) : 7
abbrev tree : Tree numbers data_type
tree =
    choice (binary (compared Comparison.lt) (leaf (field 0 1)) (leaf (local 0)))
      (binary (calculated Arithmetic.mul)
        (binary (calculated Arithmetic.add) (leaf (local 0)) (constant 10))
        (binary (calculated Arithmetic.add) (unary (field_of 0) (leaf (header 1))) (constant 1)))
      (constant 7)

-- what an earlier evaluation left
abbrev temps : ExpressionTemps numbers
temps = record {
  data_temps = 8 ∷ [];
  bool_temps_stack = [];
  data_temps_stack = [];
  header_temps_stack = [];
  stack_temps_stack = [];
  union_temps_stack = [];
}

meaning_first : meaning (9 ∷ []) tree ≡ some 114
unfolding meaning leaf_meaning unary_meaning binary_meaning
meaning_first = refl

meaning_second : meaning (2 ∷ []) tree ≡ some 7
unfolding meaning leaf_meaning unary_meaning binary_meaning
meaning_second = refl

abbrev run : List ℕ → Option ℕ
run ls = build (write tree new_expression) >>= λ x. eval_arith x ls temps

run_first : run (9 ∷ []) ≡ some 114
unfolding build write eval_arith leaf_op unary_op binary_op push_back_op push_back_load_const
    push_back_ternary_op append_expression shift_const assign_dest_registers assign_dest_register
    release claim keep_count eval prepare eval_loop step run_op load compute test pop_data read
    pop_bool pop_header push_data push_bool push_header push_temp
run_first = refl

run_second : run (2 ∷ []) ≡ some 7
unfolding build write eval_arith leaf_op unary_op binary_op push_back_op push_back_load_const
    push_back_ternary_op append_expression shift_const assign_dest_registers assign_dest_register
    release claim keep_count eval prepare eval_loop step run_op load compute test pop_data read
    pop_bool pop_header push_data push_bool push_header push_temp
run_second = refl

evaluate-write_example :
    (x : Expression numbers) × (build (write tree new_expression) ≡ some x)
    × (evaluate data_type x (9 ∷ []) temps ≡ meaning (9 ∷ []) tree)
evaluate-write_example = evaluate-write tree (9 ∷ []) temps

last_opcode_type_example :
    (ops : List (Op numbers)) × (op : Op numbers) × ((write tree new_expression).ops
      ≡ ops ++ op ∷ [])
    × (get_opcode_type op ≡ some data_type)
last_opcode_type_example = last_opcode_type tree new_expression

-- the local 1, plus 4, after it was built
abbrev header_length : Expression numbers
header_length = record {
  ops = Ops.load_local 1 ∷ Ops.load_const 0 ∷ Ops.arithmetic Arithmetic.add 0 ∷ [];
  const_values = 4 ∷ [];
  data_registers_cnt = 1;
}

header_length_lem : eval_arith header_length (3 ∷ 4 ∷ []) temps ≡ some 8
unfolding eval_arith eval prepare eval_loop step run_op load compute pop_data read push_data
    push_temp
header_length_lem = refl

-- The length of header 0 is its field 1 plus 4.
resolve-eval_arith_example :
    eval_arith (resolve 0 header_length) [] temps ≡ eval_arith header_length (3 ∷ 4 ∷ []) temps
unfolding get_input_offsets offsets
resolve-eval_arith_example = resolve-eval_arith header_length 0 (3 ∷ 4 ∷ []) [] temps header_fields
  where
    header_fields : AreFields numbers 0 (3 ∷ 4 ∷ []) (1 ∷ [])
    header_fields zero k m =
        subst
          (λ j.
            get_elem? (3 ∷ 4 ∷ []) j ≡ (numbers.phv_header 0 >>= λ hdr. numbers.get_field hdr j))
          (some-injective 1 k m) refl
    header_fields (suc i) k m = cc
