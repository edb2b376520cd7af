-- ===== src/Expressions/Eval.antt =====
-- The evaluation of an expression on its temporaries. An access out of range has no result.
use prog_tm_bmv.Base.{
  ℕ, zero, suc, ◌+◌, ◌-◌, ◌%◌, ◌^◌, Bool, true, false, not, ◌&&◌, ◌||◌, List, [], ◌∷◌, get_elem?,
  Option, none, some, ◌>>=◌,
}
use prog_tm_bmv.Expressions.Ops.{
  Objects, Op, Equality, Connective, load_field, load_header, load_header_stack,
  load_last_header_stack_field, load_union, load_union_stack, load_bool, load_const, load_local,
  load_register_ref, load_register_gen, access_field, access_union_header, arithmetic, bit_neg,
  compare_op, compare_headers, compare_unions, connect, negation, valid_header, valid_union,
  ternary_op, skip, data_to_bool, bool_to_data, dereference_header_stack, last_stack_index,
  size_stack, dereference_union_stack,
}
use prog_tm_bmv.Expressions.Build.{Expression}
use prog_tm_bmv.Expressions.Temps.{
  stored, header_stack, union_stack, ExpressionTemps, prepare, push_bool, pop_bool, push_data,
  pop_data, push_header, pop_header, push_stack, pop_header_stack, pop_union_stack, push_union,
  pop_union, push_temp,
}

abbrev pub bool_equal : Bool → Bool → Bool
bool_equal true b = b
bool_equal false b = not b

abbrev pub connect_bools : Connective → Bool → Bool → Bool
connect_bools Connective.eq l r = bool_equal l r
connect_bools Connective.neq l r = not (bool_equal l r)
connect_bools Connective.and l r = l && r
connect_bools Connective.or l r = l || r

abbrev pub equal_or_not : Equality → Bool → Bool
equal_or_not Equality.eq b = b
equal_or_not Equality.neq b = not b

abbrev pub bool_number : Bool → ℕ
bool_number true = 1
bool_number false = 0

module _ {O : Objects} (const_values locals : List O.Data) where
  -- The operations that load an object.
  unfoldable pub load : Op O → ExpressionTemps O → Option (ExpressionTemps O)
  load (load_field h f) t = do
    hdr ← O.phv_header h
    d ← O.get_field hdr f
    some (push_data (stored d) t)
  load (load_header h) t = do hdr ← O.phv_header h; some (push_header hdr t)
  load (load_header_stack s) t = do hs ← O.phv_header_stack s; some (push_stack (header_stack hs) t)
  load (load_last_header_stack_field s f) t = do
    hs ← O.phv_header_stack s
    hdr ← O.get_last hs
    d ← O.get_field hdr f
    some (push_data (stored d) t)
  load (load_union u) t = do hu ← O.phv_header_union u; some (push_union hu t)
  load (load_union_stack s) t = do
    us ← O.phv_header_union_stack s
    some (push_stack (union_stack us) t)
  load (load_bool b) t = some (push_bool b t)
  load (load_const k) t = do d ← get_elem? const_values k; some (push_data (stored d) t)
  load (load_local k) t = do d ← get_elem? locals k; some (push_data (stored d) t)
  load (load_register_ref a k) t = do d ← O.register_at a k; some (push_data (stored d) t)
  load (load_register_gen a) t = do
    (k, t1) ← pop_data t
    d ← O.register_at a (O.to_size k)
    some (push_data (stored d) t1)
  load (access_field f) t = do
    (hdr, t1) ← pop_header t
    d ← O.get_field hdr f
    some (push_data (stored d) t1)
  load (access_union_header k) t = do
    (u, t1) ← pop_union t
    hdr ← O.union_at u k
    some (push_header hdr t1)
  load op t = none

  -- The operations that compute data.
  unfoldable pub compute : Op O → ExpressionTemps O → Option (ExpressionTemps O)
  compute (arithmetic a i) t = do
    (r, t1) ← pop_data t
    (l, t2) ← pop_data t1
    d ← O.apply a l r
    some (push_temp i d t2)
  compute (bit_neg i) t = do (r, t1) ← pop_data t; d ← O.negate r; some (push_temp i d t1)
  compute (bool_to_data i) t = do
    (b, t1) ← pop_bool t
    some (push_temp i (O.of_number (bool_number b)) t1)
  compute (last_stack_index i) t = do
    (hs, t1) ← pop_header_stack t
    some (push_temp i (O.of_number ((O.get_count hs + (2 ^ 64 - 1)) % 2 ^ 64)) t1)
  compute (size_stack i) t = do
    (hs, t1) ← pop_header_stack t
    some (push_temp i (O.of_number (O.get_count hs)) t1)
  compute op t = none

  -- The operations that compute a Boolean, and those that find an object in a stack.
  unfoldable pub test : Op O → ExpressionTemps O → Option (ExpressionTemps O)
  test (compare_op c) t = do
    (r, t1) ← pop_data t
    (l, t2) ← pop_data t1
    some (push_bool (O.compare_data c l r) t2)
  test (compare_headers e) t = do
    (r, t1) ← pop_header t
    (l, t2) ← pop_header t1
    some (push_bool (equal_or_not e (O.header_cmp l r)) t2)
  test (compare_unions e) t = do
    (r, t1) ← pop_union t
    (l, t2) ← pop_union t1
    some (push_bool (equal_or_not e (O.union_cmp l r)) t2)
  test (connect c) t = do
    (r, t1) ← pop_bool t
    (l, t2) ← pop_bool t1
    some (push_bool (connect_bools c l r) t2)
  test negation t = do (b, t1) ← pop_bool t; some (push_bool (not b) t1)
  test valid_header t = do (h, t1) ← pop_header t; some (push_bool (O.header_is_valid h) t1)
  test valid_union t = do (u, t1) ← pop_union t; some (push_bool (O.union_is_valid u) t1)
  test data_to_bool t = do (d, t1) ← pop_data t; some (push_bool (not (O.is_zero d)) t1)
  test dereference_header_stack t = do
    (d, t1) ← pop_data t
    (hs, t2) ← pop_header_stack t1
    h ← O.stack_at hs (O.to_size d)
    some (push_header h t2)
  test dereference_union_stack t = do
    (d, t1) ← pop_data t
    (us, t2) ← pop_union_stack t1
    u ← O.union_stack_at us (O.to_size d)
    some (push_union u t2)
  test op t = none

  -- An operation, by its group of cases.
  unfoldable pub run_op : Op O → ExpressionTemps O → Option (ExpressionTemps O)
  run_op (arithmetic a i) t = compute (arithmetic a i) t
  run_op (bit_neg i) t = compute (bit_neg i) t
  run_op (bool_to_data i) t = compute (bool_to_data i) t
  run_op (last_stack_index i) t = compute (last_stack_index i) t
  run_op (size_stack i) t = compute (size_stack i) t
  run_op (compare_op c) t = test (compare_op c) t
  run_op (compare_headers e) t = test (compare_headers e) t
  run_op (compare_unions e) t = test (compare_unions e) t
  run_op (connect c) t = test (connect c) t
  run_op negation t = test negation t
  run_op valid_header t = test valid_header t
  run_op valid_union t = test valid_union t
  run_op data_to_bool t = test data_to_bool t
  run_op dereference_header_stack t = test dereference_header_stack t
  run_op dereference_union_stack t = test dereference_union_stack t
  run_op op t = load op t

  -- A round of the loop of `eval_`: how many operations to pass over, and the temporaries.
  unfoldable pub step : Op O → ExpressionTemps O → Option (ℕ × ExpressionTemps O)
  unfolding run_op load compute test
  step ternary_op t = do (b, t1) ← pop_bool t; some (bool_number b, t1)
  step (skip n) t = some (n, t)
  step op t = do t1 ← run_op op t; some (0, t1)

  -- The loop, with the number of operations still to be passed over.
  unfoldable pub eval_loop : ℕ → List (Op O) → ExpressionTemps O → Option (ExpressionTemps O)
  eval_loop passed [] t = some t
  eval_loop (suc passed) (op ∷ ops) t = eval_loop passed ops t
  eval_loop zero (op ∷ ops) t = elim (step op t) [
    | none ↦ none
    | some (passed, t1) ↦ eval_loop passed ops t1
  ]

module _ {O : Objects} where
  unfoldable pub eval : Expression O → List O.Data → ExpressionTemps O → Option (ExpressionTemps O)
  eval e locals t = eval_loop e.const_values locals 0 e.ops (prepare t e.data_registers_cnt)

  -- An empty expression is false, and 0.
  unfoldable pub eval_bool : Expression O → List O.Data → ExpressionTemps O → Option Bool
  eval_bool e locals t = elim e.ops [
    | [] ↦ some false
    | op ∷ ops ↦ do t1 ← eval e locals t; (b, t2) ← pop_bool t1; some b
  ]

  unfoldable pub eval_arith : Expression O → List O.Data → ExpressionTemps O → Option O.Data
  eval_arith e locals t = elim e.ops [
    | [] ↦ some (O.of_number 0)
    | op ∷ ops ↦ do t1 ← eval e locals t; (d, t2) ← pop_data t1; some d
  ]

  unfoldable pub eval_header : Expression O → List O.Data → ExpressionTemps O → Option O.Header
  eval_header e locals t = do t1 ← eval e locals t; (h, t2) ← pop_header t1; some h

  unfoldable pub eval_header_stack :
      Expression O → List O.Data → ExpressionTemps O → Option O.HeaderStack
  eval_header_stack e locals t = do t1 ← eval e locals t; (hs, t2) ← pop_header_stack t1; some hs

  unfoldable pub eval_header_union :
      Expression O → List O.Data → ExpressionTemps O → Option O.HeaderUnion
  eval_header_union e locals t = do t1 ← eval e locals t; (u, t2) ← pop_union t1; some u

  unfoldable pub eval_header_union_stack :
      Expression O → List O.Data → ExpressionTemps O → Option O.HeaderUnionStack
  eval_header_union_stack e locals t = do
    t1 ← eval e locals t
    (us, t2) ← pop_union_stack t1
    some us
