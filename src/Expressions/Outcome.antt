-- ===== src/Expressions/Outcome.antt =====
-- What it is for operations to be given registers and to compute a value, and the rounds of the loop for
-- the operations of a tree.
use prog_tm_bmv.Base.{
  ℕ, ◌+◌, ◌≤◌, ◌≡◌, refl, ◌∙◌, arith, List, ◌∷◌, ◌++◌, length, Option, none, some, ◌>>=◌,
}
use prog_tm_bmv.Expressions.Ops.{
  ExprType, unknown_type, data_type, header_type, header_stack_type, bool_type, union_type,
  union_stack_type, Objects, Op,
}
use prog_tm_bmv.Expressions.Build.{Registers, assign_dest_registers}
use prog_tm_bmv.Expressions.Temps.{ExpressionTemps, stored, temp}
use prog_tm_bmv.Expressions.Eval.{run_op, step, eval_loop}
use prog_tm_bmv.Expressions.Source.{
  Leaf, Unary, Binary, field, header, stack, last_field, union, union_stack, truth, local, register,
  register_at, field_of, header_of, complement, negated, header_valid, union_valid, as_bool,
  as_data, last_index, stack_length, calculated, compared, same_header, same_union, connected,
  stack_element, union_element, Value, leaf_op, unary_op, binary_op,
}
use prog_tm_bmv.Expressions.Assign.{Grown, pops, pushes, with_dest, number_of}
use prog_tm_bmv.Expressions.Steps.{Stacks, Item, with_temps, put, Means, Kept, Result}

-- the entries of a value among the registers
abbrev pub needs : ExprType → ℕ
needs data_type = 1
needs unknown_type = 0
needs header_type = 0
needs header_stack_type = 0
needs bool_type = 0
needs union_type = 0
needs union_stack_type = 0

module _ {O : Objects} where
  pub leaf-needs :
      {t : ExprType} (l : Leaf O t)
      → (pops (leaf_op l) ≡ 0) × (number_of (pushes (leaf_op l)) ≡ needs t)
  unfolding leaf_op pops pushes
  leaf-needs (field h f) = (refl, refl)
  leaf-needs (header h) = (refl, refl)
  leaf-needs (stack x) = (refl, refl)
  leaf-needs (last_field x f) = (refl, refl)
  leaf-needs (union u) = (refl, refl)
  leaf-needs (union_stack x) = (refl, refl)
  leaf-needs (truth b) = (refl, refl)
  leaf-needs (local i) = (refl, refl)
  leaf-needs (register a i) = (refl, refl)

  pub unary-needs :
      {a t : ExprType} (u : Unary O a t)
      → (pops (unary_op u) ≡ needs a) × (number_of (pushes (unary_op u)) ≡ needs t)
  unfolding unary_op pops pushes
  unary-needs (register_at a) = (refl, refl)
  unary-needs (field_of f) = (refl, refl)
  unary-needs (header_of i) = (refl, refl)
  unary-needs complement = (refl, refl)
  unary-needs negated = (refl, refl)
  unary-needs header_valid = (refl, refl)
  unary-needs union_valid = (refl, refl)
  unary-needs as_bool = (refl, refl)
  unary-needs as_data = (refl, refl)
  unary-needs last_index = (refl, refl)
  unary-needs stack_length = (refl, refl)

  pub binary-needs :
      {a b t : ExprType} (o : Binary O a b t)
      → (pops (binary_op o) ≡ needs a + needs b) × (number_of (pushes (binary_op o)) ≡ needs t)
  unfolding binary_op pops pushes
  binary-needs (calculated a) = (refl, refl)
  binary-needs (compared c) = (refl, refl)
  binary-needs (same_header q) = (refl, refl)
  binary-needs (same_union q) = (refl, refl)
  binary-needs (connected c) = (refl, refl)
  binary-needs stack_element = (refl, refl)
  binary-needs union_element = (refl, refl)

  -- An operation of a tree is run, and none is passed over.
  abbrev pub IsRun : (const_values locals : List O.Data) → Op O → ExpressionTemps O → Type 0
  IsRun cs ls op t = step cs ls op t ≡ (run_op cs ls op t >>= λ t1. some (0, t1))

  pub leaf-IsRun :
      (cs ls : List O.Data) (d : ℕ) {t : ExprType} (l : Leaf O t) (x : ExpressionTemps O)
      → IsRun cs ls (with_dest d (leaf_op l)) x
  unfolding step leaf_op with_dest
  leaf-IsRun cs ls d (field h f) x = refl
  leaf-IsRun cs ls d (header h) x = refl
  leaf-IsRun cs ls d (stack i) x = refl
  leaf-IsRun cs ls d (last_field i f) x = refl
  leaf-IsRun cs ls d (union u) x = refl
  leaf-IsRun cs ls d (union_stack i) x = refl
  leaf-IsRun cs ls d (truth b) x = refl
  leaf-IsRun cs ls d (local i) x = refl
  leaf-IsRun cs ls d (register a i) x = refl

  pub unary-IsRun :
      (cs ls : List O.Data) (d : ℕ) {a t : ExprType} (u : Unary O a t) (x : ExpressionTemps O)
      → IsRun cs ls (with_dest d (unary_op u)) x
  unfolding step unary_op with_dest
  unary-IsRun cs ls d (register_at a) x = refl
  unary-IsRun cs ls d (field_of f) x = refl
  unary-IsRun cs ls d (header_of i) x = refl
  unary-IsRun cs ls d complement x = refl
  unary-IsRun cs ls d negated x = refl
  unary-IsRun cs ls d header_valid x = refl
  unary-IsRun cs ls d union_valid x = refl
  unary-IsRun cs ls d as_bool x = refl
  unary-IsRun cs ls d as_data x = refl
  unary-IsRun cs ls d last_index x = refl
  unary-IsRun cs ls d stack_length x = refl

  pub binary-IsRun :
      (cs ls : List O.Data) (d : ℕ) {a b t : ExprType} (o : Binary O a b t) (x : ExpressionTemps O)
      → IsRun cs ls (with_dest d (binary_op o)) x
  unfolding step binary_op with_dest
  binary-IsRun cs ls d (calculated a) x = refl
  binary-IsRun cs ls d (compared c) x = refl
  binary-IsRun cs ls d (same_header q) x = refl
  binary-IsRun cs ls d (same_union q) x = refl
  binary-IsRun cs ls d (connected c) x = refl
  binary-IsRun cs ls d stack_element x = refl
  binary-IsRun cs ls d union_element x = refl

pub Kept-trans {ℓ} :
    {A : Type ℓ} (lo lo' : ℕ) (ts ts1 ts2 : List A)
    → lo ≤ lo'
    → Kept lo ts ts1
    → Kept lo' ts1 ts2
    → Kept lo ts ts2
Kept-trans lo lo' ts ts1 ts2 h k l = (l.0 ∙ k.0, λ i b. l.1 i (omega arith) ∙ k.1 i b)

pub Means-le :
    (O : Objects) (t : ExprType) (hi hi' : ℕ) (ts : List O.Data) (i : Item O t) (v : Value O t)
    → hi ≤ hi'
    → Means O t hi ts i v
    → Means O t hi' ts i v
Means-le O data_type hi hi' ts (temp i) v h m = (omega (arith, m.0), m.1)
Means-le O data_type hi hi' ts (stored d) v h m = m
Means-le O unknown_type hi hi' ts i v h m = m
Means-le O header_type hi hi' ts i v h m = m
Means-le O header_stack_type hi hi' ts i v h m = m
Means-le O bool_type hi hi' ts i v h m = m
Means-le O union_type hi hi' ts i v h m = m
Means-le O union_stack_type hi hi' ts i v h m = m

module _ (O : Objects) (cs ls : List O.Data) where
  -- The loop goes on with `rest`, an item for the value pushed, or has no result.
  abbrev pub Loops :
      (t : ExprType)
      → ℕ
      → ℕ
      → Stacks O
      → List O.Data
      → Option (Value O t)
      → List (Op O)
      → Option (ExpressionTemps O)
      → Type 0
  Loops t lo hi s ts none rest x = x ≡ none
  Loops t lo hi s ts (some v) rest x =
      (j : Item O t) × (ts' : List O.Data) × (x
        ≡ eval_loop cs ls 0 rest (with_temps ts' (put t j s)))
      × Kept lo ts ts'
      × Means O t hi ts' j v

  pub Loops-run :
      (t : ExprType) (lo hi : ℕ) (s : Stacks O) (ts : List O.Data) (o : Option (Value O t))
      (op : Op O) (rest : List (Op O)) (x : ExpressionTemps O)
      → IsRun cs ls op x
      → Result O t lo hi s ts o (run_op cs ls op x)
      → Loops t lo hi s ts o rest (eval_loop cs ls 0 (op ∷ rest) x)
  unfolding eval_loop
  Loops-run t lo hi s ts none op rest x e r = rw (e, r, eval_loop)
  Loops-run t lo hi s ts (some v) op rest x e (j, ts', r, k, m) =
      (j, ts', rw (e, r, eval_loop), k, m)

  -- With fewer registers kept, and more allowed, from before another step.
  pub Loops-widen :
      (t : ExprType) (lo lo' hi hi' : ℕ) (s : Stacks O) (ts ts1 : List O.Data)
      (o : Option (Value O t)) (rest : List (Op O)) (x y : Option (ExpressionTemps O))
      → lo ≤ lo'
      → hi' ≤ hi
      → Kept lo ts ts1
      → y ≡ x
      → Loops t lo' hi' s ts1 o rest x
      → Loops t lo hi s ts o rest y
  Loops-widen t lo lo' hi hi' s ts ts1 none rest x y a b k e l = e ∙ l
  Loops-widen t lo lo' hi hi' s ts ts1 (some v) rest x y a b k e (j, ts2, l, k2, m) =
      (j, ts2, e ∙ l, Kept-trans lo lo' ts ts1 ts2 a k k2, Means-le O t hi' hi ts2 j v b m)

  -- What the operations `ops` do, with registers from `r0` on.
  pub record Outcome (t : ExprType) (ops : List (Op O)) (o : Option (Value O t)) (r0 : Registers)
      : Type 0 where
    pub ops' : List (Op O)
    pub final : Registers
    pub added : List ℕ
    pub assigns : assign_dest_registers ops r0 ≡ some (ops', final)
    pub grown : Grown r0 final added
    pub enough : needs t ≤ length added
    pub same_length : length ops' ≡ length ops
    pub runs :
        (rest : List (Op O)) (ts : List O.Data) (s : Stacks O)
        → final.registers_cnt ≤ length ts
        → Loops t r0.registers_curr final.registers_curr s ts o rest
            (eval_loop cs ls 0 (ops' ++ rest) (with_temps ts s))

  abbrev pub Runs : (t : ExprType) → List (Op O) → Option (Value O t) → Type 0
  Runs t ops o = (r0 : Registers) → r0.registers_curr ≤ r0.registers_cnt → Outcome t ops o r0
