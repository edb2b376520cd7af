-- ===== src/Expressions/Choice.antt =====
-- The operations of a choice, given registers and evaluated, yield the meaning of the part that is chosen.
use prog_tm_bmv.Base.{
  ℕ, suc, ◌+◌, ◌≤◌, ◌≡◌, refl, ap, subst, sym, ◌∙◌, arith, Bool, true, false, if◌then◌else◌, List,
  [], ◌∷◌, ◌++◌, length, Option, none, some, ◌>>=◌, length-append,
}
use mathlib.Core.List.{append_assoc}
use prog_tm_bmv.Expressions.Ops
use prog_tm_bmv.Expressions.Ops.{
  ExprType, unknown_type, data_type, header_type, header_stack_type, bool_type, union_type,
  union_stack_type, Objects, Op,
}
use prog_tm_bmv.Expressions.Build.{Registers, assign_dest_registers}
use prog_tm_bmv.Expressions.Temps.{ExpressionTemps, pop_bool}
use prog_tm_bmv.Expressions.Eval.{step, eval_loop}
use prog_tm_bmv.Expressions.Source.{Value}
use prog_tm_bmv.Expressions.Code.{glue}
use prog_tm_bmv.Expressions.Assign.{
  Grown, Grown-refl, Grown-trans, pops, with_dest, assigned, assign-append, assign-one,
}
use prog_tm_bmv.Expressions.Steps.{Stacks, with_temps, put}
use prog_tm_bmv.Expressions.Outcome.{Loops, Loops-widen, Runs}

module _ (O : Objects) (cs ls : List O.Data) where
  pass_over :
      (n : ℕ) (xs ys : List (Op O)) (x : ExpressionTemps O)
      → eval_loop cs ls (length xs + n) (xs ++ ys) x ≡ eval_loop cs ls n ys x
  unfolding eval_loop
  pass_over n [] ys x = ap (λ i. eval_loop cs ls i ys x) (omega arith)
  pass_over n (op ∷ xs) ys x =
      ap (λ i. eval_loop cs ls i (op ∷ (xs ++ ys)) x) (later (length xs)) ∙ pass_over n xs ys x
    where
      later : (m : ℕ) → suc m + n ≡ suc (m + n)
      later m = omega arith

  pass_one :
      (k : ℕ) (zs : List (Op O)) (x : ExpressionTemps O)
      → eval_loop cs ls 1 (Ops.skip k ∷ zs) x ≡ eval_loop cs ls 0 zs x
  unfolding eval_loop
  pass_one k zs x = refl

  test_true :
      (k : ℕ) (rest : List (Op O)) (ts : List O.Data) (s : Stacks O)
      → eval_loop cs ls 0
          (Ops.ternary_op ∷ Ops.skip k ∷ rest)
          (with_temps ts (put bool_type true s))
        ≡ eval_loop cs ls 0 rest (with_temps ts s)
  unfolding eval_loop step pop_bool
  test_true k rest ts s = refl

  test_false :
      (k : ℕ) (rest : List (Op O)) (ts : List O.Data) (s : Stacks O)
      → eval_loop cs ls 0
          (Ops.ternary_op ∷ Ops.skip k ∷ rest)
          (with_temps ts (put bool_type false s))
        ≡ eval_loop cs ls k rest (with_temps ts s)
  unfolding eval_loop step pop_bool
  test_false k rest ts s = refl

  skip_lem :
      (ys rest : List (Op O)) (k : ℕ) (x : ExpressionTemps O)
      → length ys ≡ k
      → eval_loop cs ls 0 (Ops.skip k ∷ (ys ++ rest)) x ≡ eval_loop cs ls 0 rest x
  unfolding eval_loop step
  skip_lem ys rest k x e =
      ap (λ i. eval_loop cs ls i (ys ++ rest) x) (sym (omega (arith, e))) ∙ pass_over 0 ys rest x

  -- The first part skips the second.
  taken :
      (t : ExprType) (lo hi : ℕ) (s : Stacks O) (ts : List O.Data) (o : Option (Value O t))
      (ys rest : List (Op O)) (k : ℕ) (x : Option (ExpressionTemps O))
      → length ys ≡ k
      → Loops O cs ls t lo hi s ts o (Ops.skip k ∷ (ys ++ rest)) x
      → Loops O cs ls t lo hi s ts o rest x
  taken t lo hi s ts none ys rest k x e l = l
  taken t lo hi s ts (some v) ys rest k x e (j, ts1, y, kept, m) =
      (j, ts1, y ∙ skip_lem ys rest k (with_temps ts1 (put t j s)) e, kept, m)

  -- What is known of a part of a choice wherever it stands.
  abbrev Part : (t : ExprType) → ℕ → ℕ → ℕ → Stacks O → Option (Value O t) → List (Op O) → Type 0
  Part t lo hi size s o xs =
      (rest : List (Op O)) (ts : List O.Data)
      → length ts ≡ size
      → Loops O cs ls t lo hi s ts o rest (eval_loop cs ls 0 (xs ++ rest) (with_temps ts s))

  choice-Loops :
      (t : ExprType) (o1 o2 : Option (Value O t)) (n k : ℕ) (xs ys rest : List (Op O))
      (s : Stacks O) (ts : List O.Data) (lo mid lo1 hi1 lo2 top : ℕ) (b : Option Bool)
      (x : Option (ExpressionTemps O))
      → lo ≤ lo1
      → lo ≤ lo2
      → hi1 ≤ top
      → length xs ≡ n
      → length ys ≡ k
      → Part t lo1 hi1 (length ts) s o1 xs
      → Part t lo2 top (length ts) s o2 ys
      → Loops O cs ls bool_type lo mid s ts b
          (Ops.ternary_op ∷ Ops.skip (n + 1) ∷ (xs ++ Ops.skip k ∷ (ys ++ rest)))
          x
      → Loops O cs ls t lo top s ts (b >>= λ c. if c then o1 else o2) rest x
  choice-Loops t o1 o2 n k xs ys rest s ts lo mid lo1 hi1 lo2 top none x a a2 h e f first second l =
      l
  choice-Loops t o1 o2 n k xs ys rest s ts lo mid lo1 hi1 lo2 top (some true) x a a2 h e f first
        second (c, ts1, y, kept, m) =
      let after = xs ++ Ops.skip k ∷ (ys ++ rest) in
      Loops-widen O cs ls t lo lo1 top hi1 s ts ts1 o1 rest
        (eval_loop cs ls 0 after (with_temps ts1 s)) x a h kept
        (y
          ∙ ap
              (λ d.
                eval_loop cs ls 0 (Ops.ternary_op ∷ Ops.skip (n + 1) ∷ after)
                  (with_temps ts1 (put bool_type d s)))
              m
          ∙ test_true (n + 1) after ts1 s)
        (taken t lo1 hi1 s ts1 o1 ys rest k _ f (first (Ops.skip k ∷ (ys ++ rest)) ts1 kept.0))
  choice-Loops t o1 o2 n k xs ys rest s ts lo mid lo1 hi1 lo2 top (some false) x a a2 h e f first
        second (c, ts1, y, kept, m) =
      let after = xs ++ Ops.skip k ∷ (ys ++ rest) in
      Loops-widen O cs ls t lo lo2 top top s ts ts1 o2 rest
        (eval_loop cs ls 0 (ys ++ rest) (with_temps ts1 s)) x a2 (omega arith) kept
        (y
          ∙ ap
              (λ d.
                eval_loop cs ls 0 (Ops.ternary_op ∷ Ops.skip (n + 1) ∷ after)
                  (with_temps ts1 (put bool_type d s)))
              m
          ∙ test_false (n + 1) after ts1 s
          ∙ ap (λ i. eval_loop cs ls i after (with_temps ts1 s)) (sym (omega (arith, e)))
          ∙ pass_over 1 xs (Ops.skip k ∷ (ys ++ rest)) (with_temps ts1 s)
          ∙ pass_one k (ys ++ rest) (with_temps ts1 s))
        (second rest ts1 kept.0)

  -- An operation of control keeps the registers.
  control :
      (op : Op O) (r : Registers)
      → r.registers_curr ≤ r.registers_cnt
      → pops op ≡ 0
      → ((d : ℕ) → with_dest d op ≡ op)
      → (r' : Registers) × (ms : List ℕ) × (assign_dest_registers (op ∷ []) r ≡ some (op ∷ [], r'))
        × Grown r r' ms
  control op r h p e =
      let (d, r', ms, a, g, enough, low, top, counted) =
        assigned op r r [] (Grown-refl r h) (omega (arith, p)) in
      (r', ms, assign-one op op r r' (a ∙ ap (λ o. some (o, r')) (e d)), g)

  length-glue :
      (c xs ys c' xs' ys' : List (Op O)) (n k : ℕ)
      → length c' ≡ length c
      → length xs' ≡ length xs
      → length ys' ≡ length ys
      → length (glue c' n xs' k ys') ≡ length (glue c n xs k ys)
  unfolding glue
  length-glue c xs ys c' xs' ys' n k e f g = omega (
    arith,
    e,
    f,
    g,
    length-append c (Ops.ternary_op ∷ Ops.skip (n + 1) ∷ (xs ++ Ops.skip k ∷ ys)),
    length-append c' (Ops.ternary_op ∷ Ops.skip (n + 1) ∷ (xs' ++ Ops.skip k ∷ ys')),
    length-append xs (Ops.skip k ∷ ys),
    length-append xs' (Ops.skip k ∷ ys'),
  )

  pub choice-Runs :
      (t : ExprType) (n k : ℕ) (c xs ys : List (Op O)) (b : Option Bool)
      (o1 o2 : Option (Value O t))
      → length xs ≡ n
      → length ys ≡ k
      → Runs O cs ls bool_type c b
      → Runs O cs ls t xs o1
      → Runs O cs ls t ys o2
      → Runs O cs ls t (glue c n xs k ys) (b >>= λ d. if d then o1 else o2)
  unfolding glue pops with_dest
  choice-Runs t n k c xs ys b o1 o2 e f test first second r0 h =
      let cond = test r0 h in
      let (ra, xa, aa, ga) = control Ops.ternary_op cond.final cond.grown.within refl (λ d. refl) in
      let (rb, xb, ab, gb) = control (Ops.skip (n + 1)) ra ga.within refl (λ d. refl) in
      let one = first rb gb.within in
      let (rc, ds, ac, gc) = control (Ops.skip k) one.final one.grown.within refl (λ d. refl) in
      let two = second rc gc.within in
      let tail = Ops.skip k ∷ two.ops' in
      let to_first =
        Grown-trans r0 ra rb (xa ++ cond.added) xb
          (Grown-trans r0 cond.final ra cond.added xa cond.grown ga) gb in
      let to_second =
        Grown-trans r0 one.final rc (one.added ++ (xb ++ (xa ++ cond.added))) ds
          (Grown-trans r0 rb one.final (xb ++ (xa ++ cond.added)) one.added to_first one.grown)
          gc in
      let before = ds ++ (one.added ++ (xb ++ (xa ++ cond.added))) in
      record {
        ops' = cond.ops' ++ Ops.ternary_op ∷ Ops.skip (n + 1) ∷ (one.ops' ++ tail);
        final = two.final;
        added = two.added ++ before;
        assigns =
            assign-append c (Ops.ternary_op ∷ Ops.skip (n + 1) ∷ (xs ++ Ops.skip k ∷ ys)) r0
              cond.final two.final cond.ops'
              (Ops.ternary_op ∷ Ops.skip (n + 1) ∷ (one.ops' ++ tail)) cond.assigns
              (assign-append (Ops.ternary_op ∷ []) (Ops.skip (n + 1) ∷ (xs ++ Ops.skip k ∷ ys))
                cond.final ra two.final (Ops.ternary_op ∷ [])
                (Ops.skip (n + 1) ∷ (one.ops' ++ tail)) aa
                (assign-append (Ops.skip (n + 1) ∷ []) (xs ++ Ops.skip k ∷ ys) ra rb two.final
                  (Ops.skip (n + 1) ∷ []) (one.ops' ++ tail) ab
                  (assign-append xs (Ops.skip k ∷ ys) rb one.final two.final one.ops' tail
                    one.assigns
                    (assign-append (Ops.skip k ∷ []) ys one.final rc two.final (Ops.skip k ∷ [])
                      two.ops' ac two.assigns))));
        grown = Grown-trans r0 rc two.final before two.added to_second two.grown;
        enough = omega (arith, two.enough, length-append two.added before);
        same_length =
            length-glue c xs ys cond.ops' one.ops' two.ops' n k cond.same_length one.same_length
              two.same_length;
        runs = λ rest ts s big.
            subst
              (λ y.
                Loops O cs ls t r0.registers_curr two.final.registers_curr s ts
                  (b >>= λ d. if d then o1 else o2) rest (eval_loop cs ls 0 y (with_temps ts s)))
              (sym (
                append_assoc cond.ops' (Ops.ternary_op ∷ Ops.skip (n + 1) ∷ (one.ops' ++ tail)) rest
                ∙ ap (λ y. cond.ops' ++ Ops.ternary_op ∷ Ops.skip (n + 1) ∷ y)
                    (append_assoc one.ops' tail rest)))
              (choice-Loops t o1 o2 n k one.ops' two.ops' rest s ts r0.registers_curr
                cond.final.registers_curr rb.registers_curr one.final.registers_curr
                rc.registers_curr two.final.registers_curr b _ (omega (arith, to_first.current))
                (omega (arith, to_second.current)) (omega (arith, gc.current, two.grown.current))
                (omega (arith, e, one.same_length)) (omega (arith, f, two.same_length))
                (λ rest1 ts1 z.
                  one.runs rest1 ts1 s (omega (arith, big, z, gc.counted, two.grown.counted)))
                (λ rest1 ts1 z. two.runs rest1 ts1 s (omega (arith, big, z)))
                (cond.runs
                  (Ops.ternary_op
                    ∷ Ops.skip (n + 1)
                    ∷ (one.ops' ++ Ops.skip k ∷ (two.ops' ++ rest)))
                  ts s
                  (omega (
                    arith, big, ga.counted, gb.counted, one.grown.counted, gc.counted,
                    two.grown.counted,
                  ))));
      }
