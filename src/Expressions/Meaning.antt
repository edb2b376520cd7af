-- ===== src/Expressions/Meaning.antt =====
-- A tree that is written, built and evaluated yields its meaning, whatever registers are left over from
-- an earlier evaluation.
use prog_tm_bmv.Base.{
  ℕ, zero, suc, ◌+◌, ◌-◌, ◌≤◌, ◌≡◌, refl, ap, ap₂, sym, ◌∙◌, arith, List, [], ◌∷◌, ◌++◌, length,
  replicate, length-replicate, get_elem?, Option, none, some, length-append,
}
use mathlib.Core.List.{append-nil}
use prog_tm_bmv.Expressions.Ops.{ExprType, Objects, Op}
use prog_tm_bmv.Expressions.Build.{
  Expression, new_expression, build, no_registers, Registers, assign_dest_registers,
}
use prog_tm_bmv.Expressions.Temps.{ExpressionTemps, prepare}
use prog_tm_bmv.Expressions.Eval.{eval_loop, eval}
use prog_tm_bmv.Expressions.Source.{
  Tree, leaf, constant, unary, binary, choice, Value, meaning, write,
}
use prog_tm_bmv.Expressions.Code.{consts_of, code, op_count, length-code, write-code}
use prog_tm_bmv.Expressions.Steps.{Stacks, with_temps, Result}
use prog_tm_bmv.Expressions.Outcome.{Loops, Runs}
use prog_tm_bmv.Expressions.Correct.{leaf-Runs, constant-Runs, unary-Runs, binary-Runs}
use prog_tm_bmv.Expressions.Choice.{choice-Runs}

-- Constants stand from `n` on.
abbrev StandAt {ℓ} : {A : Type ℓ} → List A → ℕ → List A → Type ℓ
StandAt {A = A} cs n xs = (i : ℕ) (d : A) → get_elem? xs i ≡ some d → get_elem? cs (n + i) ≡ some d

module _ {ℓ} {A : Type ℓ} where
  found_left :
      (xs ys : List A) (i : ℕ) (d : A) → get_elem? xs i ≡ some d → get_elem? (xs ++ ys) i ≡ some d
  found_left [] ys i d e = cc
  found_left (x ∷ xs) ys zero d e = e
  found_left (x ∷ xs) ys (suc i) d e = found_left xs ys i d e

  found_right :
      (xs ys : List A) (i j : ℕ) (d : A)
      → j ≡ length xs + i
      → get_elem? ys i ≡ some d
      → get_elem? (xs ++ ys) j ≡ some d
  found_right [] ys i j d h e = ap (get_elem? ys) (omega (arith, h)) ∙ e
  found_right (x ∷ xs) ys i zero d h e = absurd (omega (arith, h))
  found_right (x ∷ xs) ys i (suc j) d h e = found_right xs ys i j d (omega (arith, h)) e

  stand_left : (cs xs ys : List A) (n : ℕ) → StandAt cs n (xs ++ ys) → StandAt cs n xs
  stand_left cs xs ys n h i d e = h i d (found_left xs ys i d e)

  stand_right :
      (cs xs ys : List A) (n : ℕ) → StandAt cs n (xs ++ ys) → StandAt cs (n + length xs) ys
  stand_right cs xs ys n h i d e =
      ap (get_elem? cs) (omega arith)
      ∙ h (length xs + i) d (found_right xs ys i (length xs + i) d refl e)

module _ (O : Objects) (cs ls : List O.Data) where
  code-Runs :
      {t : ExprType} (e : Tree O t) (n : ℕ)
      → StandAt cs n (consts_of e)
      → Runs O cs ls t (code n e) (meaning ls e)
  unfolding code meaning consts_of
  code-Runs (leaf l) n h = leaf-Runs O cs ls l
  code-Runs (constant d) n h =
      constant-Runs O cs ls n d (ap (get_elem? cs) (omega arith) ∙ h 0 d refl)
  code-Runs (unary u e) n h = unary-Runs O cs ls u (code n e) (meaning ls e) (code-Runs e n h)
  code-Runs (binary f e1 e2) n h =
      binary-Runs O cs ls f (code n e1) (code (n + length (consts_of e1)) e2) (meaning ls e1)
        (meaning ls e2) (code-Runs e1 n (stand_left cs (consts_of e1) (consts_of e2) n h))
        (code-Runs e2 (n + length (consts_of e1))
          (stand_right cs (consts_of e1) (consts_of e2) n h))
  code-Runs {t = t} (choice e e1 e2) n h =
      let c1 = consts_of e in
      let c2 = consts_of e1 in
      let c3 = consts_of e2 in
      let h' = stand_right cs c1 (c2 ++ c3) n h in
      choice-Runs O cs ls t (op_count e1) (op_count e2) (code n e) (code (n + length c1) e1)
        (code (n + length c1 + length c2) e2) (meaning ls e) (meaning ls e1) (meaning ls e2)
        (length-code (n + length c1) e1) (length-code (n + length c1 + length c2) e2)
        (code-Runs e n (stand_left cs c1 (c2 ++ c3) n h))
        (code-Runs e1 (n + length c1) (stand_left cs c2 c3 (n + length c1) h'))
        (code-Runs e2 (n + length c1 + length c2) (stand_right cs c2 c3 (n + length c1) h'))

abbrev pub no_items : (O : Objects) → Stacks O
no_items O = record { datas = []; bools = []; headers = []; stacks = []; unions = [] }

-- With nothing left to run, the loop is done.
finished :
    (O : Objects) (cs ls : List O.Data) (t : ExprType) (hi : ℕ) (ts : List O.Data) (s : Stacks O)
    (o : Option (Value O t)) (x y : Option (ExpressionTemps O))
    → y ≡ x
    → Loops O cs ls t 0 hi s ts o [] x
    → Result O t 0 hi s ts o y
unfolding eval_loop
finished O cs ls t hi ts s none x y e l = e ∙ l
finished O cs ls t hi ts s (some v) x y e (j, ts', z, k, m) = (j, ts', e ∙ z, k, m)

-- An expression is a tree that was written and built.
module _ {O : Objects} {t : ExprType} (e : Tree O t) where
  op_count_positive : {t : ExprType} (e : Tree O t) → 1 ≤ op_count e
  unfolding op_count
  op_count_positive (leaf l) = omega arith
  op_count_positive (constant d) = omega arith
  op_count_positive (unary u e) = omega arith
  op_count_positive (binary b e1 e2) = omega arith
  op_count_positive (choice e e1 e2) = omega arith

  prepared :
      (n : ℕ) (x : ExpressionTemps O)
      → (ts : List O.Data) × (prepare x n ≡ with_temps ts (no_items O)) × (n ≤ length ts)
  unfolding prepare
  prepared n x =
      let more = replicate (n - length x.data_temps) (O.of_number 0) in
      (
        x.data_temps ++ more,
        refl,
        omega (
          arith,
          length-append x.data_temps more,
          length-replicate (n - length x.data_temps) (O.of_number 0),
        ),
      )

  build_lem :
      (x : Expression O) (ops : List (Op O)) (r : Registers)
      → assign_dest_registers x.ops no_registers ≡ some (ops, r)
      → build x ≡ some (record x { ops = ops; data_registers_cnt = r.registers_cnt })
  unfolding build
  build_lem x ops r h = rw (h, build)

  -- Building succeeds, and what the built expression does follows from what its operations do.
  pub built :
      (ls : List O.Data) (y : ExpressionTemps O)
      → (x : Expression O) × (build (write e new_expression) ≡ some x)
        × (1 ≤ length x.ops)
        × (ts : List O.Data) × (hi : ℕ) × Result O t 0 hi
            (no_items O)
            ts
            (meaning ls e)
            (eval x ls y)
  unfolding build eval
  built ls y =
      let all =
        code-Runs O (consts_of e) ls e 0 (λ i d h. ap (get_elem? (consts_of e)) (omega arith) ∙ h)
          no_registers (omega arith) in
      let n = all.final.registers_cnt in
      let (ts, same, enough) = prepared n y in
      (
        record { ops = all.ops'; const_values = consts_of e; data_registers_cnt = n },
        ap build (write-code e new_expression)
            ∙ build_lem (record new_expression { ops = code 0 e; const_values = consts_of e })
                all.ops' all.final all.assigns,
        omega (arith, all.same_length, length-code 0 e, op_count_positive e),
        ts,
        all.final.registers_curr,
        finished O (consts_of e) ls t all.final.registers_curr ts (no_items O) (meaning ls e) _
            (eval_loop (consts_of e) ls 0 all.ops' (prepare y n))
            (ap₂ (eval_loop (consts_of e) ls 0) (sym (append-nil all.ops')) same)
            (all.runs [] ts (no_items O) enough),
      )
