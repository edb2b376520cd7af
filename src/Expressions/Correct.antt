-- ===== src/Expressions/Correct.antt =====
-- A tree that is written, given registers and evaluated yields its meaning.
use prog_tm_bmv.Base.{
  ℕ, ◌+◌, ◌≤◌, ◌≡◌, refl, ap, subst, sym, ◌∙◌, arith, List, [], ◌∷◌, ◌++◌, length, get_elem?,
  Option, none, some, ◌>>=◌, length-append,
}
use mathlib.Core.List.{append_assoc}
use prog_tm_bmv.Expressions.Ops
use prog_tm_bmv.Expressions.Ops.{
  ExprType, unknown_type, data_type, header_type, header_stack_type, bool_type, union_type,
  union_stack_type, Objects, Op,
}
use prog_tm_bmv.Expressions.Temps.{ExpressionTemps, stored, push_data}
use prog_tm_bmv.Expressions.Eval.{run_op, load, step, eval_loop}
use prog_tm_bmv.Expressions.Source.{
  Leaf, Unary, Binary, Value, leaf_op, unary_op, binary_op, unary_meaning, binary_meaning,
  leaf_meaning,
}
use prog_tm_bmv.Expressions.Assign.{
  Grown-refl, Grown-trans, pops, pushes, with_dest, claims, assigned, assign-append, assign-one,
}
use prog_tm_bmv.Expressions.Steps.{
  Stacks, Item, with_temps, put, Means, Kept, Kept-refl, Means-Kept, leaf-Result, unary-Result,
  binary-Result,
}
use prog_tm_bmv.Expressions.Outcome.{
  leaf-needs, unary-needs, binary-needs, leaf-IsRun, unary-IsRun, binary-IsRun, Kept-trans, Loops,
  Loops-run, Loops-widen, Runs,
}

module _ (O : Objects) (cs ls : List O.Data) where
  -- What is left once the items of the operands stand on the stacks.
  leaf-Loops :
      {t : ExprType} (l : Leaf O t) (d lo hi : ℕ) (rest : List (Op O)) (ts : List O.Data)
      (s : Stacks O)
      → lo ≤ d
      → d + claims (pushes (leaf_op l)) ≤ hi
      → Loops O cs ls t lo hi s ts
          (leaf_meaning ls l)
          rest
          (eval_loop cs ls 0 (with_dest d (leaf_op l) ∷ rest) (with_temps ts s))
  leaf-Loops {t = t} l d lo hi rest ts s low top =
      let x = with_temps ts s in
      Loops-widen O cs ls t lo d hi (d + claims (pushes (leaf_op l))) s ts ts (leaf_meaning ls l)
        rest _ _ low top (Kept-refl lo ts) refl
        (Loops-run O cs ls t d _ s ts (leaf_meaning ls l) (with_dest d (leaf_op l)) rest x
          (leaf-IsRun cs ls d l x) (leaf-Result cs ls d s ts l))

  unary-Loops :
      {a t : ExprType} (u : Unary O a t) (d hi lo top : ℕ) (rest : List (Op O)) (ts : List O.Data)
      (s : Stacks O) (o : Option (Value O a)) (x : Option (ExpressionTemps O))
      → lo ≤ d
      → d + claims (pushes (unary_op u)) ≡ top
      → top ≤ length ts
      → Loops O cs ls a lo hi s ts o (with_dest d (unary_op u) ∷ rest) x
      → Loops O cs ls t lo top s ts (o >>= unary_meaning u) rest x
  unary-Loops u d hi lo top rest ts s none x low e big l = l
  unary-Loops {a = a} {t = t} u d hi lo top rest ts s (some v) x low e big (j, ts1, y, k, m) =
      let x1 = with_temps ts1 (put a j s) in
      Loops-widen O cs ls t lo d top (d + claims (pushes (unary_op u))) s ts ts1 (unary_meaning u v)
        rest (eval_loop cs ls 0 (with_dest d (unary_op u) ∷ rest) x1) x low (omega (arith, e)) k y
        (Loops-run O cs ls t d _ s ts1 (unary_meaning u v) (with_dest d (unary_op u)) rest x1
          (unary-IsRun cs ls d u x1)
          (unary-Result cs ls d s ts1 u hi j v (omega (arith, e, big, k.0)) m))

  -- The second operand stands above the first, whose registers are kept.
  binary-Loops :
      {a b t : ExprType} (o : Binary O a b t) (d mid hi lo top : ℕ) (rest : List (Op O))
      (ts ts1 : List O.Data) (s : Stacks O) (i : Item O a) (l : Value O a) (r : Option (Value O b))
      (x : Option (ExpressionTemps O))
      → lo ≤ d
      → lo ≤ mid
      → d + claims (pushes (binary_op o)) ≡ top
      → top ≤ length ts
      → Kept lo ts ts1
      → Means O a mid ts1 i l
      → Loops O cs ls b mid hi (put a i s) ts1 r (with_dest d (binary_op o) ∷ rest) x
      → Loops O cs ls t lo top s ts (r >>= binary_meaning o l) rest x
  binary-Loops o d mid hi lo top rest ts ts1 s i l none x low up e big k m z = z
  binary-Loops {a = a} {b = b} {t = t} o d mid hi lo top rest ts ts1 s i l (some r) x low up e big k
        m (j, ts2, y, k2, m2) =
      let x2 = with_temps ts2 (put b j (put a i s)) in
      Loops-widen O cs ls t lo d top (d + claims (pushes (binary_op o))) s ts ts2
        (binary_meaning o l r) rest (eval_loop cs ls 0 (with_dest d (binary_op o) ∷ rest) x2) x low
        (omega (arith, e)) (Kept-trans lo mid ts ts1 ts2 up k k2) y
        (Loops-run O cs ls t d _ s ts2 (binary_meaning o l r) (with_dest d (binary_op o)) rest x2
          (binary-IsRun cs ls d o x2)
          (binary-Result cs ls d s ts2 o mid hi i j l r (omega (arith, e, big, k.0, k2.0))
            (Means-Kept O a mid ts1 ts2 i l k2 m) m2))

  pub leaf-Runs :
      {t : ExprType} (l : Leaf O t) → Runs O cs ls t (leaf_op l ∷ []) (leaf_meaning ls l)
  leaf-Runs l r0 h =
      let (d, r', ms, e, g, n, low, top, counted) =
        assigned (leaf_op l) r0 r0 [] (Grown-refl r0 h) (omega (arith, (leaf-needs l).0)) in
      record {
        ops' = with_dest d (leaf_op l) ∷ [];
        final = r';
        added = ms;
        assigns = assign-one (leaf_op l) _ r0 r' e;
        grown = g;
        enough = omega (arith, n, (leaf-needs l).1);
        same_length = refl;
        runs = λ rest ts s big.
            leaf-Loops l d r0.registers_curr r'.registers_curr rest ts s low (omega (arith, top));
      }

  pub constant-Runs :
      (n : ℕ) (v : O.Data)
      → get_elem? cs n ≡ some v
      → Runs O cs ls data_type (Ops.load_const n ∷ []) (some v)
  unfolding pops pushes with_dest step run_op load push_data eval_loop
  constant-Runs n v at r0 h =
      let op : Op O = Ops.load_const n in
      let (d, r', ms, e, g, k, low, top, counted) =
        assigned op r0 r0 [] (Grown-refl r0 h) (omega arith) in
      record {
        ops' = op ∷ [];
        final = r';
        added = ms;
        assigns = assign-one op _ r0 r' e;
        grown = g;
        enough = k;
        same_length = refl;
        runs = λ rest ts s big.
            (stored v, ts, rw (at, eval_loop), Kept-refl r0.registers_curr ts, refl);
      }

  pub unary-Runs :
      {a t : ExprType} (u : Unary O a t) (xs : List (Op O)) (o : Option (Value O a))
      → Runs O cs ls a xs o
      → Runs O cs ls t (xs ++ unary_op u ∷ []) (o >>= unary_meaning u)
  unary-Runs {a = a} {t = t} u xs o first r0 h =
      let one = first r0 h in
      let (d, r', ms, e, g, n, low, top, counted) =
        assigned (unary_op u) r0 one.final one.added one.grown
          (omega (arith, (unary-needs u).0, one.enough)) in
      let op = with_dest d (unary_op u) in
      record {
        ops' = one.ops' ++ op ∷ [];
        final = r';
        added = ms;
        assigns =
            assign-append xs (unary_op u ∷ []) r0 one.final r' one.ops' (op ∷ []) one.assigns
              (assign-one (unary_op u) op one.final r' e);
        grown = g;
        enough = omega (arith, n, (unary-needs u).1);
        same_length = omega (
          arith,
          length-append one.ops' (op ∷ []),
          length-append xs (unary_op u ∷ []),
          one.same_length,
        );
        runs = λ rest ts s big.
            subst
              (λ y.
                Loops O cs ls t r0.registers_curr r'.registers_curr s ts (o >>= unary_meaning u)
                  rest (eval_loop cs ls 0 y (with_temps ts s)))
              (sym (append_assoc one.ops' (op ∷ []) rest))
              (unary-Loops u d one.final.registers_curr r0.registers_curr r'.registers_curr rest ts
                s o _ low top (omega (arith, big, g.within))
                (one.runs (op ∷ rest) ts s (omega (arith, big, counted))));
      }

  -- After the first operand, the second runs with its registers behind those of the first.
  second-Loops :
      {a b t : ExprType} (f : Binary O a b t) (ys' : List (Op O)) (o2 : Option (Value O b))
      (d mid hi lo top : ℕ) (rest : List (Op O)) (ts : List O.Data) (s : Stacks O)
      (o1 : Option (Value O a)) (x : Option (ExpressionTemps O))
      → lo ≤ d
      → lo ≤ mid
      → d + claims (pushes (binary_op f)) ≡ top
      → top ≤ length ts
      → ((ts1 : List O.Data) (s1 : Stacks O)
          → length ts1 ≡ length ts
          → Loops O cs ls b mid hi s1 ts1 o2
              (with_dest d (binary_op f) ∷ rest)
              (eval_loop cs ls 0 (ys' ++ with_dest d (binary_op f) ∷ rest) (with_temps ts1 s1)))
      → Loops O cs ls a lo mid s ts o1 (ys' ++ with_dest d (binary_op f) ∷ rest) x
      → Loops O cs ls t lo top s ts (o1 >>= λ l. o2 >>= λ r. binary_meaning f l r) rest x
  second-Loops f ys' o2 d mid hi lo top rest ts s none x low up e big runs z = z
  second-Loops {a = a} {b = b} {t = t} f ys' o2 d mid hi lo top rest ts s (some l) x low up e big
        runs (i, ts1, y, k, m) =
      subst (λ z. Loops O cs ls t lo top s ts (o2 >>= binary_meaning f l) rest z) (sym y)
        (binary-Loops f d mid hi lo top rest ts ts1 s i l o2 _ low up e big k m
          (runs ts1 (put a i s) k.0))

  pub binary-Runs :
      {a b t : ExprType} (f : Binary O a b t) (xs ys : List (Op O)) (o1 : Option (Value O a))
      (o2 : Option (Value O b))
      → Runs O cs ls a xs o1
      → Runs O cs ls b ys o2
      → Runs O cs ls t
          (xs ++ (ys ++ binary_op f ∷ []))
          (o1 >>= λ l. o2 >>= λ r. binary_meaning f l r)
  binary-Runs {a = a} {b = b} {t = t} f xs ys o1 o2 first second r0 h =
      let one = first r0 h in
      let two = second one.final one.grown.within in
      let (d, r', ms, e, g, n, low, top, counted) =
        assigned (binary_op f) r0 two.final (two.added ++ one.added)
          (Grown-trans r0 one.final two.final one.added two.added one.grown two.grown)
          (omega (
            arith,
            (binary-needs f).0,
            one.enough,
            two.enough,
            length-append two.added one.added,
          )) in
      let op = with_dest d (binary_op f) in
      record {
        ops' = one.ops' ++ (two.ops' ++ op ∷ []);
        final = r';
        added = ms;
        assigns =
            assign-append xs (ys ++ binary_op f ∷ []) r0 one.final r' one.ops' (two.ops' ++ op ∷ [])
              one.assigns
              (assign-append ys (binary_op f ∷ []) one.final two.final r' two.ops' (op ∷ [])
                two.assigns (assign-one (binary_op f) op two.final r' e));
        grown = g;
        enough = omega (arith, n, (binary-needs f).1);
        same_length = omega (
          arith,
          length-append one.ops' (two.ops' ++ op ∷ []),
          length-append two.ops' (op ∷ []),
          length-append xs (ys ++ binary_op f ∷ []),
          length-append ys (binary_op f ∷ []),
          one.same_length,
          two.same_length,
        );
        runs = λ rest ts s big.
            subst
              (λ y.
                Loops O cs ls t r0.registers_curr r'.registers_curr s ts
                  (o1 >>= λ l. o2 >>= λ r. binary_meaning f l r) rest
                  (eval_loop cs ls 0 y (with_temps ts s)))
              (sym (
                append_assoc one.ops' (two.ops' ++ op ∷ []) rest
                ∙ ap (λ y. one.ops' ++ y) (append_assoc two.ops' (op ∷ []) rest)))
              (second-Loops f two.ops' o2 d one.final.registers_curr two.final.registers_curr
                r0.registers_curr r'.registers_curr rest ts s o1 _ low
                (omega (arith, one.grown.current)) top (omega (arith, big, g.within))
                (λ ts1 s1 k. two.runs (op ∷ rest) ts1 s1 (omega (arith, big, counted, k)))
                (one.runs (two.ops' ++ op ∷ rest) ts s
                  (omega (arith, big, counted, two.grown.counted))));
      }
