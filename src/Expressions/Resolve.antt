-- ===== src/Expressions/Resolve.antt =====
-- VLHeaderExpression: an expression for the length of a header, whose locals are fields of the header.
use prog_tm_bmv.Base.{
  ℕ, zero, suc, ◌≡◌, refl, ap, List, [], ◌∷◌, map, get_elem?, Option, none, some, ◌>>=◌,
  Option-cases, List-cases, inl, inr,
}
use prog_tm_bmv.Expressions.Ops.{
  Objects, Op, load_field, load_header, load_header_stack, load_last_header_stack_field, load_union,
  load_union_stack, load_bool, load_const, load_local, load_register_ref, load_register_gen,
  access_field, access_union_header, arithmetic, bit_neg, compare_op, compare_headers,
  compare_unions, connect, negation, valid_header, valid_union, ternary_op, skip, data_to_bool,
  bool_to_data, dereference_header_stack, last_stack_index, size_stack, dereference_union_stack,
}
use prog_tm_bmv.Expressions.Build.{Expression}
use prog_tm_bmv.Expressions.Temps.{ExpressionTemps, pop_data, push_data, stored, prepare}
use prog_tm_bmv.Expressions.Eval.{run_op, load, step, eval_loop, eval, eval_arith}

module _ {O : Objects} where
  unfoldable pub resolve_op : ℕ → Op O → Op O
  resolve_op header_id (load_local k) = load_field header_id k
  resolve_op header_id op = op

  unfoldable pub resolve : ℕ → Expression O → Expression O
  resolve header_id e = record e { ops = map (resolve_op header_id) e.ops }

  unfoldable pub offsets : List (Op O) → List ℕ
  offsets [] = []
  offsets (load_local k ∷ ops) = k ∷ offsets ops
  offsets (op ∷ ops) = offsets ops

  unfoldable pub get_input_offsets : Expression O → List ℕ
  get_input_offsets e = offsets e.ops

-- At the offsets, the locals are the fields of the header.
abbrev pub AreFields : (O : Objects) → ℕ → List O.Data → List ℕ → Type 0
AreFields O header_id locals ks =
    (i k : ℕ)
    → get_elem? ks i ≡ some k
    → get_elem? locals k ≡ (O.phv_header header_id >>= λ hdr. O.get_field hdr k)

found_more :
    {A : Type 0} (a : A) (more : List A) (i : ℕ) (b : A)
    → get_elem? (a ∷ []) i ≡ some b
    → get_elem? (a ∷ more) i ≡ some b
found_more a more zero b m = m
found_more a more (suc i) b m = cc

bind_some :
    {A B C : Type 0} (o : Option A) (g : A → Option B) (f : B → C)
    → (o >>= λ a. g a >>= λ b. some (f b)) ≡ ((o >>= g) >>= λ b. some (f b))
bind_some none g f = refl
bind_some (some a) g f = refl

module _ {O : Objects} (cs ls ls' : List O.Data) (h : ℕ) where
  local_step :
      (k : ℕ) (t : ExpressionTemps O)
      → get_elem? ls k ≡ (O.phv_header h >>= λ hdr. O.get_field hdr k)
      → step cs ls' (load_field h k) t ≡ step cs ls (load_local k) t
  unfolding step run_op load
  local_step k t e = rw e (
      ap (λ o. o >>= λ t1. some (0, t1))
        (bind_some (O.phv_header h) (λ hdr. O.get_field hdr k) (λ d. push_data (stored d) t)))

  resolve_step :
      (op : Op O) (t : ExpressionTemps O)
      → AreFields O h ls (offsets (op ∷ []))
      → step cs ls' (resolve_op h op) t ≡ step cs ls op t
  unfolding step resolve_op offsets
  resolve_step (load_local k) t e = local_step k t (e 0 k refl)
  resolve_step (load_field a b) t e = refl
  resolve_step (load_header a) t e = refl
  resolve_step (load_header_stack a) t e = refl
  resolve_step (load_last_header_stack_field a b) t e = refl
  resolve_step (load_union a) t e = refl
  resolve_step (load_union_stack a) t e = refl
  resolve_step (load_bool b) t e = refl
  resolve_step (load_const k) t e = refl
  resolve_step (load_register_ref a k) t e = refl
  resolve_step (load_register_gen a) t e = refl
  resolve_step (access_field f) t e = refl
  resolve_step (access_union_header k) t e = refl
  resolve_step (arithmetic a i) t e = refl
  resolve_step (bit_neg i) t e = refl
  resolve_step (compare_op c) t e = refl
  resolve_step (compare_headers q) t e = refl
  resolve_step (compare_unions q) t e = refl
  resolve_step (connect c) t e = refl
  resolve_step negation t e = refl
  resolve_step valid_header t e = refl
  resolve_step valid_union t e = refl
  resolve_step ternary_op t e = refl
  resolve_step (skip n) t e = refl
  resolve_step data_to_bool t e = refl
  resolve_step (bool_to_data i) t e = refl
  resolve_step dereference_header_stack t e = refl
  resolve_step (last_stack_index i) t e = refl
  resolve_step (size_stack i) t e = refl
  resolve_step dereference_union_stack t e = refl

  split_offsets :
      (op : Op O) (ops : List (Op O))
      → AreFields O h ls (offsets (op ∷ ops))
      → AreFields O h ls (offsets (op ∷ [])) × AreFields O h ls (offsets ops)
  unfolding offsets
  split_offsets (load_local k) ops e =
      (λ i j m. e i j (found_more k (offsets ops) i j m), λ i j m. e (suc i) j m)
  split_offsets (load_field a b) ops e = (λ i j m. cc, e)
  split_offsets (load_header a) ops e = (λ i j m. cc, e)
  split_offsets (load_header_stack a) ops e = (λ i j m. cc, e)
  split_offsets (load_last_header_stack_field a b) ops e = (λ i j m. cc, e)
  split_offsets (load_union a) ops e = (λ i j m. cc, e)
  split_offsets (load_union_stack a) ops e = (λ i j m. cc, e)
  split_offsets (load_bool b) ops e = (λ i j m. cc, e)
  split_offsets (load_const k) ops e = (λ i j m. cc, e)
  split_offsets (load_register_ref a k) ops e = (λ i j m. cc, e)
  split_offsets (load_register_gen a) ops e = (λ i j m. cc, e)
  split_offsets (access_field f) ops e = (λ i j m. cc, e)
  split_offsets (access_union_header k) ops e = (λ i j m. cc, e)
  split_offsets (arithmetic a i) ops e = (λ i j m. cc, e)
  split_offsets (bit_neg i) ops e = (λ i j m. cc, e)
  split_offsets (compare_op c) ops e = (λ i j m. cc, e)
  split_offsets (compare_headers q) ops e = (λ i j m. cc, e)
  split_offsets (compare_unions q) ops e = (λ i j m. cc, e)
  split_offsets (connect c) ops e = (λ i j m. cc, e)
  split_offsets negation ops e = (λ i j m. cc, e)
  split_offsets valid_header ops e = (λ i j m. cc, e)
  split_offsets valid_union ops e = (λ i j m. cc, e)
  split_offsets ternary_op ops e = (λ i j m. cc, e)
  split_offsets (skip n) ops e = (λ i j m. cc, e)
  split_offsets data_to_bool ops e = (λ i j m. cc, e)
  split_offsets (bool_to_data i) ops e = (λ i j m. cc, e)
  split_offsets dereference_header_stack ops e = (λ i j m. cc, e)
  split_offsets (last_stack_index i) ops e = (λ i j m. cc, e)
  split_offsets (size_stack i) ops e = (λ i j m. cc, e)
  split_offsets dereference_union_stack ops e = (λ i j m. cc, e)

  resolve_loop :
      (passed : ℕ) (ops : List (Op O)) (t : ExpressionTemps O)
      → AreFields O h ls (offsets ops)
      → eval_loop cs ls' passed (map (resolve_op h) ops) t ≡ eval_loop cs ls passed ops t
  unfolding eval_loop
  resolve_loop passed [] t e = refl
  resolve_loop (suc passed) (op ∷ ops) t e = resolve_loop passed ops t (split_offsets op ops e).1
  resolve_loop zero (op ∷ ops) t e =
      let (one, rest) = split_offsets op ops e in
      elim (Option-cases (step cs ls op t)) [
        | inl n ↦ rw (resolve_step op t one, n, eval_loop)
        | inr (p, n) ↦ rw (resolve_step op t one, n, eval_loop) (resolve_loop p.0 ops p.1 rest)
      ]

-- The resolved expression yields, with any locals, what the expression yields where the locals at
-- its input offsets are the fields of the header.
pub resolve-eval_arith :
    {O : Objects} (e : Expression O) (header_id : ℕ) (locals others : List O.Data)
    (t : ExpressionTemps O)
    → AreFields O header_id locals (get_input_offsets e)
    → eval_arith (resolve header_id e) others t ≡ eval_arith e locals t
unfolding eval_arith resolve get_input_offsets eval
resolve-eval_arith e header_id locals others t h = elim (List-cases e.ops) [
  | inl empty ↦ rw (empty, resolve, eval_arith)
  | inr (op, ops, same) ↦
      rw (same, eval_arith)
        (ap (λ o. o >>= λ t1. pop_data t1 >>= λ x. some x.0)
          (resolve_loop e.const_values locals others header_id 0 e.ops
            (prepare t e.data_registers_cnt) h))
]
