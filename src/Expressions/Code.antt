-- ===== src/Expressions/Code.antt =====
-- The operations that a tree is written as, behind any others and in a branch of a choice.
use prog_tm_bmv.Base.{
  ℕ, ◌+◌, ◌≡◌, refl, ap, ap₂, sym, ◌∙◌, arith, List, [], ◌∷◌, ◌++◌, length, map, length-append,
}
use mathlib.Core.List.{append-nil, append_assoc, map-append}
use prog_tm_bmv.Expressions.Ops
use prog_tm_bmv.Expressions.Ops.{
  ExprType, unknown_type, data_type, header_type, header_stack_type, bool_type, union_type,
  union_stack_type, Objects, Op,
}
use prog_tm_bmv.Expressions.Build.{
  Expression, new_expression, push_back_op, push_back_load_const, push_back_ternary_op,
  append_expression, shift_const,
}
use prog_tm_bmv.Expressions.Source.{
  Leaf, Unary, Binary, Tree, field, header, stack, last_field, union, union_stack, truth, local,
  register, register_at, field_of, header_of, complement, negated, header_valid, union_valid,
  as_bool, as_data, last_index, stack_length, calculated, compared, same_header, same_union,
  connected, stack_element, union_element, leaf, constant, unary, binary, choice, leaf_op, unary_op,
  binary_op, write,
}

module _ {O : Objects} where
  -- the constants of a tree, in the order of its parts
  unfoldable pub consts_of : {t : ExprType} → Tree O t → List O.Data
  consts_of (leaf l) = []
  consts_of (constant d) = d ∷ []
  consts_of (unary u e) = consts_of e
  consts_of (binary b e1 e2) = consts_of e1 ++ consts_of e2
  consts_of (choice e e1 e2) = consts_of e ++ (consts_of e1 ++ consts_of e2)

  unfoldable pub op_count : {t : ExprType} → Tree O t → ℕ
  op_count (leaf l) = 1
  op_count (constant d) = 1
  op_count (unary u e) = op_count e + 1
  op_count (binary b e1 e2) = op_count e1 + op_count e2 + 1
  op_count (choice e e1 e2) = op_count e + op_count e1 + op_count e2 + 3

  -- the operations of a choice: of its condition, and of its parts with what skips them
  unfoldable pub glue : List (Op O) → ℕ → List (Op O) → ℕ → List (Op O) → List (Op O)
  glue c n first k second = c ++ Ops.ternary_op ∷ Ops.skip (n + 1) ∷ (first ++ Ops.skip k ∷ second)

  -- the operations of a tree whose constants stand from `n` on
  unfoldable pub code : {t : ExprType} → ℕ → Tree O t → List (Op O)
  code n (leaf l) = leaf_op l ∷ []
  code n (constant d) = Ops.load_const n ∷ []
  code n (unary u e) = code n e ++ unary_op u ∷ []
  code n (binary b e1 e2) = code n e1 ++ (code (n + length (consts_of e1)) e2 ++ binary_op b ∷ [])
  code n (choice e e1 e2) =
      glue (code n e) (op_count e1) (code (n + length (consts_of e)) e1) (op_count e2)
        (code (n + length (consts_of e) + length (consts_of e1)) e2)

  shift-leaf_op : {t : ExprType} (k : ℕ) (l : Leaf O t) → shift_const k (leaf_op l) ≡ leaf_op l
  unfolding shift_const leaf_op
  shift-leaf_op k (field h f) = refl
  shift-leaf_op k (header h) = refl
  shift-leaf_op k (stack x) = refl
  shift-leaf_op k (last_field x f) = refl
  shift-leaf_op k (union u) = refl
  shift-leaf_op k (union_stack x) = refl
  shift-leaf_op k (truth b) = refl
  shift-leaf_op k (local i) = refl
  shift-leaf_op k (register a i) = refl

  shift-unary_op :
      {a t : ExprType} (k : ℕ) (u : Unary O a t) → shift_const k (unary_op u) ≡ unary_op u
  unfolding shift_const unary_op
  shift-unary_op k (register_at a) = refl
  shift-unary_op k (field_of f) = refl
  shift-unary_op k (header_of i) = refl
  shift-unary_op k complement = refl
  shift-unary_op k negated = refl
  shift-unary_op k header_valid = refl
  shift-unary_op k union_valid = refl
  shift-unary_op k as_bool = refl
  shift-unary_op k as_data = refl
  shift-unary_op k last_index = refl
  shift-unary_op k stack_length = refl

  shift-binary_op :
      {a b t : ExprType} (k : ℕ) (o : Binary O a b t) → shift_const k (binary_op o) ≡ binary_op o
  unfolding shift_const binary_op
  shift-binary_op k (calculated a) = refl
  shift-binary_op k (compared c) = refl
  shift-binary_op k (same_header q) = refl
  shift-binary_op k (same_union q) = refl
  shift-binary_op k (connected c) = refl
  shift-binary_op k stack_element = refl
  shift-binary_op k union_element = refl

  pub length-code : {t : ExprType} (n : ℕ) (e : Tree O t) → length (code n e) ≡ op_count e
  unfolding code op_count glue
  length-code n (leaf l) = refl
  length-code n (constant d) = refl
  length-code n (unary u e) =
      omega (arith, length-append (code n e) (unary_op u ∷ []), length-code n e)
  length-code n (binary b e1 e2) =
      let second = code (n + length (consts_of e1)) e2 in
      omega (
        arith,
        length-append (code n e1) (second ++ binary_op b ∷ []),
        length-append second (binary_op b ∷ []),
        length-code n e1,
        length-code (n + length (consts_of e1)) e2,
      )
  length-code n (choice e e1 e2) =
      let first = code (n + length (consts_of e)) e1 in
      let second = code (n + length (consts_of e) + length (consts_of e1)) e2 in
      omega (
        arith,
        length-append (code n e) (
            Ops.ternary_op
            ∷ Ops.skip (op_count e1 + 1)
            ∷ (first ++ Ops.skip (op_count e2) ∷ second)),
        length-append first (Ops.skip (op_count e2) ∷ second),
        length-code n e,
        length-code (n + length (consts_of e)) e1,
        length-code (n + length (consts_of e) + length (consts_of e1)) e2,
      )

  map-glue :
      (k : ℕ) (c first second : List (Op O)) (n j : ℕ)
      → map (shift_const k) (glue c n first j second)
        ≡ glue (map (shift_const k) c) n (map (shift_const k) first) j (map (shift_const k) second)
  unfolding glue shift_const
  map-glue k c first second n j =
      map-append (shift_const k) c _
      ∙ ap (λ d. map (shift_const k) c ++ Ops.ternary_op ∷ Ops.skip (n + 1) ∷ d)
          (map-append (shift_const k) first (Ops.skip j ∷ second))

  regroup :
      (x c first second : List (Op O)) (n j : ℕ)
      → (((((x ++ c) ++ Ops.ternary_op ∷ []) ++ Ops.skip (n + 1) ∷ []) ++ first) ++ Ops.skip j ∷ [])
          ++ second
        ≡ x ++ glue c n first j second
  unfolding glue
  regroup x c first second n j = simp (append_assoc)

  shift-code :
      {t : ExprType} (k n : ℕ) (e : Tree O t) → map (shift_const k) (code n e) ≡ code (n + k) e
  unfolding code shift_const unary_op binary_op
  shift-code k n (leaf l) = ap (λ o. o ∷ []) (shift-leaf_op k l)
  shift-code k n (constant d) = refl
  shift-code k n (unary u e) =
      map-append (shift_const k) (code n e) (unary_op u ∷ [])
      ∙ ap₂ ◌++◌ (shift-code k n e) (ap (λ o. o ∷ []) (shift-unary_op k u))
  shift-code k n (binary b e1 e2) =
      map-append (shift_const k) (code n e1) _
      ∙ ap₂ ◌++◌ (shift-code k n e1) (
          map-append (shift_const k) (code (n + length (consts_of e1)) e2) _
          ∙ ap₂ ◌++◌
              (shift-code k (n + length (consts_of e1)) e2 ∙ ap (λ j. code j e2) (omega arith))
              (ap (λ o. o ∷ []) (shift-binary_op k b)))
  shift-code k n (choice e e1 e2) =
      let i = length (consts_of e) in
      let j = length (consts_of e1) in
      map-glue k (code n e) (code (n + i) e1) (code (n + i + j) e2) (op_count e1) (op_count e2)
      ∙ ap
          (λ c.
            glue c (op_count e1) (map (shift_const k) (code (n + i) e1)) (op_count e2)
              (map (shift_const k) (code (n + i + j) e2)))
          (shift-code k n e)
      ∙ ap₂ (λ a b. glue (code (n + k) e) (op_count e1) a (op_count e2) b)
          (shift-code k (n + i) e1 ∙ ap (λ o. code o e1) (omega arith))
          (shift-code k (n + i + j) e2 ∙ ap (λ o. code o e2) (omega arith))

  abbrev written : {t : ExprType} → Tree O t → Expression O
  written e = record new_expression { ops = code 0 e; const_values = consts_of e }

  ternary_code :
      {t : ExprType} (x : Expression O) (e : Tree O bool_type) (e1 e2 : Tree O t)
      → push_back_ternary_op (written e1) (written e2) (record x {
        ops = x.ops ++ code (length x.const_values) e;
        const_values = x.const_values ++ consts_of e;
      })
        ≡ record x {
          ops = x.ops ++ code (length x.const_values) (choice e e1 e2);
          const_values = x.const_values ++ consts_of (choice e e1 e2);
        }
  unfolding push_back_ternary_op append_expression push_back_op code consts_of
  ternary_code x e e1 e2 =
      ap₂ (λ o c. record x { ops = o; const_values = c })
        (ap₂
            (λ n1 n2.
              appended n1 (map (shift_const k1) (code 0 e1)) n2 (map (shift_const k2) (code 0 e2)))
            (length-code 0 e1) (length-code 0 e2)
          ∙ ap₂ (λ a b. appended (op_count e1) a (op_count e2) b)
              (shift-code k1 0 e1 ∙ ap (λ j. code j e1) first_at)
              (shift-code k2 0 e2 ∙ ap (λ j. code j e2) second_at)
          ∙ regroup x.ops (code n e) (code (n + length (consts_of e)) e1)
              (code (n + length (consts_of e) + length (consts_of e1)) e2) (op_count e1)
              (op_count e2))
        (append_assoc (x.const_values ++ consts_of e) (consts_of e1) (consts_of e2)
          ∙ append_assoc x.const_values (consts_of e) (consts_of e1 ++ consts_of e2))
    where
      n : ℕ
      n = length x.const_values

      k1 : ℕ
      k1 = length (x.const_values ++ consts_of e)

      k2 : ℕ
      k2 = length ((x.const_values ++ consts_of e) ++ consts_of e1)

      appended : ℕ → List (Op O) → ℕ → List (Op O) → List (Op O)
      appended n1 a n2 b =
          (((((x.ops ++ code n e) ++ Ops.ternary_op ∷ []) ++ Ops.skip (n1 + 1) ∷ []) ++ a)
            ++ Ops.skip n2 ∷ [])
          ++ b

      first_at : 0 + k1 ≡ n + length (consts_of e)
      first_at = omega (arith, length-append x.const_values (consts_of e))

      second_at : 0 + k2 ≡ n + length (consts_of e) + length (consts_of e1)
      second_at = omega (
        arith,
        length-append x.const_values (consts_of e),
        length-append (x.const_values ++ consts_of e) (consts_of e1),
      )

  pub write-code :
      {t : ExprType} (e : Tree O t) (x : Expression O)
      → write e x ≡ record x {
        ops = x.ops ++ code (length x.const_values) e;
        const_values = x.const_values ++ consts_of e;
      }
  unfolding write code consts_of push_back_op push_back_load_const
  write-code (leaf l) x =
      ap (λ c. record x { ops = x.ops ++ leaf_op l ∷ []; const_values = c })
        (sym (append-nil x.const_values))
  write-code (constant d) x = refl
  write-code (unary u e) x =
      ap (push_back_op (unary_op u)) (write-code e x)
      ∙ ap (λ o. record x { ops = o; const_values = x.const_values ++ consts_of e })
          (append_assoc x.ops (code (length x.const_values) e) (unary_op u ∷ []))
  write-code (binary b e1 e2) x =
      let n = length x.const_values in
      ap (λ y. push_back_op (binary_op b) (write e2 y)) (write-code e1 x)
      ∙ ap (push_back_op (binary_op b)) (write-code e2 _)
      ∙ ap₂ (λ o c. record x { ops = o; const_values = c })
          (append_assoc (x.ops ++ code n e1) (code (length (x.const_values ++ consts_of e1)) e2)
              (binary_op b ∷ [])
            ∙ append_assoc x.ops (code n e1) _
            ∙ ap (λ j. x.ops ++ (code n e1 ++ (code j e2 ++ binary_op b ∷ [])))
                (length-append x.const_values (consts_of e1)))
          (append_assoc x.const_values (consts_of e1) (consts_of e2))
  write-code (choice e e1 e2) x =
      ap₂ (λ y z. push_back_ternary_op y z (write e x)) (write-code e1 new_expression)
        (write-code e2 new_expression)
      ∙ ap (push_back_ternary_op (written e1) (written e2)) (write-code e x)
      ∙ ternary_code x e e1 e2
