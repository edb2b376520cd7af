-- ===== src/Expressions/Steps.antt =====
-- What each operation computes from its operands on the stacks.
use prog_tm_bmv.Base.{
  ℕ, ◌+◌, ◌-◌, ◌%◌, ◌^◌, ◌≤◌, ◌<◌, ◌≡◌, refl, ◌∙◌, arith, Bool, List, ◌∷◌, length, get_elem?, set,
  Option, none, some, ◌>>=◌, length-set, get_elem?-set_self, get_elem?-set_ne,
}
use prog_tm_bmv.Expressions.Ops.{
  ExprType, unknown_type, data_type, header_type, header_stack_type, bool_type, union_type,
  union_stack_type, Objects,
}
use prog_tm_bmv.Expressions.Temps
use prog_tm_bmv.Expressions.Temps.{
  DataPointer, temp, stored, StackIface, ExpressionTemps, read, pop_data, push_bool, pop_bool,
  push_data, push_header, pop_header, push_stack, pop_header_stack, pop_union_stack, push_union,
  pop_union, push_temp,
}
use prog_tm_bmv.Expressions.Eval.{load, compute, test, run_op, bool_number}
use prog_tm_bmv.Expressions.Source.{
  Leaf, Unary, Binary, field, header, stack, last_field, union, union_stack, truth, local, register,
  register_at, field_of, header_of, complement, negated, header_valid, union_valid, as_bool,
  as_data, last_index, stack_length, calculated, compared, same_header, same_union, connected,
  stack_element, union_element, Value, leaf_op, unary_op, binary_op, leaf_meaning, unary_meaning,
  binary_meaning,
}
use prog_tm_bmv.Expressions.Assign.{pushes, with_dest, claims}

pub record Stacks (O : Objects) : Type 0 where
  pub datas : List (DataPointer O)
  pub bools : List Bool
  pub headers : List O.Header
  pub stacks : List (StackIface O)
  pub unions : List O.HeaderUnion

-- what stands on a stack for a value
abbrev pub Item : Objects → ExprType → Type 0
Item O data_type = DataPointer O
Item O unknown_type = Unit
Item O header_type = O.Header
Item O header_stack_type = O.HeaderStack
Item O bool_type = Bool
Item O union_type = O.HeaderUnion
Item O union_stack_type = O.HeaderUnionStack

-- The registers below `lo` are kept.
abbrev pub Kept {ℓ} : {A : Type ℓ} → ℕ → List A → List A → Type ℓ
Kept lo ts ts' = (length ts' ≡ length ts) × ((i : ℕ) → i < lo → get_elem? ts' i ≡ get_elem? ts i)

pub Kept-refl {ℓ} : {A : Type ℓ} (lo : ℕ) (ts : List A) → Kept lo ts ts
Kept-refl lo ts = (refl, λ i l. refl)

module _ {O : Objects} where
  abbrev pub with_temps : List O.Data → Stacks O → ExpressionTemps O
  with_temps ts s = record {
    data_temps = ts;
    bool_temps_stack = s.bools;
    data_temps_stack = s.datas;
    header_temps_stack = s.headers;
    stack_temps_stack = s.stacks;
    union_temps_stack = s.unions;
  }

  abbrev pub put : (t : ExprType) → Item O t → Stacks O → Stacks O
  put unknown_type i s = s
  put data_type i s = record s { datas = i ∷ s.datas }
  put header_type i s = record s { headers = i ∷ s.headers }
  put header_stack_type i s = record s { stacks = Temps.header_stack i ∷ s.stacks }
  put bool_type i s = record s { bools = i ∷ s.bools }
  put union_type i s = record s { unions = i ∷ s.unions }
  put union_stack_type i s = record s { stacks = Temps.union_stack i ∷ s.stacks }

  abbrev pub Points : ℕ → List O.Data → DataPointer O → O.Data → Type 0
  Points hi ts (temp i) v = (i < hi) × (get_elem? ts i ≡ some v)
  Points hi ts (stored d) v = d ≡ v

-- An item stands for a value, with no register from `hi` on.
abbrev pub Means : (O : Objects) (t : ExprType) → ℕ → List O.Data → Item O t → Value O t → Type 0
Means O data_type hi ts i v = Points hi ts i v
Means O unknown_type hi ts i v = i ≡ v
Means O header_type hi ts i v = i ≡ v
Means O header_stack_type hi ts i v = i ≡ v
Means O bool_type hi ts i v = i ≡ v
Means O union_type hi ts i v = i ≡ v
Means O union_stack_type hi ts i v = i ≡ v

pub Means-Kept :
    (O : Objects) (t : ExprType) (hi : ℕ) (ts ts' : List O.Data) (i : Item O t) (v : Value O t)
    → Kept hi ts ts'
    → Means O t hi ts i v
    → Means O t hi ts' i v
Means-Kept O data_type hi ts ts' (temp i) v k m = (m.0, k.1 i m.0 ∙ m.1)
Means-Kept O data_type hi ts ts' (stored d) v k m = m
Means-Kept O unknown_type hi ts ts' i v k m = m
Means-Kept O header_type hi ts ts' i v k m = m
Means-Kept O header_stack_type hi ts ts' i v k m = m
Means-Kept O bool_type hi ts ts' i v k m = m
Means-Kept O union_type hi ts ts' i v k m = m
Means-Kept O union_stack_type hi ts ts' i v k m = m

-- The operation has no result where the value has none, and else pushes an item for the value.
abbrev pub Result :
    (O : Objects) (t : ExprType)
    → ℕ
    → ℕ
    → Stacks O
    → List O.Data
    → Option (Value O t)
    → Option (ExpressionTemps O)
    → Type 0
Result O t lo hi s ts none x = x ≡ none
Result O t lo hi s ts (some v) x =
    (j : Item O t) × (ts' : List O.Data) × (x ≡ some (with_temps ts' (put t j s)))
    × Kept lo ts ts'
    × Means O t hi ts' j v

pub pop_data_lem :
    {O : Objects} (hi : ℕ) (ts : List O.Data) (s : Stacks O) (p : DataPointer O) (v : O.Data)
    → Points hi ts p v
    → pop_data (with_temps ts (put data_type p s)) ≡ some (v, with_temps ts s)
unfolding pop_data read
pop_data_lem hi ts s (temp i) v m = rw m.1
pop_data_lem hi ts s (stored d) v m = rw m

-- Results that are pushed, with no register written.
module _ {O : Objects} (lo hi : ℕ) (s : Stacks O) (ts : List O.Data) where
  data-Result :
      (o : Option O.Data)
      → Result O data_type lo hi s ts o (o >>= λ v. some (push_data (stored v) (with_temps ts s)))
  unfolding push_data
  data-Result none = refl
  data-Result (some v) = (stored v, ts, refl, Kept-refl lo ts, refl)

  header-Result :
      (o : Option O.Header)
      → Result O header_type lo hi s ts o (o >>= λ v. some (push_header v (with_temps ts s)))
  unfolding push_header
  header-Result none = refl
  header-Result (some v) = (v, ts, refl, Kept-refl lo ts, refl)

  header_stack-Result :
      (o : Option O.HeaderStack)
      → Result O header_stack_type lo hi s ts o
          (o >>= λ v. some (push_stack (Temps.header_stack v) (with_temps ts s)))
  unfolding push_stack
  header_stack-Result none = refl
  header_stack-Result (some v) = (v, ts, refl, Kept-refl lo ts, refl)

  union-Result :
      (o : Option O.HeaderUnion)
      → Result O union_type lo hi s ts o (o >>= λ v. some (push_union v (with_temps ts s)))
  unfolding push_union
  union-Result none = refl
  union-Result (some v) = (v, ts, refl, Kept-refl lo ts, refl)

  union_stack-Result :
      (o : Option O.HeaderUnionStack)
      → Result O union_stack_type lo hi s ts o
          (o >>= λ v. some (push_stack (Temps.union_stack v) (with_temps ts s)))
  unfolding push_stack
  union_stack-Result none = refl
  union_stack-Result (some v) = (v, ts, refl, Kept-refl lo ts, refl)

  field-Result :
      (o : Option O.Header) (get : O.Header → Option O.Data)
      → Result O data_type lo hi s ts
          (o >>= get)
          (o >>= λ h. get h >>= λ v. some (push_data (stored v) (with_temps ts s)))
  field-Result none get = refl
  field-Result (some h) get = data-Result (get h)

  last_field-Result :
      (o : Option O.HeaderStack) (last : O.HeaderStack → Option O.Header)
      (get : O.Header → Option O.Data)
      → Result O data_type lo hi s ts
          (o >>= λ x. last x >>= get)
          (o >>= λ x. last x >>= λ h. get h >>= λ v. some (push_data (stored v) (with_temps ts s)))
  last_field-Result none last get = refl
  last_field-Result (some x) last get = field-Result (last x) get

module _ {O : Objects} (d : ℕ) (s : Stacks O) (ts : List O.Data) (h : d + 1 ≤ length ts) where
  -- The result is put into register `d`.
  temp-Result :
      (o : Option O.Data)
      → Result O data_type d (d + 1) s ts o (o >>= λ v. some (push_temp d v (with_temps ts s)))
  unfolding push_temp
  temp-Result none = refl
  temp-Result (some v) = (
    temp d,
    set ts d v,
    refl,
    (length-set ts d v, λ i l. get_elem?-set_ne ts d i v (λ z. absurd (omega (arith, z)))),
    (omega arith, get_elem?-set_self ts d v (omega arith)),
  )

module _ {O : Objects} (const_values locals : List O.Data) (d : ℕ) (s : Stacks O)
    (ts : List O.Data) where
  pub leaf-Result :
      {t : ExprType} (l : Leaf O t)
      → Result O t d
          (d + claims (pushes (leaf_op l)))
          s
          ts
          (leaf_meaning locals l)
          (run_op const_values locals (with_dest d (leaf_op l)) (with_temps ts s))
  unfolding leaf_op with_dest pushes leaf_meaning run_op load push_data push_header push_stack
      push_bool push_union
  leaf-Result (field h f) = field-Result d (d + 0) s ts (O.phv_header h) (λ x. O.get_field x f)
  leaf-Result (header h) = header-Result d (d + 0) s ts (O.phv_header h)
  leaf-Result (stack x) = header_stack-Result d (d + 0) s ts (O.phv_header_stack x)
  leaf-Result (last_field x f) =
      last_field-Result d (d + 0) s ts (O.phv_header_stack x) O.get_last (λ h. O.get_field h f)
  leaf-Result (union u) = union-Result d (d + 0) s ts (O.phv_header_union u)
  leaf-Result (union_stack x) = union_stack-Result d (d + 0) s ts (O.phv_header_union_stack x)
  leaf-Result (truth b) = (b, ts, refl, Kept-refl d ts, refl)
  leaf-Result (local k) = data-Result d (d + 0) s ts (get_elem? locals k)
  leaf-Result (register a k) = data-Result d (d + 0) s ts (O.register_at a k)

  pub unary-Result :
      {a t : ExprType} (u : Unary O a t) (hi : ℕ) (i : Item O a) (v : Value O a)
      → d + claims (pushes (unary_op u)) ≤ length ts
      → Means O a hi ts i v
      → Result O t d
          (d + claims (pushes (unary_op u)))
          s
          ts
          (unary_meaning u v)
          (run_op const_values locals (with_dest d (unary_op u)) (with_temps ts (put a i s)))
  unfolding unary_op with_dest pushes unary_meaning run_op load compute test push_data push_header
      push_stack push_bool push_union push_temp pop_bool pop_header pop_union pop_header_stack
  unary-Result (register_at a) hi i v h m =
      rw (pop_data_lem hi ts s i v m) (data-Result d (d + 0) s ts (O.register_at a (O.to_size v)))
  unary-Result (field_of f) hi i v h m = rw m (data-Result d (d + 0) s ts (O.get_field v f))
  unary-Result (header_of k) hi i v h m = rw m (header-Result d (d + 0) s ts (O.union_at v k))
  unary-Result complement hi i v h m =
      rw (pop_data_lem hi ts s i v m) (temp-Result d s ts h (O.negate v))
  unary-Result negated hi i v h m = rw m (_, ts, refl, Kept-refl d ts, refl)
  unary-Result header_valid hi i v h m = rw m (_, ts, refl, Kept-refl d ts, refl)
  unary-Result union_valid hi i v h m = rw m (_, ts, refl, Kept-refl d ts, refl)
  unary-Result as_bool hi i v h m =
      rw (pop_data_lem hi ts s i v m) (_, ts, refl, Kept-refl d ts, refl)
  unary-Result as_data hi i v h m = rw m (temp-Result d s ts h (some (O.of_number (bool_number v))))
  unary-Result last_index hi i v h m =
      rw m (temp-Result d s ts h (some (O.of_number ((O.get_count v + (2 ^ 64 - 1)) % 2 ^ 64))))
  unary-Result stack_length hi i v h m =
      rw m (temp-Result d s ts h (some (O.of_number (O.get_count v))))

  pub binary-Result :
      {a b t : ExprType} (o : Binary O a b t) (hi hi' : ℕ) (i : Item O a) (j : Item O b)
      (l : Value O a) (r : Value O b)
      → d + claims (pushes (binary_op o)) ≤ length ts
      → Means O a hi ts i l
      → Means O b hi' ts j r
      → Result O t d (d + claims (pushes (binary_op o))) s ts (binary_meaning o l r) (
          run_op const_values locals
            (with_dest d (binary_op o))
            (with_temps ts (put b j (put a i s))))
  unfolding binary_op with_dest pushes binary_meaning run_op compute test push_header push_bool
      push_union push_temp pop_bool pop_header pop_union pop_header_stack pop_union_stack
  binary-Result (calculated a) hi hi' i j l r h m n =
      rw (pop_data_lem hi' ts (put data_type i s) j r n, pop_data_lem hi ts s i l m)
        (temp-Result d s ts h (O.apply a l r))
  binary-Result (compared c) hi hi' i j l r h m n =
      rw (pop_data_lem hi' ts (put data_type i s) j r n, pop_data_lem hi ts s i l m)
        (_, ts, refl, Kept-refl d ts, refl)
  binary-Result (same_header q) hi hi' i j l r h m n = rw (m, n) (_, ts, refl, Kept-refl d ts, refl)
  binary-Result (same_union q) hi hi' i j l r h m n = rw (m, n) (_, ts, refl, Kept-refl d ts, refl)
  binary-Result (connected c) hi hi' i j l r h m n = rw (m, n) (_, ts, refl, Kept-refl d ts, refl)
  binary-Result stack_element hi hi' i j l r h m n =
      rw (pop_data_lem hi' ts (put header_stack_type i s) j r n, m)
        (header-Result d (d + 0) s ts (O.stack_at l (O.to_size r)))
  binary-Result union_element hi hi' i j l r h m n =
      rw (pop_data_lem hi' ts (put union_stack_type i s) j r n, m)
        (union-Result d (d + 0) s ts (O.union_stack_at l (O.to_size r)))
