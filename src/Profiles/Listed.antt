-- ===== src/Profiles/Listed.antt =====
-- The vectors that `get_members` and `get_groups` fill.
use prog_tm_bmv.Base.{
  ℕ, zero, suc, ◌+◌, ◌≤◌, ◌<◌, ◌≡◌, refl, ap, sym, ◌∙◌, arith, ltb, lt→ltb, ◌==◌, inl, inr,
  Bool-cases, true, List, [], ◌∷◌, ◌++◌, length, length-append, length-replicate, replicate,
  get_elem?, set, map, Option, none, some, sum_below,
}
use prog_tm_bmv.Bitset
use prog_tm_bmv.Bitset.Access.{bit_at_small}
use prog_tm_bmv.Handles
use prog_tm_bmv.Handles.{HandleMgr}
use prog_tm_bmv.Handles.Inv.{live}
use prog_tm_bmv.Handles.Walk.{visited, visited_lem, live_list}
use prog_tm_bmv.Profiles.Inv.{IsStore}
use prog_tm_bmv.Profiles.Reads.{fill, read_at}

-- All are there.
pub data AreSome {A : Type 0} : List (Option A) → Type 0 where
  nil : AreSome []
  cons : (x : A) (xs : List (Option A)) → AreSome xs → AreSome (some x ∷ xs)

module _ {A : Type 0} where
  set-append :
      (pre : List A) (y : A) (ys : List A) (x : A)
      → set (pre ++ y ∷ ys) (length pre) x ≡ pre ++ x ∷ ys
  set-append [] y ys x = refl
  set-append (p ∷ pre) y ys x = ap (◌∷◌ p) (set-append pre y ys x)

  append_cons : (pre : List A) (x : A) (ys : List A) → pre ++ x ∷ ys ≡ (pre ++ x ∷ []) ++ ys
  append_cons [] x ys = refl
  append_cons (p ∷ pre) x ys = ap (◌∷◌ p) (append_cons pre x ys)

module _ {A : Type 0} where
  fill_lem :
      (pre : List (Option A)) (xs : List (Option A))
      → AreSome xs
      → (ys : List (Option A)) → length ys ≡ length xs
      → (idx : ℕ) → idx ≡ length pre
      → fill (pre ++ ys) idx xs ≡ some (pre ++ xs)
  unfolding fill
  fill_lem pre _ nil [] l idx e = refl
  fill_lem pre _ nil (y ∷ ys) l idx e = absurd (omega arith)
  fill_lem pre _ (cons x xs all) [] l idx e = absurd (omega arith)
  fill_lem pre _ (cons x xs all) (y ∷ ys) l idx e =
      rw
        (
          inside,
          e,
          set-append pre y ys (some x),
          append_cons pre (some x) ys,
          append_cons pre (some x) xs,
        )
        (fill_lem (pre ++ some x ∷ []) xs all ys (omega (arith, l)) (length pre + 1)
          (omega (arith, length-append pre (some x ∷ []))))
    where
      inside : ltb idx (length (pre ++ y ∷ ys)) ≡ true
      inside = lt→ltb _ _ (omega (arith, e, length-append pre (y ∷ ys)))

  pub elem_inside : (xs : List A) (i : ℕ) → i < length xs → (x : A) × (get_elem? xs i ≡ some x)
  elem_inside [] i h = absurd (omega arith)
  elem_inside (x ∷ xs) zero h = (x, refl)
  elem_inside (x ∷ xs) (suc i) h = elem_inside xs i (omega arith)

  -- Each live handle is read.
  read-AreSome :
      (xs : List A) (f : ℕ → ℕ) (lo k : ℕ)
      → lo + k ≤ length xs
      → AreSome (map (read_at xs) (live_list f lo k))
  unfolding live_list read_at
  read-AreSome xs f lo zero h = nil
  read-AreSome xs f lo (suc k) h =
      let rest : AreSome (map (read_at xs) (live_list f (suc lo) k)) =
        read-AreSome xs f (suc lo) k (omega (arith, h)) in
      let (x, e) = elem_inside xs lo (omega (arith, h)) in
      let here : read_at xs lo ≡ some (lo, x) = rw (read_at, e) refl in
      elim (Bool-cases (f lo == 1)) [
        | inl y ↦ rw (y, here) (cons (lo, x) _ rest)
        | inr y ↦ rw y rest
      ]

length-live_list :
    (f : ℕ → ℕ) (lo k : ℕ)
    → ((i : ℕ) → f i ≤ 1)
    → length (live_list f lo k) + sum_below f lo ≡ sum_below f (lo + k)
unfolding live_list sum_below
length-live_list f lo zero h = omega (arith, ap (sum_below f) same)
  where
    same : lo ≡ lo + zero
    same = omega arith
length-live_list f lo (suc k) h =
    let rest : length (live_list f (suc lo) k) + sum_below f (suc lo) ≡ sum_below f (suc lo + k) =
      length-live_list f (suc lo) k h in
    elim (Bool-cases (f lo == 1)) [
      | inl y ↦ let this : f lo ≡ 1 = ground arith in rw (y, more) (omega (arith, rest, this))
      | inr y ↦
          let this : f lo ≡ 0 = ground (arith, h lo) in rw (y, more) (omega (arith, rest, this))
    ]
  where
    more : lo + suc k ≡ suc lo + k
    more = omega arith

length-all : (f : ℕ → ℕ) (k : ℕ) → ((i : ℕ) → f i ≤ 1) → length (live_list f 0 k) ≡ sum_below f k
unfolding sum_below
length-all f k h = omega (arith, length-live_list f 0 k h, ap (sum_below f) same)
  where
    same : 0 + k ≡ k
    same = omega arith

pub length-map : {A B : Type 0} (g : A → B) (xs : List A) → length (map g xs) ≡ length xs
length-map g [] = refl
length-map g (x ∷ xs) = ap suc (length-map g xs)

pub number-live_list :
    (m : HandleMgr) (items counts number : ℕ)
    → IsStore m items counts number
    → number ≡ length (live_list (live m) 0 m.handles.num_bits)
unfolding Handles.size Bitset.count
number-live_list m items counts number v =
    v.numbered
    ∙ v.manager.bits.counted
    ∙ sym (
        length-all (live m) m.handles.num_bits (λ i. omega (arith, bit_at_small m.handles.words i)))

-- What a store's handles lead to is read into a vector of the length of its number.
pub fill-read_at :
    {A : Type 0}
    → (m : HandleMgr) (items : List A) (counts number : ℕ) → IsStore m (length items) counts number
    → fill (replicate number none) 0 (map (read_at items) (visited m))
      ≡ some (map (read_at items) (live_list (live m) 0 m.handles.num_bits))
fill-read_at {A = A} m items counts number v = rw (visited_lem m v.manager) (
    fill_lem [] (map (read_at items) handles)
      (read-AreSome items (live m) 0 m.handles.num_bits (omega (arith, v.items_length)))
      (replicate number none) as_many 0 refl)
  where
    handles : List ℕ
    handles = live_list (live m) 0 m.handles.num_bits

    as_many :
        length {A = Option (ℕ × A)} (replicate number none) ≡ length (map (read_at items) handles)
    as_many =
        length-replicate number none
        ∙ number-live_list m _ counts number v
        ∙ sym (length-map (read_at items) handles)
