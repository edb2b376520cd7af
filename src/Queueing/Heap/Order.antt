-- ===== src/Queueing/Heap/Order.antt =====
-- The order of a priority queue, and the elements of one logical queue in it.
use prog_tm_bmv.Base.{
  ℕ, ◌≡◌, refl, ap, arith, true, false, ◌==◌, ==_refl, if◌then◌else◌, List, [], ◌∷◌, ◌++◌,
  Bool-cases, inl, inr,
}
use prog_tm_bmv.Queueing.Heap.{Qe, comes_after, emplace}

module _ {ℓ κ} {A : Type ℓ} where
  -- every element of a list satisfies `P`
  abbrev pub All : (A → Type κ) → List A → Type κ
  All P [] = Unit
  All P (x ∷ xs) = P x × All P xs

module _ {ℓ κ μ} {A : Type ℓ} {P : A → Type κ} {Q : A → Type μ} where
  pub All-imp : ((x : A) → P x → Q x) → (xs : List A) → All P xs → All Q xs
  All-imp f [] a = tt
  All-imp f (x ∷ xs) a = (f x a.0, All-imp f xs a.1)

module _ {ℓ} {T : Type ℓ} where
  -- no element comes after one behind it
  abbrev pub IsSorted : List (Qe T) → Type 0
  IsSorted [] = Unit
  IsSorted (x ∷ xs) = All (λ y. comes_after x y ≡ false) xs × IsSorted xs

  -- the elements of one logical queue
  unfoldable pub of_queue : ℕ → List (Qe T) → List (Qe T)
  of_queue q [] = []
  of_queue q (x ∷ xs) = let rest = of_queue q xs in if x.queue_id == q then x ∷ rest else rest

  pub All-emplace {κ} :
      (P : Qe T → Type κ) (xs : List (Qe T)) (x : Qe T) → P x → All P xs → All P (emplace xs x)
  unfolding emplace
  All-emplace P [] x p a = (p, tt)
  All-emplace P (y ∷ ys) x p a = elim (Bool-cases (comes_after y x)) [
    | inl e ↦ rw e (p, a)
    | inr e ↦ rw e (a.0, All-emplace P ys x p a.1)
  ]

  comes_after_asym : (x y : Qe T) → comes_after x y ≡ true → comes_after y x ≡ false
  unfolding comes_after
  comes_after_asym x y h = ground arith

  comes_after_before :
      (x y z : Qe T) → comes_after y x ≡ true → comes_after y z ≡ false → comes_after z x ≡ true
  unfolding comes_after
  comes_after_before x y z h k = ground arith

  pub emplace-IsSorted : (xs : List (Qe T)) (x : Qe T) → IsSorted xs → IsSorted (emplace xs x)
  unfolding emplace
  emplace-IsSorted [] x s = (tt, tt)
  emplace-IsSorted (y ∷ ys) x s = elim (Bool-cases (comes_after y x)) [
    | inl e ↦ rw e (
      (
        comes_after_asym y x e,
        All-imp (λ z h. comes_after_asym z x (comes_after_before x y z e h)) ys s.0,
      ),
      s,
    )
    | inr e ↦
        rw e (All-emplace (λ z. comes_after y z ≡ false) ys x e s.0, emplace-IsSorted ys x s.1)
  ]

  -- An element goes behind those of its own queue that do not come after it.
  pub of_queue-emplace_own :
      (xs : List (Qe T)) (x : Qe T)
      → IsSorted xs
      → All (λ y. y.queue_id ≡ x.queue_id → comes_after y x ≡ false) xs
      → of_queue x.queue_id (emplace xs x) ≡ of_queue x.queue_id xs ++ x ∷ []
  unfolding emplace of_queue
  of_queue-emplace_own [] x s a = rw (==_refl x.queue_id)
  of_queue-emplace_own (y ∷ ys) x s a = elim (Bool-cases (comes_after y x)) [
    | inl e ↦
        let off : (y.queue_id == x.queue_id) ≡ false = not_own y a.0 e in
        rw (e, off, ==_refl x.queue_id, none_own ys s.0 a.1 e)
    | inr e ↦ elim (Bool-cases (y.queue_id == x.queue_id)) [
      | inl o ↦ rw (e, o) (ap (◌∷◌ y) (of_queue-emplace_own ys x s.1 a.1))
      | inr o ↦ rw (e, o) (of_queue-emplace_own ys x s.1 a.1)
    ]
  ]
    where
      not_own :
          (z : Qe T)
          → (z.queue_id ≡ x.queue_id → comes_after z x ≡ false)
          → comes_after z x ≡ true
          → (z.queue_id == x.queue_id) ≡ false
      not_own z f e = elim (Bool-cases (z.queue_id == x.queue_id)) [
        | inl o ↦ let same : z.queue_id ≡ x.queue_id = ground arith in absurd (cc (f same, e))
        | inr o ↦ o
      ]

      none_own :
          (zs : List (Qe T))
          → All (λ z. comes_after y z ≡ false) zs
          → All (λ z. z.queue_id ≡ x.queue_id → comes_after z x ≡ false) zs
          → comes_after y x ≡ true
          → of_queue x.queue_id zs ≡ []
      none_own [] b c e = refl
      none_own (z ∷ zs) b c e =
          rw (not_own z c.0 (comes_after_before x y z e b.0)) (none_own zs b.1 c.1 e)

  pub of_queue-emplace_other :
      (q : ℕ) (xs : List (Qe T)) (x : Qe T)
      → (x.queue_id == q) ≡ false
      → of_queue q (emplace xs x) ≡ of_queue q xs
  unfolding emplace of_queue
  of_queue-emplace_other q [] x o = rw o
  of_queue-emplace_other q (y ∷ ys) x o = elim (Bool-cases (comes_after y x)) [
    | inl e ↦ rw (e, o)
    | inr e ↦ elim (Bool-cases (y.queue_id == q)) [
      | inl p ↦ rw (e, p) (ap (◌∷◌ y) (of_queue-emplace_other q ys x o))
      | inr p ↦ rw (e, p) (of_queue-emplace_other q ys x o)
    ]
  ]
