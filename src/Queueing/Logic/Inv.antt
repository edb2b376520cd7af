-- ===== src/Queueing/Logic/Inv.antt =====
-- The invariant of QueueingLogic and what its parts read.
use prog_tm_bmv.Base.{
  ℕ, zero, suc, ◌+◌, ◌%◌, ◌^◌, ◌<◌, ◌≡◌, ◌≢◌, refl, ap, arith, ◌==◌, if◌then◌else◌, List, [], ◌∷◌,
  ◌++◌, length, get_or, set, replicate, none, some, true, ◌↔◌, Option-cases, inl, inr, value_for,
  get_or-replicate,
}
use prog_tm_bmv.Queueing.Logic.{Qe, QueueingLogic, split_back, create, size, empty}

module _ {ℓ} {A : Type ℓ} where
  -- the elements of all deques
  unfoldable pub total : List (List A) → ℕ
  total [] = 0
  total (q ∷ qs) = length q + total qs

  pub total-set :
      (qs : List (List A)) (w : ℕ) (q : List A)
      → w < length qs
      → total (set qs w q) + length (get_or qs w []) ≡ total qs + length q
  unfolding total
  total-set [] w q l = absurd (omega arith)
  total-set (x ∷ qs) zero q l = omega arith
  total-set (x ∷ qs) (suc w) q l = omega (arith, total-set qs w q (omega arith))

  pub total_zero : (qs : List (List A)) → total qs ≡ 0 → (w : ℕ) → get_or qs w [] ≡ []
  unfolding total
  total_zero [] e w = refl
  total_zero ([] ∷ qs) e zero = refl
  total_zero ((x ∷ q) ∷ qs) e zero = absurd (omega arith)
  total_zero (q ∷ qs) e (suc w) = total_zero qs (omega arith) w

  pub zero_total : (qs : List (List A)) → ((w : ℕ) → get_or qs w [] ≡ []) → total qs ≡ 0
  unfolding total
  zero_total [] e = refl
  zero_total (q ∷ qs) e = omega (arith, ap length (e 0), zero_total qs (λ w. e (suc w)))

  pub split_back-none : (xs : List A) → split_back xs ≡ none → xs ≡ []
  unfolding split_back
  split_back-none [] e = refl
  split_back-none (x ∷ xs) e = elim (Option-cases (split_back xs)) [
    | inl n ↦ absurd (cc (some_of n, e))
    | inr (r, f) ↦ absurd (cc (some_of2 r f, e))
  ]
    where
      some_of : split_back xs ≡ none → split_back (x ∷ xs) ≡ some ([], x)
      some_of n = rw (n, split_back)

      some_of2 :
          (r : List A × A) → split_back xs ≡ some r → split_back (x ∷ xs) ≡ some (x ∷ r.0, r.1)
      some_of2 r f = rw (f, split_back)

  pub split_back-some :
      (xs : List A) (front : List A) (back : A)
      → split_back xs ≡ some (front, back)
      → xs ≡ front ++ back ∷ []
  unfolding split_back
  split_back-some [] front back e = cc
  split_back-some (x ∷ xs) front back e = elim (Option-cases (split_back xs)) [
    | inl n ↦ ground (arith, n, split_back-none xs)
    | inr (r, f) ↦ ground (arith, f, split_back-some xs r.0 r.1)
  ]

pub total-replicate {ℓ} : (A : Type ℓ) (n : ℕ) → total (replicate {A = List A} n []) ≡ 0
unfolding total
total-replicate A zero = refl
total-replicate A (suc n) = omega (arith, total-replicate A n)

module _ {ℓ} {T : Type ℓ} where
  -- the elements of one logical queue in a deque
  unfoldable pub in_queue : ℕ → List (Qe T) → ℕ
  in_queue q [] = 0
  in_queue q (x ∷ xs) = (if x.queue_id == q then 1 else 0) + in_queue q xs

  pub in_queue-append :
      (q : ℕ) (xs ys : List (Qe T)) → in_queue q (xs ++ ys) ≡ in_queue q xs + in_queue q ys
  unfolding in_queue
  in_queue-append q [] ys = omega arith
  in_queue-append q (x ∷ xs) ys = omega (arith, in_queue-append q xs ys)

  -- the deque of a worker
  abbrev pub deque_of : QueueingLogic T → ℕ → List (Qe T)
  deque_of s w = get_or s.workers_info w []

  -- the capacity that a queue has, or would get
  abbrev pub capacity_of : QueueingLogic T → ℕ → ℕ
  capacity_of s q = elim (value_for q s.queues_info) [
    | none ↦ s.capacity
    | some q_info ↦ q_info.capacity
  ]

  -- Each logical queue's size is the number of its elements, which are all in its worker's deque, and
  -- element_count is the number of all elements.
  pub record IsValid (map_to_worker : ℕ → ℕ) (s : QueueingLogic T) : Type ℓ where
    pub counted : (q : ℕ) → size s q ≡ in_queue q (deque_of s (map_to_worker q))
    pub placed : (q w : ℕ) → w ≢ map_to_worker q → in_queue q (deque_of s w) ≡ 0
    pub fits : (q : ℕ) → size s q < 2 ^ 64
    pub capacities : (q : ℕ) → capacity_of s q < 2 ^ 64
    pub all_counted : s.element_count ≡ total s.workers_info % 2 ^ 32

  pub create-IsValid :
      (map_to_worker : ℕ → ℕ) (nb_workers capacity : ℕ)
      → capacity < 2 ^ 64
      → IsValid map_to_worker (create nb_workers capacity)
  unfolding create size in_queue value_for
  create-IsValid map_to_worker nb_workers capacity h = record {
    counted = λ q. rw (nothing (map_to_worker q));
    placed = λ q w _. rw (nothing w);
    fits = λ q. omega arith;
    capacities = λ q. h;
    all_counted = rw (total-replicate (Qe T) nb_workers);
  }
    where
      nothing : (w : ℕ) → get_or (replicate {A = List (Qe T)} nb_workers []) w [] ≡ []
      nothing w = get_or-replicate {A = List (Qe T)} nb_workers w []

  -- In a valid state with fewer than 2 ^ 31 elements, empty says whether every deque is empty.
  pub empty_lem :
      (map_to_worker : ℕ → ℕ) (s : QueueingLogic T)
      → IsValid map_to_worker s
      → total s.workers_info < 2 ^ 31
      → (empty s ≡ true) ↔ ((w : ℕ) → deque_of s w ≡ [])
  unfolding empty
  empty_lem map_to_worker s v h = (
    λ e. total_zero s.workers_info (ground (arith, v.all_counted)),
    λ all. ground (arith, v.all_counted, zero_total s.workers_info all),
  )
